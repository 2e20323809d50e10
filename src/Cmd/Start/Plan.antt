-- ===== src/Cmd/Start/Plan.antt =====
-- The calls of a start in their order, and a run of them up to the first that is refused.
use atom_operator.Prelude.{
  String, Bool, true, false, ◌≡◌, ◌↔◌, inl, inr, refl, ap, sym, ◌∙◌, append-nil, append_assoc,
  Option-cases, Option, none, some, List, [], ◌∷◌, ◌++◌, map,
}
use atom_operator.Prelude.Result.{GoError, ok}
use atom_operator.Controller.Run.{Run, pure, ◌>>◌, pure-eq-ok}
use atom_operator.Cmd.Flags.{Flags}
use atom_operator.Cmd.Process.{
  Call, get_config_or_die, new_manager, add_healthz_check, add_readyz_check, start, Process,
  Platform, or_exit, perform,
}
use atom_operator.Cmd.Start.{
  manager_options, reconciler_setup, setup_atom_webhook_with_manager, webhooks_enabled,
  setup_webhook, run_manager,
}

-- The calls in their order, with the message of each.
with_webhook : Bool → List (String × Call)
with_webhook true = ("unable to create webhook", setup_atom_webhook_with_manager) ∷ []
with_webhook false = []

abbrev pub calls_of : List (String × Call) → List Call
calls_of calls = map (λ (c : String × Call). c.1) calls

-- More calls.
abbrev pub add : Process → List Call → Process
add p calls = record p { calls = p.calls ++ calls }

add_nothing : (p : Process) → add p [] ≡ p
add_nothing p = ap (λ l. record p { calls = l }) (append-nil p.calls)

add-append : (p : Process) (made more : List Call) → add (add p made) more ≡ add p (made ++ more)
add-append p made more = ap (λ l. record p { calls = l }) (append_assoc p.calls made more)

module _ (platform : Platform) where
  pub plan : Flags → List (String × Call)
  unfolding with_webhook
  plan flags =
      ("unable to get kubeconfig", get_config_or_die)
        ∷ ("unable to start manager", new_manager (manager_options flags))
        ∷ ("unable to create controller", reconciler_setup flags)
        ∷ with_webhook (webhooks_enabled platform)
      ++ ("unable to set up health check", add_healthz_check "healthz")
        ∷ ("unable to set up ready check", add_readyz_check "readyz")
        ∷ ("problem running manager", start)
        ∷ []

  pub perform_all : List (String × Call) → Run Process (Unit {0})
  perform_all [] = pure (ok tt)
  perform_all ((message, call) ∷ calls) = do perform platform message call; perform_all calls

  webhook_lem :
      (b : Bool) (calls : List (String × Call))
      → (setup_webhook platform b >> perform_all calls) ≡ perform_all (with_webhook b ++ calls)
  unfolding setup_webhook with_webhook perform_all
  webhook_lem true calls = refl
  webhook_lem false calls = refl

  pub run_manager_lem :
      (flags : Flags) (p : Process) → run_manager platform flags p ≡ perform_all (plan flags) p
  unfolding run_manager plan perform_all
  run_manager_lem flags p =
      ap
        (λ (rest : Run Process (Unit {0})).
          (perform platform "unable to get kubeconfig" get_config_or_die
              >> (perform platform "unable to start manager" (new_manager (manager_options flags))
                  >> (perform platform "unable to create controller" (reconciler_setup flags)
                      >> rest)))
            p)
        (webhook_lem (webhooks_enabled platform) _)

  -- Each call is answered with no error, after the calls before it.
  abbrev pub Answered : List Call → List (String × Call) → Type 0
  Answered made [] = Unit
  Answered made ((message, call) ∷ calls) =
      (platform.answer made call ≡ none) × Answered (made ++ call ∷ []) calls

  or_exit-eq-ok_iff :
      (message : String) (e : Option GoError) → (or_exit message e ≡ ok tt) ↔ (e ≡ none)
  unfolding or_exit
  or_exit-eq-ok_iff message none = (λ _. refl, λ _. refl)
  or_exit-eq-ok_iff message (some e) = (λ h. cc, λ h. cc)

  pub perform_all-eq-ok_iff :
      (calls : List (String × Call)) (p p' : Process)
      → (perform_all calls p ≡ (p', ok tt))
        ↔ (Answered p.calls calls × (p' ≡ add p (calls_of calls)))
  unfolding perform_all perform
  perform_all-eq-ok_iff [] p p' = (
    λ h. (tt, ap (λ q. q.0) (sym h) ∙ sym (add_nothing p)),
    λ (_, e). ap (λ q. (q, ok tt)) (sym (e ∙ add_nothing p)),
  )
  perform_all-eq-ok_iff ((message, call) ∷ calls) p p' =
      let refused = platform.answer p.calls call in
      let ih = perform_all-eq-ok_iff calls (add p (call ∷ [])) p' in
      (
        λ h.
            let (u, e, h') = pure-eq-ok (or_exit message refused) (add p (call ∷ [])) _ h in
            let (answered, same) = ih.0 h' in
            (
              ((or_exit-eq-ok_iff message refused).0 e, answered),
              same ∙ add-append p (call ∷ []) (calls_of calls),
            ),
        λ ((e, answered), same).
            rw ((or_exit-eq-ok_iff message refused).1 e)
              (ih.1 (answered, same ∙ sym (add-append p (call ∷ []) (calls_of calls)))),
      )

  -- The calls that are made are the first ones.
  pub perform_all-calls :
      (calls : List (String × Call)) (p : Process)
      → (done rest : List Call) × (calls_of calls ≡ done ++ rest)
        × ((perform_all calls p).0 ≡ add p done)
  unfolding perform_all perform or_exit
  perform_all-calls [] p = ([], [], refl, sym (add_nothing p))
  perform_all-calls ((message, call) ∷ calls) p =
      elim (Option-cases (platform.answer p.calls call)) [
        | inl none_refused ↦
            let (done, rest, e, h) = perform_all-calls calls (add p (call ∷ [])) in
            (
              call ∷ done,
              rest,
              ap (λ l. call ∷ l) e,
              rw none_refused (h ∙ add-append p (call ∷ []) done),
            )
        | inr (e, refused) ↦ (call ∷ [], calls_of calls, refl, rw refused)
      ]
