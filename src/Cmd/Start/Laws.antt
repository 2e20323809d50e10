-- ===== src/Cmd/Start/Laws.antt =====
-- What the start of the manager calls, in which order and with which settings.
use mathlib.Core.List.Permᴰ
use mathlib.Core.List.{Permᴰ}
use atom_operator.Prelude.{
  String, ◌≡◌, ◌≢◌, ◌↔◌, ◌⊎◌, inl, inr, refl, ap, sym, ◌∙◌, Bool-cases, str_eq, eq_iff, List, [],
  ◌∷◌, ◌++◌, All,
}
use atom_operator.Prelude.Result.{Result, ok, err, panic}
use atom_operator.Text.{trim_suffix}
use atom_operator.Api.V3.{set_base_url, set_blob_endpoint}
use atom_operator.Controller.Run.{after, pure-eq-ok}
use atom_operator.Controller.Ingress.Order.{All-perm}
use atom_operator.Cmd.Flags.{Flags, default_flags, req_flags, check_required}
use atom_operator.Cmd.Process.{Call, Process, Platform}
use atom_operator.Cmd.Start.{parsed, set_globals, run_manager, main_with, main}
use atom_operator.Cmd.Start.Plan.{
  plan, run_manager_lem, Answered, calls_of, add, perform_all-eq-ok_iff, perform_all-calls,
}

-- Each required flag has a value.
abbrev pub HasValues : List (String × String) → Type 0
HasValues flags = All (λ (f : String × String). f.1 ≢ "") flags

check_required-eq-ok_iff :
    (flags : List (String × String)) → (check_required flags ≡ ok tt) ↔ HasValues flags
unfolding check_required
check_required-eq-ok_iff [] = (λ _. tt, λ _. refl)
check_required-eq-ok_iff ((name, val) ∷ flags) =
    let ih = check_required-eq-ok_iff flags in
    elim (Bool-cases (str_eq val "")) [
      | inl empty ↦ rw empty (λ h. absurd (cc), λ h. absurd (h.0 ((eq_iff val "").0 empty)))
      | inr given ↦ rw given (λ h. (λ e. cc ((eq_iff val "").1 e), ih.0 h), λ h. ih.1 h.1)
    ]

parsed-eq-ok_iff :
    (result : Result Flags) (flags : Flags) → (parsed result ≡ ok flags) ↔ (result ≡ ok flags)
unfolding parsed
parsed-eq-ok_iff (ok f) flags = (λ h. h, λ h. h)
parsed-eq-ok_iff (err e) flags = (λ h. cc, λ h. cc)
parsed-eq-ok_iff (panic v) flags = (λ h. cc, λ h. cc)

-- The process with the base URL of these flags, less a slash at its end, and their blob endpoint,
-- and with more calls.
abbrev pub started : Flags → Process → List Call → Process
started flags p calls = record {
  globals = record {
    base_url = trim_suffix flags.base_url "/";
    blob_endpoint = flags.blob_endpoint;
  };
  calls = p.calls ++ calls;
}

set_globals_lem :
    (flags : Flags) (p : Process) (calls : List Call)
    → add (set_globals flags p) calls ≡ started flags p calls
unfolding set_globals set_base_url set_blob_endpoint
set_globals_lem flags p calls = refl

-- What was called: nothing, or the first calls of the plan for these flags.
abbrev pub Called : Platform → Result Flags → Process → Process → Type 0
Called platform result p p' =
    (p' ≡ p)
    ⊎ ((flags : Flags) × (result ≡ ok flags)
        × HasValues (req_flags flags)
        × (done : List Call) × (rest : List Call) × (calls_of (plan platform flags) ≡ done ++ rest)
        × (p' ≡ started flags p done))

module _ (platform : Platform) (order : List (String × String) → List (String × String))
    (any : (flags : List (String × String)) → Permᴰ flags (order flags)) where
  required_iff :
      (flags : Flags)
      → (check_required (order (req_flags flags)) ≡ ok tt) ↔ HasValues (req_flags flags)
  required_iff flags =
      let (from, to) = check_required-eq-ok_iff (order (req_flags flags)) in
      (
        λ h. All-perm _ (Permᴰ.symm (any (req_flags flags))) (from h),
        λ h. to (All-perm _ (any (req_flags flags)) h),
      )

  -- The program ends without an error exactly if the flags can be parsed, the four required ones
  -- have a value, in whatever order they are tested, and each call of the plan is answered with no
  -- error; the base URL, less a slash at its end, and the blob endpoint are then those of the flags,
  -- and the calls of the plan were made in their order.
  pub main-eq-ok_iff :
      (args : List String) (p p' : Process)
      → (main platform order args p ≡ (p', ok tt)) ↔ (
          (flags : Flags) × (platform.parse default_flags args ≡ ok flags)
          × HasValues (req_flags flags)
          × Answered platform p.calls (plan platform flags)
          × (p' ≡ started flags p (calls_of (plan platform flags))))
  unfolding main main_with set_globals
  main-eq-ok_iff args p p' = (
    λ h.
        let result = platform.parse default_flags args in
        let (flags, e, h₁) = pure-eq-ok (parsed result) p _ h in
        let (u, e', h₂) = pure-eq-ok (check_required (order (req_flags flags))) p _ h₁ in
        let (answered, same) =
          (perform_all-eq-ok_iff platform (plan platform flags) (set_globals flags p) p').0
            (sym (run_manager_lem platform flags (set_globals flags p)) ∙ h₂) in
        (
          flags,
          (parsed-eq-ok_iff result flags).0 e,
          (required_iff flags).0 e',
          answered,
          same ∙ set_globals_lem flags p _,
        ),
    λ (flags, e, has, answered, same).
        let result = platform.parse default_flags args in
        rw ((parsed-eq-ok_iff result flags).1 e, (required_iff flags).1 has)
          (run_manager_lem platform flags (set_globals flags p)
            ∙ (perform_all-eq-ok_iff platform (plan platform flags) (set_globals flags p) p').1
                (answered, same ∙ sym (set_globals_lem flags p _))),
  )

  required-calls :
      (flags : Flags) (p : Process) (r : Result (Unit {0}))
      → check_required (order (req_flags flags)) ≡ r
      → Called platform
          (ok flags)
          p
          (after (p, r) (λ u q. run_manager platform flags (set_globals flags q))).0
  required-calls flags p (ok u) e =
      let (done, rest, first, h) =
        perform_all-calls platform (plan platform flags) (set_globals flags p) in
      inr (
        flags,
        refl,
        (required_iff flags).0 e,
        done,
        rest,
        first,
        ap (λ q. q.0) (run_manager_lem platform flags (set_globals flags p))
            ∙ h
            ∙ set_globals_lem flags p done,
      )
  required-calls flags p (err e) h = inl refl
  required-calls flags p (panic v) h = inl refl

  main_with-calls :
      (result : Result Flags) (p : Process)
      → Called platform result p (main_with platform order result p).0
  unfolding main_with parsed
  main_with-calls (ok flags) p = required-calls flags p _ refl
  main_with-calls (err e) p = inl refl
  main_with-calls (panic v) p = inl refl

  -- Whatever the run ends in: either nothing was called and no package variable was set, or the
  -- flags were parsed, the four required ones have a value, the base URL, less a slash at its end, and
  -- the blob endpoint are those of the flags, and the calls that were made are the first ones of the
  -- plan, in its order.
  pub main-Called :
      (args : List String) (p : Process)
      → Called platform (platform.parse default_flags args) p (main platform order args p).0
  unfolding main
  main-Called args p = main_with-calls (platform.parse default_flags args) p
