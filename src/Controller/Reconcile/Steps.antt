-- ===== src/Controller/Reconcile/Steps.antt =====
-- What one call of `CreateOrUpdate`, and the loop over the groups, leave in the cluster.
use atom_operator.Prelude.{
  ℕ, String, Bool, ◌≡◌, refl, ap, sym, ◌∙◌, subst, inl, inr, Bool-cases, none, some, List, [], ◌∷◌,
  All,
}
use atom_operator.Prelude.Result.{GoError, Result, ok, deref, ok_injective}
use atom_operator.Api.V3.{Atom}
use atom_operator.Generator.Links.{Env}
use atom_operator.Controller.Objects.{Object, Reconciler}
use atom_operator.Controller.Run.{Run, ◌>>=◌, bind-eq-ok, pure-eq-ok}
use atom_operator.Controller.Cluster.{OperationResult, Answer, answer, panicked, Cluster}
use atom_operator.Controller.Groups.{Group}
use atom_operator.Controller.Middleware.{
  download_link_name, get_bare_download_link_middleware, mutate_download_link_middleware,
}
use atom_operator.Controller.Reconcile.{
  Results, none_ignored, unable, settle, submit, submit_groups,
}

-- What `CreateOrUpdate` and the status package promise of the objects in the cluster, by kind,
-- namespace and name: a call with no error leaves the object there, and no call removes one.
pub record Keeps {URL W : Type 0} (c : Cluster URL W) (Has : String → String → String → W → Type 0)
    : Type 1 where
  pub creates :
      {S : Type 0} (kind : String) (object : Object S) (mutate : Object S → Result (Object S))
      (w : W) {w' : W} {op : OperationResult} {after_call : Object S}
      → c.create_or_update kind object mutate w ≡ (w', answer op after_call none)
      → Has kind object.head.namespace object.head.name w'
  pub keeps :
      {S : Type 0} (kind : String) (object : Object S) (mutate : Object S → Result (Object S))
      (w : W) (k namespace name : String)
      → Has k namespace name w
      → Has k namespace name (c.create_or_update kind object mutate w).0
  pub status_keeps :
      (atom : Atom URL) (results : Results) (w : W) (k namespace name : String)
      → Has k namespace name w
      → Has k namespace name (c.update_status_finished atom results w)

module _ {URL W : Type 0} (c : Cluster URL W) where
  pub settle-world :
      {S : Type 0} (kind key context : String) (ignored : GoError → Bool) (results : Results)
      (p : W × Answer S)
      → (settle c kind key context ignored results p).0 ≡ p.0
  unfolding settle
  settle-world kind key context ignored results (w, answer op o none) = refl
  settle-world kind key context ignored results (w, answer op o (some e)) =
      elim (Bool-cases (ignored e)) [ inl i ↦ rw i | inr i ↦ rw i ]
  settle-world kind key context ignored results (w, panicked v) = refl

module _ {URL W : Type 0} (c : Cluster URL W) (Has : String → String → String → W → Type 0) where
  -- Every object of the cluster `w` is there in `w'`.
  abbrev pub Later : W → W → Type 0
  Later w w' = (k namespace name : String) → Has k namespace name w → Has k namespace name w'

  pub settle-eq-ok :
      {S : Type 0} (kind key context : String) (results : Results) (p : W × Answer S) {w' : W}
      {out : Results × Object S}
      → settle c kind key context none_ignored results p ≡ (w', ok out)
      → (op : OperationResult) × (o : Object S) × (p ≡ (w', answer op o none))
  unfolding settle
  settle-eq-ok kind key context results (w, answer op o none) h =
      (op, o, ap (λ q. (q.0, answer op o none)) h)
  settle-eq-ok kind key context results (w, answer op o (some e)) h = absurd (cc (ap (λ q. q.1) h))
  settle-eq-ok kind key context results (w, panicked v) h = absurd (cc (ap (λ q. q.1) h))

  module _ (k : Keeps c Has) where
    pub submit-Later :
        {S : Type 0} (kind context : String) (ignored : GoError → Bool) (object : Object S)
        (mutate : Object S → Result (Object S)) (results : Results) (w : W) {w' : W}
        {out : Result (Results × Object S)}
        → submit c kind context ignored object mutate results w ≡ (w', out)
        → Later w w'
    unfolding submit
    submit-Later kind context ignored object mutate results w h kind' namespace name has =
        subst (Has kind' namespace name)
          (sym (settle-world c kind _ context ignored results _) ∙ ap (λ q. q.0) h)
          (k.keeps kind object mutate w kind' namespace name has)

    submit-Has :
        {S : Type 0} (kind context : String) (object : Object S)
        (mutate : Object S → Result (Object S)) (results : Results) (w : W) {w' : W}
        {out : Results × Object S}
        → submit c kind context none_ignored object mutate results w ≡ (w', ok out)
        → Has kind object.head.namespace object.head.name w'
    unfolding submit
    submit-Has kind context object mutate results w h =
        let (op, o, e) = settle-eq-ok kind _ context results _ h in k.creates kind object mutate w e

    -- One call and the calls behind it.
    pub submit_step :
        {S : Type 0} (kind context : String) (object : Object S)
        (mutate : Object S → Result (Object S)) (results : Results)
        (f : Results × Object S → Run W Results) (w : W) {w' : W} {out : Results}
        → (submit c kind context none_ignored object mutate results >>= f) w ≡ (w', ok out)
        → (w₁ : W) × (d : Results × Object S) × Later w w₁
          × Has kind object.head.namespace object.head.name w₁
          × (f d w₁ ≡ (w', ok out))
    submit_step kind context object mutate results f w h =
        let (w₁, d, e, h₁) =
          bind-eq-ok (submit c kind context none_ignored object mutate results) f w h in
        (
          w₁,
          d,
          submit-Later kind context none_ignored object mutate results w e,
          submit-Has kind context object mutate results w e,
          h₁,
        )

    module _ (r : Reconciler URL) (env : Env URL) (atom : Atom URL) where
      -- The middleware of one group is there.
      abbrev pub HasMiddleware : W → String × Group → Type 0
      HasMiddleware w (prefix, group) =
          (i : ℕ)
          → group.index ≡ some i
          → Has "Middleware" atom.meta.namespace (download_link_name atom i) w

      pub submit_groups-Has :
          (gs : List (String × Group)) (results : Results) (w : W) {w' : W} {out : Results}
          → submit_groups c r env atom results gs w ≡ (w', ok out)
          → Later w w' × All (HasMiddleware w') gs
      unfolding submit_groups get_bare_download_link_middleware
      submit_groups-Has [] results w h = (λ k n m has. subst (Has k n m) (ap (λ q. q.0) h) has, tt)
      submit_groups-Has ((prefix, group) ∷ gs) results w h =
          let (i, index, h₁) = pure-eq-ok (deref group.index) w _ h in
          let one = get_bare_download_link_middleware atom i in
          let mutate = mutate_download_link_middleware r atom prefix group.files in
          let (w₁, done, e, h₂) =
            bind-eq-ok (submit c "Middleware" unable none_ignored one mutate results) _ w h₁ in
          let (later, all) = submit_groups-Has gs done.0 w₁ h₂ in
          let here = submit-Has "Middleware" unable one mutate results w e in
          (
            λ kind namespace name has. later kind namespace name (
                submit-Later "Middleware" unable none_ignored one mutate results w e kind namespace
                  name has),
            (
              λ j there. later "Middleware" atom.meta.namespace (download_link_name atom j) (
                  subst (λ n. Has "Middleware" atom.meta.namespace (download_link_name atom n) w₁)
                    (ok_injective (sym index ∙ ap deref there)) here),
              all,
            ),
          )
