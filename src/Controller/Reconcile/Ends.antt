-- ===== src/Controller/Reconcile/Ends.antt =====
-- How the calls of `createOrUpdateAllForAtom` end, where the mutate functions do and `CreateOrUpdate`
-- relays what they end in.
use mathlib.Core.List.{Permᴰ}
use atom_operator.Prelude.{
  ℕ, String, Bool, ◌≡◌, ap, inl, inr, Bool-cases, none, some, List, [], ◌∷◌, All,
}
use atom_operator.Prelude.Dict.{Dict}
use atom_operator.Prelude.Result.{GoError, wrapf, Result, deref, Returns}
use atom_operator.Api.Model.{ObjectMeta, OwnerInfo}
use atom_operator.Api.V3.{Atom, get_download_links, get_blob_prefix}
use atom_operator.Generator.Links.{Env}
use atom_operator.Generator.Mapper.{map_atom_v3_to_atom_generator_config}
use atom_operator.Controller.Objects.{Object, MiddlewareSpec, Reconciler}
use atom_operator.Controller.Resources.{
  get_bare_service, mutate_service, get_bare_pod_disruption_budget, mutate_pod_disruption_budget,
  get_bare_config_map, mutate_atom_generator_config_map,
}
use atom_operator.Controller.Deployment.{get_bare_deployment, mutate_deployment}
use atom_operator.Controller.Ingress.{get_bare_ingress_route, mutate_ingress_route}
use atom_operator.Controller.Middleware.{
  get_bare_strip_prefix_middleware, mutate_strip_prefix_middleware, get_bare_headers_middleware,
  mutate_headers_middleware, get_bare_download_link_middleware, mutate_download_link_middleware,
}
use atom_operator.Controller.Run.{Run, ◌>>=◌}
use atom_operator.Controller.Cluster.{Answer, answer, panicked, Cluster}
use atom_operator.Controller.Groups.{Group, get_download_link_groups}
use atom_operator.Controller.Groups.Laws.{groups_lem, groups-Returns_iff}
use atom_operator.Controller.Ingress.Order.{All-perm}
use atom_operator.Controller.Ends.{
  Ends, AnswerEnds, Ends-Returns, Ends-after, FitFor, Fits, CallsEnd, Serves,
}
use atom_operator.Controller.Ends.Mutate.{
  strip_prefix-Ends, headers-Ends, download_link-Ends, service-Ends, budget-Ends, deployment-Ends,
  ingress_route-Ends, config_map-Ends, config_map-Fits,
}
use atom_operator.Controller.Reconcile.{
  Results, none_ignored, unable, could_not, is_conflict, settle, submit, submit_groups,
  submit_routes, create_or_update_all_for_atom,
}
use atom_operator.Controller.Reconcile.Routes.{Numbered-All}

module _ {URL W : Type 0} (c : Cluster URL W) (E : GoError → Type 0) (Fit : FitFor)
    (bare : (owner : ObjectMeta) → Fit owner owner.namespace none)
    (closed : (text : String) (e : GoError) → E e → E (wrapf text e)) where
  settle-Ends :
      {S : Type 0} (kind key context : String) (ignored : GoError → Bool) (results : Results)
      (p : W × Answer S)
      → AnswerEnds E p.1
      → Ends E (settle c kind key context ignored results p).1
  unfolding settle
  settle-Ends kind key context ignored results (w, answer op o none) h = tt
  settle-Ends kind key context ignored results (w, answer op o (some e)) h =
      elim (Bool-cases (ignored e)) [ inl i ↦ rw i tt | inr i ↦ rw i (closed _ e h) ]
  settle-Ends kind key context ignored results (w, panicked v) h = h

  module _ (k : Serves E Fit c) (owner : ObjectMeta) where
    call-Ends :
        {S : Type 0} (kind key context : String) (ignored : GoError → Bool) (object : Object S)
        (mutate : Object S → Result (Object S)) (results : Results) (w : W)
        → Fits E Fit owner object.head
        → ((o : Object S) → Fits E Fit owner o.head → Ends E (mutate o))
        → Ends E
            (settle c kind key context ignored results (c.create_or_update kind object mutate w)).1
    call-Ends kind key context ignored object mutate results w fits h =
        settle-Ends kind key context ignored results _ (k.serves kind object mutate w owner fits h)

    -- One call and the calls behind it.
    submit_step-Ends :
        {S B : Type 0} (kind context : String) (ignored : GoError → Bool) (object : Object S)
        (mutate : Object S → Result (Object S)) (results : Results)
        (f : Results × Object S → Run W B) (w : W)
        → Fits E Fit owner object.head
        → ((o : Object S) → Fits E Fit owner o.head → Ends E (mutate o))
        → ((w' : W) (done : Results × Object S) → Ends E (f done w').1)
        → Ends E ((submit c kind context ignored object mutate results >>= f) w).1
    unfolding submit
    submit_step-Ends kind context ignored object mutate results f w fits h next =
        Ends-after E (submit c kind context ignored object mutate results w) f
          (call-Ends kind _ context ignored object mutate results w fits h)
          (λ w' done _. next w' done)

  module _ (k : Serves E Fit c) (r : Reconciler URL) (calls : CallsEnd E Fit r) (env : Env URL)
      (atom : Atom URL) where
    groups-Ends :
        (gs : List (String × Group)) (results : Results) (w : W)
        → All (λ (p : String × Group). (i : ℕ) × (p.1.index ≡ some i)) gs
        → Ends E (submit_groups c r env atom results gs w).1
    unfolding submit_groups get_bare_download_link_middleware
    groups-Ends [] results w h = tt
    groups-Ends ((prefix, group) ∷ gs) results w ((i, e), h) =
        Ends-after E (w, deref group.index) _ (Ends-Returns E _ (i, ap deref e))
          λ w₁ index _.
            submit_step-Ends k atom.meta "Middleware" unable none_ignored
              (get_bare_download_link_middleware atom index)
              (mutate_download_link_middleware r atom prefix group.files) results _ w₁
              (bare atom.meta) (download_link-Ends E Fit closed r calls atom prefix group.files)
              (λ w₂ done. groups-Ends gs done.0 w₂ h)

    module _ (order order_of_routes : Dict Group → List (String × Group))
        (any : (m : Dict Group) → Permᴰ m (order m))
        (any' : (m : Dict Group) → Permᴰ m (order_of_routes m))
        (links : All (λ l. Returns (get_blob_prefix l)) (get_download_links atom)) where
      routes-Ends :
          (results : Results) (w : W)
          → Ends E (submit_routes c r env order order_of_routes atom results w).1
      unfolding submit_routes get_bare_ingress_route get_bare_pod_disruption_budget
      routes-Ends results w =
          Ends-after E (w, get_download_link_groups (get_download_links atom)) _
            (Ends-Returns E _ ((groups-Returns_iff _).1 links))
            λ w₁ m grouped.
              Ends-after E (submit_groups c r env atom results (order m) w₁) _
                (groups-Ends (order m) results w₁
                  (All-perm _ (any m) (Numbered-All 0 m (groups_lem _ (ap (λ q. q.1) grouped)).0)))
                λ w₂ done _.
                  submit_step-Ends k atom.meta "IngressRoute" unable none_ignored
                    (get_bare_ingress_route atom) (mutate_ingress_route r order_of_routes atom) done
                    _ w₂ (bare atom.meta)
                    (ingress_route-Ends E Fit closed r calls atom order_of_routes any' links)
                    λ w₃ route.
                      submit_step-Ends k atom.meta "PodDisruptionBudget" unable none_ignored
                        (get_bare_pod_disruption_budget atom) (mutate_pod_disruption_budget r atom)
                        route.0 _ w₃ (bare atom.meta) (budget-Ends E Fit closed r calls atom)
                        (λ w₄ budget. tt)

      middlewares-Ends :
          (results : Results) (f : Results × Object MiddlewareSpec → Run W Results) (w : W)
          → ((w' : W) (done : Results × Object MiddlewareSpec) → Ends E (f done w').1)
          → Ends E
              ((submit c "Middleware" could_not none_ignored
                    (get_bare_strip_prefix_middleware atom)
                    (mutate_strip_prefix_middleware r atom)
                    results
                  >>= λ strip.
                      submit c "Middleware" could_not none_ignored
                        (get_bare_headers_middleware atom)
                        (λ m. mutate_headers_middleware r atom m r.csp)
                        strip.0
                      >>= f)
                w).1
      unfolding get_bare_strip_prefix_middleware get_bare_headers_middleware
      middlewares-Ends results f w next =
          submit_step-Ends k atom.meta "Middleware" could_not none_ignored
            (get_bare_strip_prefix_middleware atom) (mutate_strip_prefix_middleware r atom) results
            _ w (bare atom.meta) (strip_prefix-Ends E Fit closed r calls atom)
            λ w₁ strip.
              submit_step-Ends k atom.meta "Middleware" could_not none_ignored
                (get_bare_headers_middleware atom) (λ m. mutate_headers_middleware r atom m r.csp)
                strip.0 f w₁ (bare atom.meta) (λ m. headers-Ends E Fit closed r calls atom m r.csp)
                next

      pub create-Ends :
          (o : OwnerInfo URL) (w : W)
          → Returns (map_atom_v3_to_atom_generator_config env atom o)
          → Ends E (create_or_update_all_for_atom c r env order order_of_routes atom o w).1
      unfolding create_or_update_all_for_atom get_bare_config_map get_bare_deployment
          get_bare_service
      create-Ends o w mapped =
          let mutate = mutate_atom_generator_config_map r env atom o in
          let mutate_ends = config_map-Ends E Fit closed r calls atom env o mapped in
          Ends-after E (w, mutate (get_bare_config_map atom)) _
            (mutate_ends (get_bare_config_map atom) (bare atom.meta))
            λ w₁ cm made.
              Ends-after E
                (settle c "ConfigMap" (c.get_atom_full_name atom) unable none_ignored []
                  (c.create_or_update "ConfigMap" cm mutate w₁))
                _
                (call-Ends k atom.meta "ConfigMap" (c.get_atom_full_name atom) unable none_ignored
                  cm mutate [] w₁
                  (config_map-Fits E Fit closed r calls atom env o mapped (get_bare_config_map atom)
                    (ap (λ q. q.1) made) (bare atom.meta))
                  mutate_ends)
                λ w₂ d₁ _.
                  submit_step-Ends k atom.meta "Deployment" unable is_conflict
                    (get_bare_deployment atom) (λ d. mutate_deployment r atom d d₁.1.head.name) d₁.0
                    _ w₂ (bare atom.meta)
                    (λ d. deployment-Ends E Fit closed r calls atom d d₁.1.head.name)
                    λ w₃ d₂.
                      submit_step-Ends k atom.meta "Service" unable none_ignored
                        (get_bare_service atom) (mutate_service r atom) d₂.0 _ w₃ (bare atom.meta)
                        (service-Ends E Fit closed r calls atom)
                        λ w₄ d₃. middlewares-Ends d₃.0 _ w₄ (λ w₅ d₄. routes-Ends d₄.0 w₅)
