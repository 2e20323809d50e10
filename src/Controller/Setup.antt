-- ===== src/Controller/Setup.antt =====
-- `AtomReconciler` and `SetupWithManager` of internal/controller/atom_controller.go: what the
-- controller is told to watch. A kind of object is its name.
use atom_operator.Prelude.{String, List, [], ◌∷◌}

-- The fields that are not made by the manager.
pub record AtomReconciler : Type 0 where
  pub atom_generator_image : String
  pub lighttpd_image : String
  pub csp : String

pub data Predicate : Type 0 where
  generation_changed_predicate : Predicate

pub record Owned : Type 0 where
  pub kind : String
  pub predicates : List Predicate

-- A watched kind, and the kind whose objects its events are for.
pub record Watched : Type 0 where
  pub kind : String
  pub handled_for : String

-- The builder of controller-runtime, as `SetupWithManager` completes it.
pub record Builder : Type 0 where
  pub for_kind : String
  pub owns : List Owned
  pub watches : List Watched
  pub reconciler : AtomReconciler

owned : String → Owned
owned kind = record { kind = kind; predicates = generation_changed_predicate ∷ [] }

unfoldable pub setup_with_manager : AtomReconciler → Builder
unfolding owned
setup_with_manager r = record {
  for_kind = "Atom";
  owns =
      owned "ConfigMap"
      ∷ owned "Deployment"
      ∷ owned "Service"
      ∷ owned "Middleware"
      ∷ owned "IngressRoute"
      ∷ owned "PodDisruptionBudget"
      ∷ owned "OwnerInfo"
      ∷ [];
  watches = record { kind = "ReplicaSet"; handled_for = "Atom" } ∷ [];
  reconciler = r;
}
