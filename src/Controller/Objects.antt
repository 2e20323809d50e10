-- ===== src/Controller/Objects.antt =====
-- The Kubernetes objects that the controller makes, as far as it sets their fields, and what it
-- calls of other modules.
use atom_operator.Prelude.{ℕ, String, Bool, Option, none, List, []}
use atom_operator.Prelude.Result.{Result}
use atom_operator.Api.Model.{UrlOps, StringMap, ObjectMeta}
use atom_operator.Generator.Feeds.{Feeds}

-- The metadata of an object: its kind (empty until it is set), its name, and its controller.
pub record Head : Type 0 where
  pub gvk : String
  pub name : String
  pub namespace : String
  pub uid : String
  pub labels : StringMap
  pub annotations : StringMap
  pub controller : Option String

pub record Object (S : Type 0) : Type 0 where
  pub head : Head
  pub spec : S

-- `metav1.ObjectMeta{Name: name, Namespace: namespace}` in an object of zero values.
abbrev pub bare : String → String → Head
bare name namespace = record {
  gvk = "";
  name = name;
  namespace = namespace;
  uid = "";
  labels = [];
  annotations = [];
  controller = none;
}

pub record StripPrefix : Type 0 where
  pub prefixes : List String

pub record Headers : Type 0 where
  pub content_security_policy : String
  pub frame_deny : Bool
  pub custom_response_headers : StringMap

pub record ReplacePathRegex : Type 0 where
  pub regex : String
  pub replacement : String

pub record MiddlewareSpec : Type 0 where
  pub strip_prefix : Option StripPrefix
  pub headers : Option Headers
  pub replace_path_regex : Option ReplacePathRegex

abbrev pub no_middleware : MiddlewareSpec
no_middleware = record { strip_prefix = none; headers = none; replace_path_regex = none }

-- `intstr.IntOrString`
pub data IntOrString : Type 0 where
  int : ℕ → IntOrString
  str : String → IntOrString

pub record LoadBalancer : Type 0 where
  pub name : String
  pub kind : String
  pub port : IntOrString
  pub pass_host_header : Option Bool

-- A route; a middleware reference holds a name alone.
pub record Route : Type 0 where
  pub kind : String
  pub match_rule : String
  pub services : List LoadBalancer
  pub middlewares : List String

pub record IngressRouteSpec : Type 0 where
  pub routes : List Route

pub record ConfigMapSpec : Type 0 where
  pub contents : StringMap
  pub immutable : Option Bool

pub record ServicePort : Type 0 where
  pub name : String
  pub port : ℕ
  pub protocol : String

pub record ServiceSpec : Type 0 where
  pub ports : List ServicePort
  pub selector : StringMap

pub record PodDisruptionBudgetSpec : Type 0 where
  pub max_unavailable : Option IntOrString
  pub selector : StringMap

-- A volume: of a config map, by its name, or an empty directory.
pub record Volume : Type 0 where
  pub name : String
  pub config_map : Option String

pub record VolumeMount : Type 0 where
  pub name : String
  pub mount_path : String

-- `Probe` with an HTTP GET.
pub record Probe : Type 0 where
  pub path : String
  pub port : IntOrString
  pub scheme : String
  pub initial_delay_seconds : ℕ
  pub timeout_seconds : ℕ
  pub period_seconds : ℕ

-- The resources stand as the texts that `resource.MustParse` reads.
pub record Container : Type 0 where
  pub name : String
  pub image : String
  pub image_pull_policy : String
  pub command : List String
  pub args : List String
  pub ports : List ℕ
  pub liveness_probe : Option Probe
  pub readiness_probe : Option Probe
  pub limits : StringMap
  pub requests : StringMap
  pub volume_mounts : List VolumeMount

pub record PodTemplate : Type 0 where
  pub labels : StringMap
  pub annotations : StringMap
  pub volumes : List Volume
  pub init_containers : List Container
  pub containers : List Container

-- The rolling update's two bounds stand in the specification itself.
pub record DeploymentSpec : Type 0 where
  pub selector : StringMap
  pub min_ready_seconds : ℕ
  pub strategy : String
  pub max_unavailable : Option IntOrString
  pub max_surge : Option IntOrString
  pub revision_history_limit : Option ℕ
  pub replicas : Option ℕ
  pub template : PodTemplate

-- The reconciler's fields, and what its methods call of other modules: `CombineLabels`,
-- `EnsureSetGVK` by kind, `AddHashSuffix` and `GetUptimeAnnotations` of smooth-operator,
-- `SetControllerReference` of controller-runtime, and the YAML encoder.
pub record Reconciler (URL : Type 0) : Type 0 where
  pub atom_generator_image : String
  pub lighttpd_image : String
  pub csp : String
  pub urls : UrlOps URL
  pub combine_labels : List StringMap → StringMap
  pub get_uptime_annotations : StringMap → String → String → String → StringMap → StringMap
  pub ensure_set_gvk : String → Head → Result Head
  pub set_controller_reference : ObjectMeta → Head → Result Head
  pub add_hash_suffix : Object ConfigMapSpec → Result (Object ConfigMapSpec)
  pub marshal : Feeds → Result String
