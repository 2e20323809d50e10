-- ===== src/Controller/Deployment.antt =====
-- internal/controller/deployment.go.
use atom_operator.Prelude.{String, none, some, [], ◌∷◌}
use atom_operator.Prelude.Dict.{insert}
use atom_operator.Prelude.Result.{Result, ok, ◌>>=◌}
use atom_operator.Text.{◌+s◌}
use atom_operator.Api.Model.{StringMap}
use atom_operator.Api.V3.{Atom}
use atom_operator.Controller.Objects.{
  Object, bare, int, VolumeMount, Probe, Container, PodTemplate, DeploymentSpec, Reconciler,
}
use atom_operator.Controller.Labels.{
  app_name, atom_port_nr, config_file_name, srv_dir, get_label_selector, get_object_labels,
  set_owner,
}

abbrev empty_template : PodTemplate
empty_template = record {
  labels = [];
  annotations = [];
  volumes = [];
  init_containers = [];
  containers = [];
}

-- The keys and the values that the pods are annotated with.
unfoldable pub pod_template_annotations : StringMap → StringMap
unfolding insert
pod_template_annotations annotations = insert "priority.version-checker.io/atom-service" "8" (
    insert "kubectl.kubernetes.io/default-container" "atom-service"
      (insert "cluster-autoscaler.kubernetes.io/safe-to-evict" "true" annotations))

abbrev probe : Probe
probe = record {
  path = "/index.xml";
  port = int atom_port_nr;
  scheme = "HTTP";
  initial_delay_seconds = 5;
  timeout_seconds = 5;
  period_seconds = 10;
}

abbrev mount : String → String → VolumeMount
mount name mount_path = record { name = name; mount_path = mount_path }

abbrev pub generator_container : String → Container
generator_container image = record {
  name = "atom-generator";
  image = image;
  image_pull_policy = "IfNotPresent";
  command = "./atom" ∷ [];
  args = ("-f=" +s srv_dir +s "/config/" +s config_file_name) ∷ ("-o=" +s srv_dir +s "/data") ∷ [];
  ports = [];
  liveness_probe = none;
  readiness_probe = none;
  limits = [];
  requests = [];
  volume_mounts = mount "data" (srv_dir +s "/data") ∷ mount "config" (srv_dir +s "/config") ∷ [];
}

abbrev pub service_container : String → Container
service_container image = record {
  name = "atom-service";
  image = image;
  image_pull_policy = "IfNotPresent";
  command = [];
  args = [];
  ports = atom_port_nr ∷ [];
  liveness_probe = some probe;
  readiness_probe = some probe;
  limits = ("memory", "64M") ∷ [];
  requests = ("cpu", "0.01") ∷ [];
  volume_mounts = mount "socket" "/tmp" ∷ mount "data" "/var/www/" ∷ [];
}

unfoldable pub get_bare_deployment : {URL : Type 0} → Atom URL → Object DeploymentSpec
get_bare_deployment obj = record {
  head = bare (obj.meta.name +s "-" +s app_name) obj.meta.namespace;
  spec = record {
    selector = [];
    min_ready_seconds = 0;
    strategy = "";
    max_unavailable = none;
    max_surge = none;
    revision_history_limit = none;
    replicas = none;
    template = empty_template;
  };
}

module _ {URL : Type 0} (r : Reconciler URL) where
  -- What is made of `deployment.Spec`.
  unfoldable pub deployment_spec : Atom URL → String → DeploymentSpec → DeploymentSpec
  unfolding get_object_labels get_label_selector pod_template_annotations
  deployment_spec atom config_map_name old = record {
    selector = get_label_selector r atom;
    min_ready_seconds = 0;
    strategy = "RollingUpdate";
    max_unavailable = some (int 0);
    max_surge = some (int 4);
    revision_history_limit = some 1;
    replicas = some 2;
    template = record {
      labels = get_object_labels r atom old.template.labels;
      annotations = pod_template_annotations old.template.annotations;
      volumes =
          record { name = "data"; config_map = none }
          ∷ record { name = "socket"; config_map = none }
          ∷ record { name = "config"; config_map = some config_map_name }
          ∷ [];
      init_containers = generator_container r.atom_generator_image ∷ [];
      containers = service_container r.lighttpd_image ∷ [];
    };
  }

  unfoldable pub mutate_deployment :
      Atom URL → Object DeploymentSpec → String → Result (Object DeploymentSpec)
  unfolding get_object_labels set_owner deployment_spec
  mutate_deployment atom deployment config_map_name = do
    let head = deployment.head
    head ←
        set_owner r "Deployment" atom
          (record head { labels = get_object_labels r atom deployment.head.labels })
    ok (record { head = head; spec = deployment_spec atom config_map_name deployment.spec })
