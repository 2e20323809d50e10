-- ===== src/Cmd/Process.antt =====
-- The state of the program at its start: the package variables of api/v3, and the calls of
-- controller-runtime that it made, each of which may be refused.
use atom_operator.Prelude.{String, Bool, Option, none, some, List, [], ◌∷◌, ◌++◌}
use atom_operator.Prelude.Result.{GoError, wrapf, Result, ok, err}
use atom_operator.Api.V3.{Globals}
use atom_operator.Controller.Run.{Run}
use atom_operator.Controller.Setup.{Builder}
use atom_operator.Cmd.Flags.{Flags}

-- `tls.Config`, with the field that is set.
pub record TlsConfig : Type 0 where
  pub next_protos : List String

-- `webhook.Options`
pub record ServerOptions : Type 0 where
  pub cert_dir : String
  pub tls_opts : List (TlsConfig → TlsConfig)

-- `metricsserver.Options`
pub record MetricsOptions : Type 0 where
  pub bind_address : String
  pub secure_serving : Bool
  pub tls_opts : List (TlsConfig → TlsConfig)

-- `ctrl.Options`; the webhook server stands as its options.
pub record ManagerOptions : Type 0 where
  pub metrics : MetricsOptions
  pub webhook_server : ServerOptions
  pub health_probe_bind_address : String
  pub leader_election : Bool
  pub leader_election_id : String

-- The calls that end in an error or in none. `get_config_or_die` ends the program by itself.
pub data Call : Type 0 where
  get_config_or_die : Call
  new_manager : ManagerOptions → Call
  complete_controller : Builder → Call
  complete_webhook : String → Call
  add_healthz_check : String → Call
  add_readyz_check : String → Call
  start : Call

pub record Process : Type 0 where
  pub globals : Globals
  pub calls : List Call

-- `ff.Parse` of the arguments over the defaults, the environment, and how a call is answered after
-- the calls before it.
pub record Platform : Type 0 where
  pub parse : Flags → List String → Result Flags
  pub getenv : String → String
  pub answer : List Call → Call → Option GoError

-- `setupLog.Error(err, message); os.Exit(1)`
unfoldable pub or_exit : String → Option GoError → Result (Unit {0})
or_exit message none = ok tt
or_exit message (some e) = err (wrapf message e)

unfoldable pub perform : Platform → String → Call → Run Process (Unit {0})
unfolding or_exit
perform platform message call p =
    (record p { calls = p.calls ++ call ∷ [] }, or_exit message (platform.answer p.calls call))
