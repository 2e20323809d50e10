-- ===== src/Cmd/Start.antt =====
-- `main` of cmd/main.go, and `SetupAtomWebhookWithManager`. Its `os.Exit(1)` is an error with the
-- message that is logged. The logger, `slackWebhookURL` and `logLevel` are left out.
pub mod Plan
pub mod Laws
use atom_operator.Prelude.{String, Bool, true, false, not, List, [], ◌∷◌, str_eq, if◌then◌else◌}
use atom_operator.Prelude.Result.{wrapf, Result, ok, err, panic}
use atom_operator.Api.V3.{set_base_url, set_blob_endpoint}
use atom_operator.Controller.Run.{Run, after, pure, ◌>>=◌, ◌>>◌}
use atom_operator.Controller.Setup.{setup_with_manager}
use atom_operator.Cmd.Flags.{Flags, default_flags, req_flags, check_required}
use atom_operator.Cmd.Process.{
  TlsConfig, ManagerOptions, Call, get_config_or_die, new_manager, complete_controller,
  complete_webhook, add_healthz_check, add_readyz_check, start, Process, Platform, perform,
}

unfoldable pub disable_http2 : TlsConfig → TlsConfig
disable_http2 c = record c { next_protos = "http/1.1" ∷ [] }

unfoldable pub tls_opts : Flags → List (TlsConfig → TlsConfig)
tls_opts flags = if not flags.enable_http2 then disable_http2 ∷ [] else []

unfoldable pub manager_options : Flags → ManagerOptions
unfolding tls_opts
manager_options flags = record {
  metrics = record {
    bind_address = flags.metrics_addr;
    secure_serving = flags.secure_metrics;
    tls_opts = tls_opts flags;
  };
  webhook_server = record { cert_dir = flags.cert_dir; tls_opts = tls_opts flags };
  health_probe_bind_address = flags.probe_addr;
  leader_election = flags.enable_leader_election;
  leader_election_id = "29e70f77.pdok.nl";
}

abbrev pub reconciler_setup : Flags → Call
reconciler_setup flags = complete_controller (
    setup_with_manager (record {
      atom_generator_image = flags.atom_generator_image;
      lighttpd_image = flags.lighttpd_image;
      csp = flags.csp;
    }))

-- `SetupAtomWebhookWithManager`: a validator for the kind.
abbrev pub setup_atom_webhook_with_manager : Call
setup_atom_webhook_with_manager = complete_webhook "Atom"

unfoldable pub webhooks_enabled : Platform → Bool
webhooks_enabled platform = not (str_eq (platform.getenv "ENABLE_WEBHOOKS") "false")

unfoldable pub parsed : Result Flags → Result Flags
parsed (ok flags) = ok flags
parsed (err e) = err (wrapf "unable to parse flags" e)
parsed (panic v) = panic v

-- `SetBaseURL` and `SetBlobEndpoint`
unfoldable pub set_globals : Flags → Process → Process
unfolding set_base_url set_blob_endpoint
set_globals flags p = record p {
  globals = set_blob_endpoint flags.blob_endpoint (set_base_url flags.base_url p.globals);
}

module _ (platform : Platform) where
  setup_webhook : Bool → Run Process (Unit {0})
  setup_webhook true = perform platform "unable to create webhook" setup_atom_webhook_with_manager
  setup_webhook false = pure (ok tt)

  -- From the making of the manager on.
  unfoldable pub run_manager : Flags → Run Process (Unit {0})
  unfolding manager_options perform setup_webhook webhooks_enabled
  run_manager flags = do
    perform platform "unable to get kubeconfig" get_config_or_die
    perform platform "unable to start manager" (new_manager (manager_options flags))
    perform platform "unable to create controller" (reconciler_setup flags)
    setup_webhook (webhooks_enabled platform)
    perform platform "unable to set up health check" (add_healthz_check "healthz")
    perform platform "unable to set up ready check" (add_readyz_check "readyz")
    perform platform "problem running manager" start
    pure (ok tt)

  -- `order` is the order in which `range` goes through the required flags.
  unfoldable pub main_with :
      (List (String × String) → List (String × String)) → Result Flags → Run Process (Unit {0})
  unfolding parsed check_required set_globals run_manager
  main_with order result p =
      after (p, parsed result)
        λ flags. pure (check_required (order (req_flags flags))) >>= λ required q.
          run_manager flags (set_globals flags q)

  unfoldable pub main :
      (List (String × String) → List (String × String)) → List String → Run Process (Unit {0})
  unfolding main_with
  main order args = main_with order (platform.parse default_flags args)
