-- ===== src/Cmd/Flags.antt =====
-- The flags of cmd/main.go, the variables that they are parsed into, and the test that the required
-- ones have a value.
use atom_operator.Prelude.{String, Bool, true, false, List, [], ◌∷◌, str_eq, if◌then◌else◌}
use atom_operator.Prelude.Int.{ℤ, pos}
use atom_operator.Prelude.Result.{errorf, wrapf, Result, ok, err}
use atom_operator.Text.{◌+s◌}

pub record Flags : Type 0 where
  pub metrics_addr : String
  pub probe_addr : String
  pub enable_leader_election : Bool
  pub secure_metrics : Bool
  pub cert_dir : String
  pub enable_http2 : Bool
  pub base_url : String
  pub blob_endpoint : String
  pub atom_generator_image : String
  pub lighttpd_image : String
  pub slack_webhook_url : String
  pub log_level : ℤ
  pub csp : String

-- The variables once the flags are bound to them.
abbrev pub default_flags : Flags
default_flags = record {
  metrics_addr = ":8080";
  probe_addr = ":8081";
  enable_leader_election = false;
  secure_metrics = true;
  cert_dir = "";
  enable_http2 = false;
  base_url = "";
  blob_endpoint = "";
  atom_generator_image = "";
  lighttpd_image = "";
  slack_webhook_url = "";
  log_level = pos 0;
  csp = "";
}

abbrev pub req_flags : Flags → List (String × String)
req_flags flags =
    ("baseurl", flags.base_url)
    ∷ ("blobEndpoint", flags.blob_endpoint)
    ∷ ("atom-generator-image", flags.atom_generator_image)
    ∷ ("lighttpd-image", flags.lighttpd_image)
    ∷ []

-- The loop over the required flags: the first one with no value ends the program.
unfoldable pub check_required : List (String × String) → Result (Unit {0})
check_required [] = ok tt
check_required ((req_flag, val) ∷ flags) =
    let rest = check_required flags in
    if str_eq val ""
    then err (
        wrapf ("A value for " +s req_flag +s " must be specified.")
          (errorf (req_flag +s " is a required flag")))
    else rest
