-- ===== src/Tests/Start.antt =====
-- Starts of the manager: one that succeeds, and one whose readiness check is refused.
use mathlib.Core.List.Permᴰ
use atom_operator.Prelude.{String, ◌≡◌, refl, Option, none, some, List, [], ◌∷◌}
use atom_operator.Prelude.Result.{GoError, errorf, ok}
use atom_operator.Cmd.Flags.{Flags, default_flags, req_flags}
use atom_operator.Cmd.Process.{
  Call, get_config_or_die, new_manager, complete_controller, complete_webhook, add_healthz_check,
  add_readyz_check, start, Process, Platform,
}
use atom_operator.Cmd.Start.{main}
use atom_operator.Cmd.Start.Plan.{plan, Answered, calls_of}
use atom_operator.Cmd.Start.Laws.{HasValues, started, Called, main-eq-ok_iff, main-Called}

abbrev flags : Flags
flags =
    let f = default_flags in
    record f {
      base_url = "https://service.pdok.nl/";
      blob_endpoint = "http://localhost";
      atom_generator_image = "generator";
      lighttpd_image = "lighttpd";
    }

abbrev accepting : Platform
accepting = record {
  parse = λ defaults args. ok flags;
  getenv = λ name. "";
  answer = λ calls call. none;
}

abbrev refuse : Call → Option GoError
refuse (add_readyz_check name) = some (errorf name)
refuse get_config_or_die = none
refuse (new_manager options) = none
refuse (complete_controller builder) = none
refuse (complete_webhook kind) = none
refuse (add_healthz_check name) = none
refuse start = none

abbrev refusing : Platform
refusing = let p = accepting in record p { answer = λ calls call. refuse call }

abbrev fresh : Process
fresh = record { globals = record { base_url = ""; blob_endpoint = "" }; calls = [] }

values : HasValues (req_flags flags)
values = (λ e. cc, (λ e. cc, (λ e. cc, (λ e. cc, tt))))

answered : (made : List Call) (calls : List (String × Call)) → Answered accepting made calls
answered made [] = tt
answered made ((message, call) ∷ calls) = (refl, answered _ calls)

main_example :
    main accepting (λ flags. flags) [] fresh
    ≡ (started flags fresh (calls_of (plan accepting flags)), ok tt)
main_example =
    (main-eq-ok_iff accepting (λ flags. flags) (λ flags. Permᴰ.refl flags) [] fresh
        (started flags fresh (calls_of (plan accepting flags)))).1
      (flags, refl, values, answered [] (plan accepting flags), refl)

refused_example : Called refusing (ok flags) fresh (main refusing (λ flags. flags) [] fresh).0
refused_example = main-Called refusing (λ flags. flags) (λ flags. Permᴰ.refl flags) [] fresh
