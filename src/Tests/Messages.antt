-- ===== src/Tests/Messages.antt =====
-- What debug.c and main.c print at concrete inputs.
use multivpn.Globals.{zeroed}
use multivpn.Messages.{
  to_stdout, to_stderr, debug, debug_error, show_version, usage_msg, show_help, program_name,
  program_version,
}
use multivpn.Prelude.Int.{pos}
use multivpn.Prelude.{◌≡◌, ◌++◌, refl, [], ◌∷◌, codes}
use multivpn.Program.{version, help, exits, run_option}

debug_levels :
    (debug 3 (codes "hello") (record zeroed { debug = pos 3 }) ≡ [])
    × (debug 3 (codes "hello") (record zeroed { debug = pos 4 })
        ≡ to_stdout (codes "Debug INFO:  ")
          ∷ to_stdout (codes "hello")
          ∷ to_stdout (codes "\n")
          ∷ [])
unfolding debug
debug_levels = (refl, refl)

error_line :
    debug_error (codes "hello")
    ≡ to_stderr (codes "Error:  ") ∷ to_stderr (codes "hello") ∷ to_stderr (codes "\n") ∷ []
unfolding debug_error
error_line = refl

-- The options leave with the statuses of the functions that they call.
statuses :
    (run_option version zeroed ≡ exits show_version.status)
    × (run_option help zeroed ≡ exits show_help.status)
    × (show_help ≡ usage_msg (program_name ++ codes " " ++ program_version))
unfolding run_option show_version show_help usage_msg
statuses = (refl, refl, refl)
