-- ===== src/Tests/Whole.antt =====
-- The whole program at concrete options and files.
use multivpn.CString.{c_str, strncpy, strncmp_eq}
use multivpn.Globals.{GlobalV, globals_init, zeroed}
use multivpn.Machine.{Machine}
use multivpn.Parser.RoundTrip.{render, configure}
use multivpn.Prelude.Int.{pos}
use multivpn.Prelude.{◌≡◌, refl, List, [], ◌∷◌, none, some, codes, ok, if◌then◌else◌}
use multivpn.Program.Phases.{Phased}
use multivpn.Program.Whole.{Ran, program-Ran, program-render}
use multivpn.Program.{
  Files, Opt, verbose, configfile, goes_on, run_option, run_options, command_line, is_bad_argument,
  Outcome, run_plugin, program,
}
use multivpn.Tests.Draining.{fresh_loop}
use multivpn.Tests.Phases.{calm-IsUnix}
use multivpn.Tests.Samples.{client, client-Fits}
use multivpn.Tests.Setup.{calm, idle}

abbrev pub opts : List Opt
opts = verbose ∷ configfile (some (codes "vpn.conf")) ∷ []

-- One file is there.
abbrev pub files : Files
files name = if strncmp_eq name (codes "vpn.conf") 9 then some (render client) else none

abbrev pub chosen : GlobalV
chosen = record (globals_init zeroed) {
  verbose = pos 1;
  configfile = strncpy (globals_init zeroed).configfile (codes "vpn.conf") 200;
}

pub opts-chosen : command_line opts idle.globals ≡ goes_on chosen
unfolding command_line run_options run_option is_bad_argument idle globals_init zeroed strncpy
    strncmp_eq
opts-chosen = refl

pub files-client : files (c_str chosen.configfile) ≡ some (render client)
unfolding globals_init zeroed strncpy strncmp_eq c_str
files-client = refl

program-render_example :
    (o : Outcome) × (s' : Machine) × (program files opts 2 fresh_loop calm idle
      ≡ run_plugin 2 fresh_loop calm (record idle { globals = (configure client chosen).1 }))
    × (program files opts 2 fresh_loop calm idle ≡ ok (o, s'))
    × Phased (record idle { globals = (configure client chosen).1 }) s' o
unfolding idle
program-render_example =
    program-render files opts 2 fresh_loop calm idle chosen client opts-chosen files-client
      client-Fits refl calm-IsUnix

program-Ran_example : Ran files opts 2 fresh_loop calm idle
unfolding idle
program-Ran_example = program-Ran files opts 2 fresh_loop calm idle refl refl calm-IsUnix
