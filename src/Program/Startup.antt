-- ===== src/Program/Startup.antt =====
-- How main.c starts: the options, and what it does with a configuration that is refused.
use multivpn.CString.{strncmp_eq, strncpy}
use multivpn.Globals.{GlobalV, globals_init, zeroed}
use multivpn.Machine.{Machine, ◌>>=◌}
use multivpn.Os.{Os}
use multivpn.Plugin.{plugin_check_config}
use multivpn.Prelude.Int.{ℤ, pos, minus_one}
use multivpn.Prelude.{
  ℕ, ◌≡◌, refl, ◌∙◌, true, false, List, [], ◌∷◌, codes, ok, arith, All, ◌⊎◌, inl, inr,
}
use multivpn.Program.{
  Opt, configfile, Started, exits, goes_on, run_option, run_options, command_line, left, run_plugin,
  program, Files,
}
use multivpn.TcpPlugin.{Loop}

-- An option other than `-c`.
abbrev pub NoFile : Opt → Type 0
NoFile (configfile optarg) = ⊥
NoFile _ = Unit

run_option-configfile :
    (o : Opt) (g g' : GlobalV)
    → NoFile o
    → run_option o g ≡ goes_on g'
    → g'.configfile ≡ g.configfile
unfolding run_option
run_option-configfile (configfile optarg) g g' h e = absurd h
run_option-configfile _ g g' h e = ground arith

pub Started-cases :
    (m : Started) → ((status : ℤ) × (m ≡ exits status)) ⊎ ((g : GlobalV) × (m ≡ goes_on g))
Started-cases (exits status) = inl (status, refl)
Started-cases (goes_on g) = inr (g, refl)

run_options-configfile :
    (opts : List Opt) (g g' : GlobalV)
    → All NoFile opts
    → run_options opts g ≡ goes_on g'
    → g'.configfile ≡ g.configfile
unfolding run_options
run_options-configfile [] g g' h e = ground arith
run_options-configfile (o ∷ opts) g g' h e = elim (Started-cases (run_option o g)) [
  | inl (status, f) ↦ absurd (ground arith)
  | inr (g₁, f) ↦
      run_options-configfile opts g₁ g' h.1 (ground arith) ∙ run_option-configfile o g g₁ h.0 f
]

none_field : strncmp_eq (globals_init zeroed).configfile (codes "none") 4 ≡ true
unfolding strncmp_eq globals_init zeroed strncpy
none_field = refl

command_line-needs-file :
    (opts : List Opt) → All NoFile opts → (status : ℤ) × (command_line opts zeroed ≡ exits status)
unfolding command_line
command_line-needs-file opts h = elim (Started-cases (run_options opts (globals_init zeroed))) [
  | inl (status, f) ↦ (status, rw (f, command_line))
  | inr (g', f) ↦
      let kept = run_options-configfile opts (globals_init zeroed) g' h f in
      let still : strncmp_eq g'.configfile (codes "none") 4 ≡ true = rw kept none_field in
      (pos 1, rw (f, command_line, still))
]

-- Without `-c` among its options the program leaves with a status, having read no file and called
-- nothing of the system, whatever the other options are.
pub program_needs_file :
    (files : Files) (opts : List Opt) (n : ℕ) (l : Loop) (os : Os) (s : Machine)
    → s.globals ≡ zeroed
    → All NoFile opts
    → (status : ℤ) × (program files opts n l os s ≡ ok (left status, s))
unfolding program
program_needs_file files opts n l os s z h =
    let (status, e) = command_line-needs-file opts h in
    let ends : command_line opts s.globals ≡ exits status = rw z e in
    (status, rw (ends, program, ◌>>=◌))

plugin_check_config_unknown :
    (os : Os) (s : Machine)
    → strncmp_eq s.globals.plugin_name (codes "tcp") 3 ≡ false
    → strncmp_eq s.globals.plugin_name (codes "sip") 3 ≡ false
    → plugin_check_config os s ≡ ok (minus_one, s)
unfolding plugin_check_config
plugin_check_config_unknown os s t p = rw (t, plugin_check_config, p)

-- A configuration that names neither plugin ends the program with status -1: no system call is
-- made, no pointer is set, and no plugin is built or started.
pub run_plugin_unknown :
    (n : ℕ) (l : Loop) (os : Os) (s : Machine)
    → strncmp_eq s.globals.plugin_name (codes "tcp") 3 ≡ false
    → strncmp_eq s.globals.plugin_name (codes "sip") 3 ≡ false
    → run_plugin n l os s ≡ ok (left minus_one, s)
unfolding run_plugin
run_plugin_unknown n l os s t p = rw (plugin_check_config_unknown os s t p, ◌>>=◌)
