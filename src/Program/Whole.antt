-- ===== src/Program/Whole.antt =====
-- The whole of main.c, from the command line to the main loop.
use multivpn.CString.{c_str, strncpy, strncmp_eq, atoi}
use mathlib.Core.Path.{subst}
use multivpn.CString.Laws.{IsText}
use multivpn.GenericTunnel.{no_connections}
use multivpn.Globals.{GlobalV, globals_init, zeroed}
use multivpn.Machine.{Machine, ◌>>=◌}
use multivpn.Os.{Os}
use multivpn.Parser.File.{parse_config_file-Kept}
use multivpn.Parser.Invariant.{AllText, returns, faults}
use multivpn.Parser.RoundTrip.{Setting, render, configure, Fits, parse_config_file-render}
use multivpn.Parser.{parse_config_file}
use multivpn.Prelude.Int.{ℤ, pos, is_true}
use multivpn.Prelude.{
  ℕ, ◌≡◌, ◌∙◌, refl, ap, sym, List, [], ◌∷◌, some, Bytes, codes, All, ok, fault, Fault, inl, inr,
  Bool-cases,
}
use multivpn.Program.Startup.{Started-cases}
use multivpn.Program.Phases.{Phased}
use multivpn.Program.Returns.{run_plugin-Phased}
use multivpn.Program.{
  Files, Opt, version, verbose, help, unknown, debug_level, configfile, text_of, Started, exits,
  goes_on, is_bad_argument, run_option, run_options, command_line, Outcome, left, run_plugin,
  program,
}
use multivpn.TcpPlugin.{Loop}
use multivpn.TunTap.Returns.{IsUnix}

none-IsText : IsText 50 (globals_init zeroed).remote_host
unfolding globals_init zeroed strncpy
none-IsText = record { sized = refl; tail_zero = refl }

zeroed-IsText : IsText 50 (globals_init zeroed).sip_proxy
unfolding globals_init zeroed
zeroed-IsText = record { sized = refl; tail_zero = refl }

-- The text fields are terminated once `Globals_Init` is done.
pub globals_init-AllText : AllText (globals_init zeroed)
unfolding globals_init zeroed
globals_init-AllText = record {
  remote_host = none-IsText;
  plugin_name = none-IsText;
  local_ip = none-IsText;
  local_netmask = zeroed-IsText;
  remote_ip = none-IsText;
  sip_transport = zeroed-IsText;
  sip_remoteuri = zeroed-IsText;
  sip_fromuri = zeroed-IsText;
  sip_proxy = zeroed-IsText;
}

-- The options set no text field.
options-AllText :
    (v d : ℤ) (file : Bytes) (g : GlobalV)
    → AllText g
    → AllText (record g { verbose = v; debug = d; configfile = file })
options-AllText v d file g t = assumption

-- Where the program goes on, its text fields are terminated.
data Sound : Started → Type 0 where
  has_left : (status : ℤ) → Sound (exits status)
  is_kept : (g : GlobalV) → AllText g → Sound (goes_on g)

run_option-Sound : (o : Opt) (g : GlobalV) → AllText g → Sound (run_option o g)
unfolding run_option
run_option-Sound version g t = has_left _
run_option-Sound verbose g t = is_kept _ (options-AllText (pos 1) g.debug g.configfile g t)
run_option-Sound help g t = has_left _
run_option-Sound unknown g t = has_left _
run_option-Sound (debug_level optarg) g t = elim (Bool-cases (is_bad_argument optarg)) [
  | inl e ↦ rw e (has_left _)
  | inr e ↦ elim (Bool-cases (is_true (atoi (text_of optarg)))) [
    | inl f ↦ rw (e, f) (is_kept _ (options-AllText g.verbose _ g.configfile g t))
    | inr f ↦ rw (e, f) (has_left _)
  ]
]
run_option-Sound (configfile optarg) g t = elim (Bool-cases (is_bad_argument optarg)) [
  | inl e ↦ rw e (has_left _)
  | inr e ↦ rw e (is_kept _ (options-AllText g.verbose g.debug _ g t))
]

going-AllText : (g : GlobalV) → Sound (goes_on g) → AllText g
going-AllText g (is_kept _ t) = t

run_options-Sound : (opts : List Opt) (g : GlobalV) → AllText g → Sound (run_options opts g)
unfolding run_options
run_options-Sound [] g t = is_kept g t
run_options-Sound (o ∷ opts) g t = elim (Started-cases (run_option o g)) [
  | inl (status, e) ↦ rw (e, run_options) (has_left status)
  | inr (g', e) ↦
      rw (e, run_options)
        (run_options-Sound opts g' (going-AllText g' (subst Sound e (run_option-Sound o g t))))
]

command_line-Sound : (opts : List Opt) → Sound (command_line opts zeroed)
unfolding command_line
command_line-Sound opts =
    let g : GlobalV = globals_init zeroed in
    let sound = run_options-Sound opts g globals_init-AllText in
    elim (Started-cases (run_options opts g)) [
      | inl (status, e) ↦ rw (e, command_line) (has_left status)
      | inr (g', e) ↦ elim (Bool-cases (strncmp_eq g'.configfile (codes "none") 4)) [
        | inl f ↦ rw (e, command_line, f) (has_left _)
        | inr f ↦ rw (e, command_line, f) (is_kept g' (going-AllText g' (subst Sound e sound)))
      ]
    ]

-- How a run of the program goes: it exits on the command line without a call of the system, or the
-- parser faults and the program with it, or the parser returns and the program comes through the
-- phases behind it, with the text fields terminated.
pub data Ran (files : Files) (opts : List Opt) (n : ℕ) (l : Loop) (os : Os) (s : Machine)
    : Type 0 where
  exited :
      (status : ℤ) → program files opts n l os s ≡ ok (left status, s) → Ran files opts n l os s
  misread :
      (g : GlobalV) (e : Fault)
      → command_line opts s.globals ≡ goes_on g
      → parse_config_file (files (c_str g.configfile)) g ≡ some (fault e)
      → program files opts n l os s ≡ fault e
      → Ran files opts n l os s
  went_on :
      (g g' : GlobalV) (r : ℤ) (o : Outcome) (s' : Machine)
      → command_line opts s.globals ≡ goes_on g
      → parse_config_file (files (c_str g.configfile)) g ≡ some (ok (r, g'))
      → AllText g'
      → program files opts n l os s ≡ ok (o, s')
      → Phased (record s { globals = g' }) s' o
      → Ran files opts n l os s

module _ (files : Files) (opts : List Opt) (n : ℕ) (l : Loop) (os : Os) (s : Machine) where
  program-configured :
      (g g' : GlobalV) (r : ℤ)
      → command_line opts s.globals ≡ goes_on g
      → parse_config_file (files (c_str g.configfile)) g ≡ some (ok (r, g'))
      → program files opts n l os s ≡ run_plugin n l os (record s { globals = g' })
  unfolding program
  program-configured g g' r e f = rw (e, program, f, ◌>>=◌)

  program-misread :
      (g : GlobalV) (x : Fault)
      → command_line opts s.globals ≡ goes_on g
      → parse_config_file (files (c_str g.configfile)) g ≡ some (fault x)
      → program files opts n l os s ≡ fault x
  unfolding program
  program-misread g x e f = rw (e, program, f, ◌>>=◌)

  program-exits :
      (status : ℤ)
      → command_line opts s.globals ≡ exits status
      → program files opts n l os s ≡ ok (left status, s)
  unfolding program
  program-exits status e = rw (e, program, ◌>>=◌)

  -- Whatever the options, the files and the replies of the system, the program faults only where its
  -- parser does. Otherwise it leaves before it calls the system, or it comes through its phases: it
  -- leaves with -1 and no thread of the plugin, or is in its loop with both pipes and one thread; the
  -- text fields were then terminated. The program's memory is as it is before `main`, the system
  -- names an interface with fewer than 16 bytes, and the `errno` of a failed call is not 0.
  pub program-Ran :
      s.globals ≡ zeroed → s.plugindata ≡ no_connections ∷ [] → IsUnix os → Ran files opts n l os s
  program-Ran z p h = elim (Started-cases (command_line opts s.globals)) [
    | inl (status, e) ↦ exited status (program-exits status e)
    | inr (g, e) ↦
        let start : command_line opts zeroed ≡ goes_on g = ap (command_line opts) (sym z) ∙ e in
        let t = going-AllText g (subst Sound start (command_line-Sound opts)) in
        let (m, f, kept) = parse_config_file-Kept (files (c_str g.configfile)) g t in
        elim kept [
          | faults x k ↦ misread g x e (f ∙ ap some k) (program-misread g x e (f ∙ ap some k))
          | returns r g' k t' ↦
              let (o, s', run, phased) = run_plugin-Phased n l os (record s { globals = g' }) h p in
              went_on g g' r o s' e (f ∙ ap some k) t'
                (program-configured g g' r e (f ∙ ap some k) ∙ run) phased
        ]
  ]

  -- Where the file that the options name is the one written for a list of settings, the program
  -- carries those settings out up to the first number 0, and goes on with its phases in either case,
  -- which it comes through without a fault. The settings fit their lines, the table of connections is
  -- as it was declared, and the system is as above.
  pub program-render :
      (g : GlobalV) (settings : List Setting)
      → command_line opts s.globals ≡ goes_on g
      → files (c_str g.configfile) ≡ some (render settings)
      → All Fits settings
      → s.plugindata ≡ no_connections ∷ []
      → IsUnix os
      → let t = record s { globals = (configure settings g).1 } in
        (o : Outcome) × (s' : Machine) × (program files opts n l os s ≡ run_plugin n l os t)
        × (program files opts n l os s ≡ ok (o, s'))
        × Phased t s' o
  program-render g settings e f fits p h =
      let t : Machine = record s { globals = (configure settings g).1 } in
      let (o, s', run, phased) = run_plugin-Phased n l os t h p in
      let read = ap (λ x. parse_config_file x g) f ∙ parse_config_file-render settings g fits in
      let begins = program-configured g (configure settings g).1 (configure settings g).0 e read in
      (o, s', begins, begins ∙ run, phased)
