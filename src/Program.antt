-- ===== src/Program.antt =====
-- main.c: the command line, the order of the program's phases, and the main thread's loop.
pub mod Startup
pub mod Streams
pub mod Phases
pub mod Keeps
pub mod Building
pub mod Returns
pub mod Whole
pub mod Silent
pub mod Empty
pub mod Carries
pub mod SipCarries
use multivpn.CString.{c_str, strncpy, strncmp_eq, atoi}
use multivpn.Globals.{GlobalV, globals_init, block_size}
use multivpn.Machine.{Machine, M, pure, ◌>>=◌, ◌>>◌, get, modify, sys, lift}
use multivpn.Os.{FdSet, Os, read, write, select, fd_add, selected}
use multivpn.Parser.{parse_config_file}
use multivpn.Plugin.{plugin_check_config, plugin_build, plugin_start}
use multivpn.Prelude.Int.{ℤ, pos, negsuc, minus_one, is_true, int_gt, int_suc}
use multivpn.Prelude.{
  ℕ, zero, suc, ◌+◌, ◌-◌, Bool, true, false, not, ◌||◌, List, [], ◌∷◌, Option, none, some, Bytes,
  codes, get_elem?, ◌==◌, if◌then◌else◌, Exec, ok, fault, Fault,
}
use multivpn.TcpPlugin.{Loop, relay, max_fd}
use multivpn.TunTap.{tun_get_file}

-- What `getopt_long` returns, with its argument where the option has one.
pub data Opt : Type 0 where
  version verbose help unknown : Opt
  debug_level configfile : Option Bytes → Opt

-- The command line is done, or the program has left with a status.
pub data Started : Type 0 where
  exits : ℤ → Started
  goes_on : GlobalV → Started

-- `!optarg || optarg[0] == '-'`
unfoldable pub is_bad_argument : Option Bytes → Bool
is_bad_argument none = true
is_bad_argument (some []) = false
is_bad_argument (some (c ∷ cs)) = c == b'-'

abbrev pub text_of : Option Bytes → Bytes
text_of none = []
text_of (some s) = s

-- The `switch` of the option loop on one option. `UsageMsg` leaves with 1, `ShowVersion` with 0.
unfoldable pub run_option : Opt → GlobalV → Started
unfolding is_bad_argument
run_option version g = exits (pos 0)
run_option verbose g = goes_on (record g { verbose = pos 1 })
run_option help g = exits (pos 1)
run_option unknown g = exits (pos 1)
run_option (debug_level optarg) g =
    if is_bad_argument optarg
    then exits (pos 1)
    else if is_true (atoi (text_of optarg))
    then goes_on (record g { debug = atoi (text_of optarg) })
    else exits (pos 1)
run_option (configfile optarg) g =
    if is_bad_argument optarg
    then exits (pos 1)
    else goes_on (record g { configfile = strncpy g.configfile (text_of optarg) 200 })

unfoldable pub run_options : List Opt → GlobalV → Started
run_options [] g = goes_on g
run_options (o ∷ opts) g = elim (run_option o g) [
  | exits status ↦ exits status
  | goes_on g' ↦ run_options opts g'
]

-- The loop, and the test for a configuration file behind it.
unfoldable pub command_line : List Opt → GlobalV → Started
unfolding run_options
command_line opts g = elim (run_options opts (globals_init g)) [
  | exits status ↦ exits status
  | goes_on g' ↦ if strncmp_eq g'.configfile (codes "none") 4 then exits (pos 1) else goes_on g'
]

-- One round of `MainLoop`. The interface is served before the pipe; the set is cleared at the end.
unfoldable pub main_round : ℤ → ℤ → Loop → M Loop
main_round fd_tun maxfd l = do
  s ← get
  let (pipe_in, _) = s.globals.pipe_from_plugin
  let (_, pipe_out) = s.globals.pipe_to_plugin
  let asked = fd_add fd_tun (fd_add pipe_in l.set_reading)
  r ← sys (select maxfd asked)
  let ready = selected asked r
  if ready fd_tun
      then (do
        b ← relay (read fd_tun (block_size - 1)) (write pipe_out) l.buffer
        pure (record { buffer = b; set_reading = λ _. false }))
      else if ready pipe_in
      then (do
        b ← relay (read pipe_in block_size) (write fd_tun) l.buffer
        pure (record { buffer = b; set_reading = λ _. false }))
      else pure (record { buffer = l.buffer; set_reading = λ _. false })

unfoldable pub main_rounds : ℕ → ℤ → ℤ → Loop → M Loop
main_rounds zero fd_tun maxfd l = pure l
main_rounds (suc n) fd_tun maxfd l = do
  l' ← main_round fd_tun maxfd l
  main_rounds n fd_tun maxfd l'

unfoldable pub main_loop : ℕ → Loop → M Loop
main_loop n l = do
  fd_tun ← tun_get_file
  s ← get
  main_rounds n fd_tun (max_fd fd_tun (s.globals.pipe_from_plugin).0) l

-- `main` ends with a status, or is still in its loop after the rounds asked for.
pub data Outcome : Type 0 where
  left : ℤ → Outcome
  looping : Loop → Outcome

-- What follows the configuration file, whether or not reading it succeeded: `exit(-1)` where the
-- plugin's parameters are refused or it cannot be built; the result of `plugin_start` is not used.
unfoldable pub run_plugin : ℕ → Loop → M Outcome
run_plugin n l = do
  c ← plugin_check_config
  if is_true c then pure (left minus_one) else (do
    b ← plugin_build
    if is_true b
        then pure (left minus_one)
        else (do t ← plugin_start; l' ← main_loop n l; pure (looping l')))

-- Files are opened by name; none of them is there, or its bytes.
abbrev pub Files : Type 0
Files = Bytes → Option Bytes

-- What `main` goes on with: the result of `ParseConfigFile` is reported and not acted on.
unfoldable pub configured : Option (Exec (ℤ × GlobalV)) → GlobalV → Exec GlobalV
configured none g = ok g
configured (some (ok (r, g'))) g = ok g'
configured (some (fault e)) g = fault e

unfoldable pub program : Files → List Opt → ℕ → Loop → M Outcome
unfolding configured
program files opts n l = do
  s ← get
  elim (command_line opts s.globals) [
    | exits status ↦ pure (left status)
    | goes_on g ↦ do
      g' ← lift (configured (parse_config_file (files (c_str g.configfile)) g) g)
      modify (λ s'. record s' { globals = g' })
      run_plugin n l
  ]
