-- ===== src/Host/Turns.antt =====
-- Runs of a TCP host: the two threads make their calls in the order of a list of turns.
use mathlib.Core.List.{append-nil}
use multivpn.Host.Tcp.{tcp_plan_of}
use multivpn.Host.{Apart, Fds, Host, by_main, by_plugin, main_call, plugin_call, Reach, later}
use multivpn.Os.{Os, Call}
use multivpn.Prelude.Int.{int_eq_ne}
use multivpn.Prelude.{ℕ, suc, ◌≡◌, refl, sym, List, [], ◌∷◌, arith}
use multivpn.TcpPlugin.{Loop}
use multivpn.Threads.Draining.{Since, Since-cons}
use multivpn.Threads.Progress.{before_clear, Skips}
use multivpn.Threads.{Pc, first, second, at_select, at_source, at_sink, call_of}

pub data Turn : Type 0 where
  main_turn plugin_turn : Turn

abbrev pub by_turn : Os → Fds → Turn → Host → Host
by_turn os d main_turn s = by_main os d s
by_turn os d plugin_turn s = by_plugin os d s

abbrev pub take_turns : Os → Fds → List Turn → Host → Host
take_turns os d [] s = s
take_turns os d (x ∷ order) s = take_turns os d order (by_turn os d x s)

-- How many turns each thread has.
abbrev pub main_turns : List Turn → ℕ
main_turns [] = 0
main_turns (main_turn ∷ order) = suc (main_turns order)
main_turns (plugin_turn ∷ order) = main_turns order

abbrev pub plugin_turns : List Turn → ℕ
plugin_turns [] = 0
plugin_turns (main_turn ∷ order) = plugin_turns order
plugin_turns (plugin_turn ∷ order) = suc (plugin_turns order)

pub Reach-take_turns :
    {os : Os} {d : Fds} {h : List Call} {l m : Loop} (order : List Turn) (s : Host)
    → Reach os d h l m s
    → Reach os d h l m (take_turns os d order s)
Reach-take_turns [] s r = r
Reach-take_turns (main_turn ∷ order) s r = Reach-take_turns order _ (later r main_call)
Reach-take_turns (plugin_turn ∷ order) s r = Reach-take_turns order _ (later r plugin_call)

pub take_turns-Since :
    (os : Os) (d : Fds) {base : List Call} (order : List Turn) (s : Host)
    → Since base s.calls
    → Since base (take_turns os d order s).calls
take_turns-Since os d [] s b = b
take_turns-Since os d (main_turn ∷ order) s b = take_turns-Since os d order _ (Since-cons _ b)
take_turns-Since os d (plugin_turn ∷ order) s b = take_turns-Since os d order _ (Since-cons _ b)

-- What the plugin does for its pipe leaves the other pipe alone.
pub plugin-Skips :
    (os : Os) (d : Fds) (pc : Pc)
    → Apart d
    → before_clear pc ≡ 0
    → Skips os d.from_in d.from_out (call_of (tcp_plan_of d) pc)
plugin-Skips os d (at_select l) a c = record { fetched_same = λ h. refl; written_same = λ h. refl }
plugin-Skips os d (at_source first l) a c = absurd (omega (arith, c))
plugin-Skips os d (at_source second l) a c = record {
  fetched_same = λ h. rw (int_eq_ne d.to_in d.from_in (λ e. a.from_to (sym e)), append-nil) refl;
  written_same = λ h. refl;
}
plugin-Skips os d (at_sink first bytes l) a c = absurd (omega (arith, c))
plugin-Skips os d (at_sink second bytes l) a c = record {
  fetched_same = λ h. refl;
  written_same = λ h. refl;
}
