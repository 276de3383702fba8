-- ===== src/Host/Fairness.antt =====
-- A TCP host settles in whatever order its two threads take their turns, if each has enough of them.
use mathlib.Core.List.{IsPrefix}
use multivpn.Host.Effort.{
  behind_up, behind_down, effort_up, effort_down, IsClear, take_turns-before_clear,
  take_turns-effort,
}
use multivpn.Host.Main.{held}
use multivpn.Host.Order.{IsReady, Reach-HostLedger, Reach-IsPrefix}
use multivpn.Host.Rounds.{Steps, here, then, Steps-trans, Steps-IsPrefix}
use multivpn.Host.Turns.{
  Turn, main_turn, plugin_turn, take_turns, main_turns, plugin_turns, Reach-take_turns,
  take_turns-Since,
}
use multivpn.Host.{Fds, Host, main_call, plugin_call, Reach}
use multivpn.Os.{Os, Call}
use multivpn.Prelude.{
  ℕ, zero, suc, ◌+◌, ◌-◌, ◌*◌, ◌<◌, ◌≤◌, ◌≡◌, refl, ap, List, [], ◌∷◌, ◌++◌, Bytes, length,
  length-append, arith,
}
use multivpn.TcpPlugin.Streams.{fetched, received, written, sent}
use multivpn.TcpPlugin.{Loop}
use multivpn.Threads.Draining.{IsIdle, no_rest}
use multivpn.Threads.Progress.{before_clear, before_clear-le, rank-le}
use multivpn.Threads.{Pc, first, second, at_select, at_source, at_sink}

-- How many bytes from the interface were not yet sent on the socket, and how many from the socket not
-- yet written to the interface.
abbrev pub unsent : Os → Fds → Host → ℕ
unsent os d s = length (fetched os d.tun s.calls) - length (sent d.sock s.calls)

abbrev pub unwritten : Os → Fds → Host → ℕ
unwritten os d s = length (received os d.sock s.calls) - length (written d.tun s.calls)

take_turns-Steps :
    (os : Os) (d : Fds) (order : List Turn) (s : Host) → Steps os d s (take_turns os d order s)
take_turns-Steps os d [] s = here
take_turns-Steps os d (main_turn ∷ order) s =
    Steps-trans (then s here main_call) (take_turns-Steps os d order _)
take_turns-Steps os d (plugin_turn ∷ order) s =
    Steps-trans (then s here plugin_call) (take_turns-Steps os d order _)

pub clear-held : (pc : Pc) → before_clear pc ≡ 0 → held first pc ≡ []
clear-held (at_select l) e = refl
clear-held (at_source side l) e = refl
clear-held (at_sink first bytes l) e = absurd (omega (arith, e))
clear-held (at_sink second bytes l) e = refl

-- What is under way on one of the two ways, through a pipe between two threads.
behind-lengths :
    (came entered left went : Bytes) (waits holds : Bytes)
    → came ≡ entered ++ waits
    → waits ≡ []
    → IsPrefix left entered
    → left ≡ went ++ holds
    → (length entered - length left) + length holds ≡ length came - length went
behind-lengths came entered left went waits holds e f (rest, p) g = omega (
  arith,
  ap {B = ℕ} length e,
  ap {B = ℕ} length f,
  ap {B = ℕ} length p,
  ap {B = ℕ} length g,
  length-append entered waits,
  length-append left rest,
  length-append went holds,
)

-- Nothing is under way where not a byte is behind.
all_went :
    (came went : Bytes) (n i : ℕ)
    → IsPrefix went came
    → n ≡ length came - length went
    → i ≤ 4
    → (0 < n → 5 * n + i ≤ 0)
    → went ≡ came
all_went came went zero i (rest, p) e small h = no_rest went rest came p (omega (arith, e))
all_went came went (suc n) i (rest, p) e small h = absurd (omega (arith, h (omega arith)))

module _ (os : Os) (d : Fds) (h : List Call) (l m : Loop) (k : IsReady os d h l m) (s : Host)
    (main_clear : before_clear s.main ≡ 0) (plugin_clear : before_clear s.plugin ≡ 0)
    (r : Reach os d h l m s) where
  -- Where no thread has anything new under way, what is behind in a pipe is what came in on the one
  -- side and has not left on the other.
  behind-under_way : (behind_up os d s ≡ unsent os d s) × (behind_down os d s ≡ unwritten os d s)
  behind-under_way =
      let v = Reach-HostLedger k.apart k.posix k.fresh k.main_buffer k.plugin_buffer r in
      (
        behind-lengths _ _ _ _ _ _ v.main_ledger.up (clear-held s.main main_clear)
            (k.to_plugin s.calls) v.tcp_ledger.up,
        behind-lengths _ _ _ _ _ _ v.tcp_ledger.down (clear-held s.plugin plugin_clear)
            (k.from_plugin s.calls) v.main_ledger.down,
      )

  settled :
      (0 < behind_up os d s → effort_up os d s ≤ 0)
      → (0 < behind_down os d s → effort_down os d s ≤ 0)
      → (sent d.sock s.calls ≡ fetched os d.tun s.calls)
        × (written d.tun s.calls ≡ received os d.sock s.calls)
  settled up down =
      let (left, back) = Reach-IsPrefix os d h l m s k r in
      (
        all_went _ _ _ _ left behind-under_way.0 (rank-le s.plugin) up,
        all_went _ _ _ _ back behind-under_way.1 (rank-le s.main) down,
      )

-- From every state `s` that a ready host reaches, in whatever order its threads then take their
-- turns: once each of them has had two, the plugin five for each byte from the interface that is not
-- yet sent and five more, and the main thread five for each byte from the socket that is not yet
-- written to the interface and five more, all that was read from the interface was sent on the
-- socket, and all that was received from the socket was written to the interface; what had come in
-- before is part of it. From `s` on `select` does not fail and finds neither the interface nor the
-- socket ready; where bytes wait in a pipe that is below its first argument and in its set it finds the
-- pipe ready, and a read brings one.
pub take_turns-settles :
    (os : Os) (d : Fds) (h : List Call) (l m : Loop) (s : Host) (early late : List Turn)
    → IsReady os d h l m
    → IsIdle os s.calls d.sock d.to_in d.to_out
    → IsIdle os s.calls d.tun d.from_in d.from_out
    → Reach os d h l m s
    → 2 ≤ main_turns early
    → 2 ≤ plugin_turns early
    → 5 * unsent os d (take_turns os d early s) + 5 ≤ plugin_turns late
    → 5 * unwritten os d (take_turns os d early s) + 5 ≤ main_turns late
    → let t = take_turns os d late (take_turns os d early s) in
      (sent d.sock t.calls ≡ fetched os d.tun t.calls)
      × (written d.tun t.calls ≡ received os d.sock t.calls)
      × IsPrefix (fetched os d.tun s.calls) (fetched os d.tun t.calls)
      × IsPrefix (received os d.sock s.calls) (received os d.sock t.calls)
take_turns-settles os d h l m s early late k idle_sock idle_tun r two_main two_plugin up down =
    let u : Host = take_turns os d early s in
    let b = take_turns-Since os d {base = s.calls} early s ([], refl) in
    let (main_less, plugin_less) =
      take_turns-before_clear os d k s.calls idle_sock idle_tun early s ([], refl) in
    let c : IsClear s.calls u = record {
      since = b;
      main_clear = omega (arith, main_less, two_main, before_clear-le s.main);
      plugin_clear = omega (arith, plugin_less, two_plugin, before_clear-le s.plugin);
    } in
    let reach = Reach-take_turns early s r in
    let (way_up, way_down) = behind-under_way os d h l m k u c.main_clear c.plugin_clear reach in
    let (done_up, done_down, c') =
      take_turns-effort os d k s.calls idle_sock idle_tun late u 0 0 c
        (λ some. omega (arith, up, way_up, rank-le u.plugin))
        (λ some. omega (arith, down, way_down, rank-le u.main)) in
    let (sent_all, written_all) =
      settled os d h l m k (take_turns os d late u) c'.main_clear c'.plugin_clear
        (Reach-take_turns late u reach) done_up done_down in
    let steps = Steps-trans (take_turns-Steps os d early s) (take_turns-Steps os d late u) in
    let (grown, grown') = Steps-IsPrefix os d s (take_turns os d late u) steps in
    (sent_all, written_all, grown, grown')
