-- ===== src/SipHost/Turning.antt =====
-- What one turn of a thread brings in a SIP host that has become quiet.
use mathlib.Core.Path.{subst}
use multivpn.Base64.{Malloc}
use multivpn.Host.MainTurn.{main_pc-before_clear, main_pc-Nearer, main-Skips}
use multivpn.Host.Order.{IsPipe}
use multivpn.Host.{Apart, Fds}
use multivpn.Machine.{Machine}
use multivpn.Os.{Os, Call}
use multivpn.Prelude.Int.{int_gt, ℤ}
use multivpn.Prelude.{
  true, ℕ, ◌+◌, ◌-◌, ◌<◌, ◌≤◌, ◌≡◌, refl, sym, ap, List, [], ◌∷◌, length, ok, arith,
}
use multivpn.SipHost.Effort.{IsFed, rest, effort, Sooner, sender_step-Sooner, sender-Skips}
use multivpn.SipHost.Ledgers.{IsReady, HostLedger-Comes, Reach-HostLedger}
use multivpn.SipHost.Progress.{sender_step-Goes}
use multivpn.SipHost.Receiving.{receiver_next, receiver_step-next}
use multivpn.SipHost.Sending.{sender_call_of}
use multivpn.SipHost.Turns.{
  Turn, main_turn, sender_turn, receiver_turn, by_turn, main_turns, sender_turns, receiver_turns,
}
use multivpn.SipHost.{fds_of, SipHost, by_main, main_call, sender_call, receiver_call, Reach, later}
use multivpn.SipThreads.{Sender}
use multivpn.TcpPlugin.{Loop}
use multivpn.Threads.Draining.{Since, Since-cons, IsIdle}
use multivpn.Threads.Progress.{before_clear, behind, Skips, Nearer}
use multivpn.Threads.Progress as Progress
use multivpn.SipHost.Leaving.{before_written, receiver_next-Leaves}

-- What a SIP host needs to be quiet from the calls `base` on, for its descriptors.
pub record IsCalm (os : Os) (base : List Call) (d : Fds) : Type 0 where
  pub apart : Apart d
  pub to_plugin : IsPipe os d.to_in d.to_out
  pub from_plugin : IsPipe os d.from_in d.from_out
  pub idle : IsIdle os base d.tun d.from_in d.from_out
  pub fed : IsFed os base d.to_in d.to_out

abbrev pub behind_down : Os → SipHost → ℕ
behind_down os s =
    behind os (fds_of s.machine).from_in (fds_of s.machine).from_out s.main s.machine.trace

abbrev pub effort_down : Os → SipHost → ℕ
effort_down os s =
    Progress.effort os (fds_of s.machine).from_in (fds_of s.machine).from_out s.main s.machine.trace

abbrev pub rest_up : Os → SipHost → ℕ
rest_up os s = rest os s.sender s.machine

abbrev pub effort_up : Os → SipHost → ℕ
effort_up os s = effort os s.sender s.machine

-- What a turn brings: what is under way in a thread comes to its end, and once nothing is, the pipes
-- come nearer to being empty.
pub record Took (os : Os) (base : List Call) (x : Turn) (s t : SipHost) : Type 0 where
  pub since : Since base t.machine.trace
  pub main_before : before_clear t.main ≤ before_clear s.main - main_turns (x ∷ [])
  pub receiver_before :
      before_written t.receiver ≤ before_written s.receiver - receiver_turns (x ∷ [])
  pub up :
      before_clear s.main ≡ 0
      → (i : ℕ) → (0 < rest_up os s → effort_up os s ≤ i + sender_turns (x ∷ []))
      → 0 < rest_up os t
      → effort_up os t ≤ i
  pub down :
      before_written s.receiver ≡ 0
      → (i : ℕ) → (0 < behind_down os s → effort_down os s ≤ i + main_turns (x ∷ []))
      → 0 < behind_down os t
      → effort_down os t ≤ i

module _ (malloc : Malloc) (junk : ℕ) (maxfd : ℤ) (os : Os) (m : Machine) (l k : Loop)
    (ready : IsReady malloc os m l k) (base : List Call) (s : SipHost)
    (calm : IsCalm os base (fds_of s.machine)) (b : Since base s.machine.trace) where
  main_turn-Took : Took os base main_turn s (by_main os s)
  main_turn-Took =
      let d : Fds = fds_of s.machine in
      let n =
        main_pc-Nearer os d base calm.idle s.main s.machine.trace calm.apart ready.posix
          calm.from_plugin b in
      record {
        since = Since-cons _ b;
        main_before = main_pc-before_clear os d base calm.idle s.main s.machine.trace b;
        receiver_before = omega arith;
        up = λ clear i given some.
            let skips = main-Skips os d s.main calm.apart clear in
            let f = ap {B = ℕ} length (skips.fetched_same s.machine.trace) in
            let w = ap {B = ℕ} length (skips.written_same s.machine.trace) in
            let u = given (omega (arith, f, w, some)) in omega (arith, f, w, u);
        down = λ clear i given some.
            let before : 0 < behind_down os s = omega (arith, n.fewer, some) in
            omega (arith, n.sooner before, given before);
      }

  sender_turn-Took :
      (pc : Sender)
      → let m' : Machine = record s.machine {
        trace = sender_call_of maxfd s.machine s.sender ∷ s.machine.trace;
      } in
        Sooner os s.sender s.machine pc m'
        → Took os base sender_turn s (record s { sender = pc; machine = m' })
  sender_turn-Took pc n =
      let skips = sender-Skips maxfd os s.machine s.sender calm.apart in
      let f = ap {B = ℕ} length (skips.fetched_same s.machine.trace) in
      let w = ap {B = ℕ} length (skips.written_same s.machine.trace) in
      record {
        since = Since-cons _ b;
        main_before = omega arith;
        receiver_before = omega arith;
        up = λ clear i given some.
            let before = n.fewer some in omega (arith, n.sooner before, given before);
        down = λ clear i given some.
            let u = given (omega (arith, f, w, some)) in omega (arith, f, w, u);
      }

module _ (os : Os) (base : List Call) (s : SipHost) (apart : Apart (fds_of s.machine))
    (b : Since base s.machine.trace) where
  receiver_turn-Took :
      let (pc, m') = receiver_next s.receiver s.machine in
      Took os base receiver_turn s (record s { receiver = pc; machine = m' })
  receiver_turn-Took =
      let v = receiver_next-Leaves os base s.receiver s.machine apart in
      record {
        since = v.since b;
        main_before = omega arith;
        receiver_before = omega (arith, v.written_soon);
        up = λ clear i given some.
            let u = given (omega (arith, v.waits_same, some)) in omega (arith, v.waits_same, u);
        down = λ clear i given some.
            let same = v.down_same clear s.main in
            let u = given (omega (arith, same, some)) in omega (arith, same, u);
      }

module _ (malloc : Malloc) (junk : ℕ) (maxfd : ℤ) (os : Os) (m : Machine) (l k : Loop)
    (ready : IsReady malloc os m l k) (base : List Call) (calm : IsCalm os base (fds_of m))
    (above : int_gt maxfd (fds_of m).to_in ≡ true) where
  -- A turn is a step, does not fault, and brings what it should.
  pub by_turn-Took :
      (x : Turn) (s : SipHost)
      → Reach malloc junk maxfd os m l k s
      → Since base s.machine.trace
      → (t : SipHost) × (by_turn malloc maxfd os x s ≡ ok t)
        × Reach malloc junk maxfd os m l k t
        × Took os base x s t
  by_turn-Took main_turn s r b =
      let v = Reach-HostLedger malloc junk maxfd os m l k ready r in
      let here = subst (IsCalm os base) (sym v.same_fds) calm in
      (
        by_main os s,
        refl,
        later r main_call,
        main_turn-Took malloc junk maxfd os m l k ready base s here b,
      )
  by_turn-Took sender_turn s r b =
      let v = Reach-HostLedger malloc junk maxfd os m l k ready r in
      let here = subst (IsCalm os base) (sym v.same_fds) calm in
      let (pc, ran, ledger) =
        sender_step-Goes malloc maxfd os ready.supplies ready.sends ready.posix s.sender s.machine
          (HostLedger-Comes malloc junk maxfd os m l k ready s v) v.sender_ledger in
      let n =
        sender_step-Sooner malloc maxfd os base s.machine ready.sends ready.posix b here.to_plugin
          here.fed (subst (λ (x : Fds). int_gt maxfd x.to_in ≡ true) (sym v.same_fds) above)
          s.sender pc ran in
      (
        _,
        rw ran refl,
        later r (sender_call pc _ ran),
        sender_turn-Took malloc junk maxfd os m l k ready base s here b pc n,
      )
  by_turn-Took receiver_turn s r b =
      let v = Reach-HostLedger malloc junk maxfd os m l k ready r in
      let here = subst (IsCalm os base) (sym v.same_fds) calm in
      let ran = receiver_step-next s.receiver os s.machine in
      (_, rw ran refl, later r (receiver_call _ _ ran), receiver_turn-Took os base s here.apart b)
