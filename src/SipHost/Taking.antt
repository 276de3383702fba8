-- ===== src/SipHost/Taking.antt =====
-- What many turns of the threads of a SIP host bring.
use multivpn.Base64.{Malloc}
use multivpn.Machine.{Machine}
use multivpn.Os.{Os, Call}
use multivpn.Prelude.Int.{int_gt, ℤ}
use multivpn.Prelude.{true, ℕ, ◌+◌, ◌-◌, ◌<◌, ◌≤◌, ◌≡◌, refl, List, [], ◌∷◌, ok, arith, ◌>>=◌}
use multivpn.SipHost.Ledgers.{IsReady}
use multivpn.SipHost.Leaving.{before_written}
use multivpn.SipHost.Turning.{
  IsCalm, behind_down, effort_down, rest_up, effort_up, Took, by_turn-Took,
}
use multivpn.SipHost.Turns.{
  Turn, main_turn, sender_turn, receiver_turn, take_turns, main_turns, sender_turns, receiver_turns,
}
use multivpn.SipHost.{fds_of, SipHost, Reach}
use multivpn.TcpPlugin.{Loop}
use multivpn.Threads.Draining.{Since}
use multivpn.Threads.Progress.{before_clear}

-- The turns of a longer list.
turns-cons :
    (x : Turn) (order : List Turn)
    → (main_turns (x ∷ order) ≡ main_turns (x ∷ []) + main_turns order)
      × (sender_turns (x ∷ order) ≡ sender_turns (x ∷ []) + sender_turns order)
      × (receiver_turns (x ∷ order) ≡ receiver_turns (x ∷ []) + receiver_turns order)
turns-cons main_turn order = (omega arith, omega arith, omega arith)
turns-cons sender_turn order = (omega arith, omega arith, omega arith)
turns-cons receiver_turn order = (omega arith, omega arith, omega arith)

-- What many turns bring.
pub record Taken (os : Os) (base : List Call) (order : List Turn) (s t : SipHost) : Type 0 where
  pub since : Since base t.machine.trace
  pub main_before : before_clear t.main ≤ before_clear s.main - main_turns order
  pub receiver_before : before_written t.receiver ≤ before_written s.receiver - receiver_turns order
  pub up :
      before_clear s.main ≡ 0
      → (i : ℕ) → (0 < rest_up os s → effort_up os s ≤ i + sender_turns order)
      → 0 < rest_up os t
      → effort_up os t ≤ i
  pub down :
      before_written s.receiver ≡ 0
      → (i : ℕ) → (0 < behind_down os s → effort_down os s ≤ i + main_turns order)
      → 0 < behind_down os t
      → effort_down os t ≤ i

Took-Taken :
    (os : Os) (base : List Call) (x : Turn) (order : List Turn) (s t u : SipHost)
    → Took os base x s t
    → Taken os base order t u
    → Taken os base (x ∷ order) s u
Took-Taken os base x order s t u a b =
    let (mains, senders, receivers) = turns-cons x order in
    record {
      since = b.since;
      main_before = omega (arith, a.main_before, b.main_before, mains);
      receiver_before = omega (arith, a.receiver_before, b.receiver_before, receivers);
      up = λ clear i given.
          b.up (omega (arith, a.main_before, clear)) i
            (a.up clear (i + sender_turns order) (λ some. omega (arith, given some, senders)));
      down = λ clear i given.
          b.down (omega (arith, a.receiver_before, clear)) i
            (a.down clear (i + main_turns order) (λ some. omega (arith, given some, mains)));
    }

module _ (malloc : Malloc) (junk : ℕ) (maxfd : ℤ) (os : Os) (m : Machine) (l k : Loop)
    (ready : IsReady malloc os m l k) (base : List Call) (calm : IsCalm os base (fds_of m))
    (above : int_gt maxfd (fds_of m).to_in ≡ true) where
  -- No turn faults.
  pub take_turns-Taken :
      (order : List Turn) (s : SipHost)
      → Reach malloc junk maxfd os m l k s
      → Since base s.machine.trace
      → (t : SipHost) × (take_turns malloc maxfd os order s ≡ ok t)
        × Reach malloc junk maxfd os m l k t
        × Taken os base order s t
  take_turns-Taken [] s r b = (
    s,
    refl,
    r,
    record {
      since = b;
      main_before = omega arith;
      receiver_before = omega arith;
      up = λ clear i given some. omega (arith, given some);
      down = λ clear i given some. omega (arith, given some);
    },
  )
  take_turns-Taken (x ∷ order) s r b =
      let (t, e, r', a) = by_turn-Took malloc junk maxfd os m l k ready base calm above x s r b in
      let (u, f, r'', c) = take_turns-Taken order t r' a.since in
      (u, rw (e, ◌>>=◌) f, r'', Took-Taken os base x order s t u a c)
