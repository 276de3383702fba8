-- ===== src/SipHost/Effort.antt =====
-- The calls that the sending thread of a SIP host still makes for the bytes that wait in its pipe.
use mathlib.Core.List.{append-nil}
use multivpn.Base64.{Malloc}
use multivpn.Base64.{Encoded}
use multivpn.Host.Order.{IsPipe}
use multivpn.Host.{Apart}
use multivpn.Machine.{Machine}
use multivpn.Os.{Os, Call, Reply, FdSet, read, select, fd_add, selected}
use multivpn.CString.{c_str}
use multivpn.Prelude.Int.{ℤ, int_gt, is_neg, is_pos, int_eq_refl, int_eq_ne}
use multivpn.Prelude.{
  ℕ, suc, ◌+◌, ◌-◌, ◌*◌, ◌<◌, ◌≤◌, ◌≡◌, ◌∙◌, refl, sym, ap, true, List, ◌∷◌, ◌++◌, Bytes, length,
  length-append, Exec, ok, fault, arith, inl, inr, Bool-cases,
}
use multivpn.SipHost.Sending.{sender_call_of}
use multivpn.SipHost.{fds_of}
use multivpn.SipPlugin.Tunnel.{Sends}
use multivpn.SipThreads.{Sender, tun_select, tun_read, tun_request, tun_uac, tun_send, sender_step}
use multivpn.TcpPlugin.Draining.{Waiting}
use multivpn.TcpPlugin.Nfds.{added_first}
use multivpn.TcpPlugin.Relay.{IsPosix}
use multivpn.TcpPlugin.Streams.{fetched, written}
use multivpn.TcpPlugin.{Loop}
use multivpn.Threads.Draining.{Since}
use multivpn.Threads.Progress.{Skips}

-- From the calls `base` on, where bytes wait in the pipe, which is below `select`'s first
-- argument and in its set, `select` finds it ready, and a read with
-- room for a byte brings at least one.
pub record IsFed (os : Os) (base : List Call) (reading writing : ℤ) : Type 0 where
  pub wakes :
      (h : List Call) (maxfd : ℤ) (set : FdSet)
      → int_gt maxfd reading ≡ true
      → set reading ≡ true
      → Since base h
      → Waiting os reading writing h
      → (os h (select maxfd set)).ready reading ≡ true
  pub brings :
      (h : List Call) (n : ℕ)
      → Since base h
      → Waiting os reading writing h
      → is_pos (os h (read reading (suc n))).ret ≡ true

-- How far the thread is from its next read; above 2 it holds a frame.
abbrev pub rank : Sender → ℕ
rank (tun_request e l) = 5
rank (tun_uac e l) = 4
rank (tun_send header l) = 3
rank (tun_select l) = 2
rank (tun_read l) = 1

abbrev pub waits : Os → Machine → ℕ
waits os m =
    length (written (m.globals.pipe_to_plugin).1 m.trace)
    - length (fetched os (m.globals.pipe_to_plugin).0 m.trace)

-- What is still to be done, but for the last round.
abbrev pub rest : Os → Sender → Machine → ℕ
rest os pc m = 6 * waits os m + (rank pc - 2)

abbrev pub effort : Os → Sender → Machine → ℕ
effort os pc m = 6 * waits os m + rank pc

pub rank-le : (pc : Sender) → rank pc ≤ 5
rank-le (tun_request e l) = omega arith
rank-le (tun_uac e l) = omega arith
rank-le (tun_send header l) = omega arith
rank-le (tun_select l) = omega arith
rank-le (tun_read l) = omega arith

abbrev rank_after : Exec (Sender × Machine) → ℕ
rank_after (ok (pc, m)) = rank pc
rank_after (fault e) = 0

-- Nothing is left where nothing was, and otherwise less.
pub record Sooner (os : Os) (pc : Sender) (m : Machine) (pc' : Sender) (m' : Machine) : Type 0 where
  pub fewer : 0 < rest os pc' m' → 0 < rest os pc m
  pub sooner : 0 < rest os pc m → effort os pc' m' < effort os pc m

selected-alone :
    (fd : ℤ) (set : FdSet) (r : Reply) → r.ready fd ≡ true → selected (fd_add fd set) r fd ≡ true
selected-alone fd set r e = elim (Bool-cases (is_neg r.ret)) [
  | inl n ↦ rw (n, int_eq_refl fd)
  | inr n ↦ rw (n, int_eq_refl fd, e)
]

module _ (malloc : Malloc) (maxfd : ℤ) (os : Os) (base : List Call) (m : Machine) (sends : Sends os)
    (posix : IsPosix os) (b : Since base m.trace)
    (pipe : IsPipe os (m.globals.pipe_to_plugin).0 (m.globals.pipe_to_plugin).1)
    (fed : IsFed os base (m.globals.pipe_to_plugin).0 (m.globals.pipe_to_plugin).1)
    (above : int_gt maxfd (m.globals.pipe_to_plugin).0 ≡ true) where
  tun_select-Sooner :
      (l : Loop) (pc' : Sender)
      → let m' : Machine = record m { trace = sender_call_of maxfd m (tun_select l) ∷ m.trace } in
        sender_step malloc maxfd (tun_select l) os m ≡ ok (pc', m')
        → Sooner os (tun_select l) m pc' m'
  unfolding sender_step
  tun_select-Sooner l pc' ran =
      let pipe_in : ℤ = (m.globals.pipe_to_plugin).0 in
      let asked = fd_add pipe_in l.set_reading in
      let r : Reply = os m.trace (select maxfd asked) in
      let after = ap {B = ℕ} rank_after (sym ran) in
      elim (Bool-cases (selected asked r pipe_in)) [
        | inl e ↦
            let one : rank pc' ≡ 1 = after ∙ rw e refl in
            record { fewer = λ some. omega (arith, one, some); sooner = λ some. omega (arith, one) }
        | inr e ↦
            let two : rank pc' ≡ 2 = after ∙ rw e refl in
            record {
              fewer = λ some. omega (arith, two, some);
              sooner = λ some.
                  let w : Waiting os pipe_in (m.globals.pipe_to_plugin).1 m.trace =
                    omega (arith, some) in
                  absurd (
                    cc (
                      selected-alone pipe_in l.set_reading r (
                          fed.wakes m.trace maxfd asked above (added_first pipe_in l.set_reading) b
                            w),
                      e,
                    ));
            }
      ]

  tun_read-Sooner :
      (l : Loop) (pc' : Sender)
      → let m' : Machine = record m { trace = sender_call_of maxfd m (tun_read l) ∷ m.trace } in
        sender_step malloc maxfd (tun_read l) os m ≡ ok (pc', m') → Sooner os (tun_read l) m pc' m'
  unfolding sender_step
  tun_read-Sooner l pc' ran =
      let pipe_in : ℤ = (m.globals.pipe_to_plugin).0 in
      let c : Call = read pipe_in 1504 in
      let x : Reply = os m.trace c in
      let is_read = posix.reads m.trace pipe_in 1504 in
      let after = ap {B = ℕ} rank_after (sym ran) in
      let (more, f) = pipe (c ∷ m.trace) in
      let fits = ap {B = ℕ} length f in
      let split = length-append (fetched os pipe_in (c ∷ m.trace)) more in
      elim (Bool-cases (is_pos x.ret)) [
        | inl e ↦
            let grown : fetched os pipe_in (c ∷ m.trace) ≡ fetched os pipe_in m.trace ++ x.bytes =
              rw (int_eq_refl pipe_in, e) refl in
            let longer =
              ap {B = ℕ} length grown ∙ length-append (fetched os pipe_in m.trace) x.bytes in
            let some_bytes : 0 < length x.bytes = ground (arith, is_read.counted, e) in
            let small = rank-le pc' in
            record {
              fewer = λ some. omega (arith, fits, split, longer, some_bytes);
              sooner = λ some. omega (arith, fits, split, longer, some_bytes, small);
            }
        | inr e ↦
            let two : rank pc' ≡ 2 = after ∙ rw e refl in
            let same : fetched os pipe_in (c ∷ m.trace) ≡ fetched os pipe_in m.trace =
              rw (int_eq_refl pipe_in, e, append-nil) refl in
            let equal = ap {B = ℕ} length same in
            record {
              fewer = λ some. omega (arith, two, equal, some);
              sooner = λ some.
                  let w : Waiting os pipe_in (m.globals.pipe_to_plugin).1 m.trace =
                    omega (arith, some) in
                  absurd (cc (fed.brings m.trace 1503 b w, e));
            }
      ]

  -- Behind a read each step is one to the end of the round.
  tun_request-Sooner :
      (e : Encoded) (l : Loop) (pc' : Sender)
      → let pc = tun_request e l in
        let m' : Machine = record m { trace = sender_call_of maxfd m pc ∷ m.trace } in
        sender_step malloc maxfd pc os m ≡ ok (pc', m') → Sooner os pc m pc' m'
  unfolding sender_step
  tun_request-Sooner e l pc' ran =
      let four : rank pc' ≡ 4 =
        ap {B = ℕ} rank_after (sym ran)
        ∙ rw (sends.creates m.trace (c_str m.globals.sip_remoteuri) (c_str m.globals.sip_fromuri))
            refl in
      record { fewer = λ some. omega (arith, four); sooner = λ some. omega (arith, four) }

  tun_uac-Sooner :
      (e : Encoded) (l : Loop) (pc' : Sender)
      → let pc = tun_uac e l in
        let m' : Machine = record m { trace = sender_call_of maxfd m pc ∷ m.trace } in
        sender_step malloc maxfd pc os m ≡ ok (pc', m') → Sooner os pc m pc' m'
  unfolding sender_step
  tun_uac-Sooner e l pc' ran =
      let three : rank pc' ≤ 3 = ground (arith, ran, sends.creates_uac m.trace) in
      record { fewer = λ some. omega (arith, three); sooner = λ some. omega (arith, three) }

  tun_send-Sooner :
      (header : Bytes) (l : Loop) (pc' : Sender)
      → let pc = tun_send header l in
        let m' : Machine = record m { trace = sender_call_of maxfd m pc ∷ m.trace } in
        sender_step malloc maxfd pc os m ≡ ok (pc', m') → Sooner os pc m pc' m'
  unfolding sender_step
  tun_send-Sooner header l pc' ran =
      let two : rank pc' ≡ 2 = ap {B = ℕ} rank_after (sym ran) in
      record { fewer = λ some. omega (arith, two, some); sooner = λ some. omega (arith, two) }

  pub sender_step-Sooner :
      (pc pc' : Sender)
      → let m' : Machine = record m { trace = sender_call_of maxfd m pc ∷ m.trace } in
        sender_step malloc maxfd pc os m ≡ ok (pc', m') → Sooner os pc m pc' m'
  sender_step-Sooner (tun_select l) pc' ran = tun_select-Sooner l pc' ran
  sender_step-Sooner (tun_read l) pc' ran = tun_read-Sooner l pc' ran
  sender_step-Sooner (tun_request e l) pc' ran = tun_request-Sooner e l pc' ran
  sender_step-Sooner (tun_uac e l) pc' ran = tun_uac-Sooner e l pc' ran
  sender_step-Sooner (tun_send header l) pc' ran = tun_send-Sooner header l pc' ran

-- The sending thread leaves the other pipe alone.
pub sender-Skips :
    (maxfd : ℤ) (os : Os) (m : Machine) (pc : Sender)
    → Apart (fds_of m)
    → Skips os (fds_of m).from_in (fds_of m).from_out (sender_call_of maxfd m pc)
sender-Skips maxfd os m (tun_select l) a = record {
  fetched_same = λ h. refl;
  written_same = λ h. refl;
}
sender-Skips maxfd os m (tun_read l) a = record {
  fetched_same = λ h.
      rw (int_eq_ne (fds_of m).to_in (fds_of m).from_in (λ e. a.from_to (sym e)), append-nil) refl;
  written_same = λ h. refl;
}
sender-Skips maxfd os m (tun_request e l) a = record {
  fetched_same = λ h. refl;
  written_same = λ h. refl;
}
sender-Skips maxfd os m (tun_uac e l) a = record {
  fetched_same = λ h. refl;
  written_same = λ h. refl;
}
sender-Skips maxfd os m (tun_send header l) a = record {
  fetched_same = λ h. refl;
  written_same = λ h. refl;
}
