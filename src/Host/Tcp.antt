-- ===== src/Host/Tcp.antt =====
-- What the thread of the TCP plugin has read and written, at each of its calls, and that neither
-- thread touches what the other one counts.
use mathlib.Core.List.{append-nil}
use multivpn.Globals.{block_size}
use multivpn.Host.Main.{held, loop_of, plan_of, MainLedger}
use multivpn.Host.{Fds, Apart}
use multivpn.Os.{Os, Call, Reply, read, recv, selected}
use multivpn.Prelude.Int.{is_pos, int_eq_refl, int_eq_ne}
use multivpn.Prelude.{◌≡◌, sym, ◌∙◌, List, ◌∷◌, ◌++◌, length, inl, inr, Bool-cases, arith}
use multivpn.TcpPlugin.Relay.{IsPosix, take-overlay, length-overlay}
use multivpn.TcpPlugin.Streams.{fetched, received, written, sent}
use multivpn.Threads.{
  Plan, first, second, Pc, at_select, at_source, at_sink, asked, call_of, next_pc, tcp_plan,
}

abbrev pub tcp_plan_of : Fds → Plan
tcp_plan_of d = tcp_plan d.sock d.to_in d.from_out

-- What came from the socket was written to the pipe or is still held, and likewise the other way.
pub record TcpLedger (os : Os) (d : Fds) (pc : Pc) (h : List Call) : Type 0 where
  pub up : fetched os d.to_in h ≡ sent d.sock h ++ held second pc
  pub down : received os d.sock h ≡ written d.from_out h ++ held first pc
  pub sized : length (loop_of pc).buffer ≡ block_size

module _ (os : Os) (d : Fds) (p : IsPosix os) where
  pub next_pc-TcpLedger :
      (pc : Pc) (h : List Call)
      → TcpLedger os d pc h
      → TcpLedger os d
          (next_pc (tcp_plan_of d) pc (os h (call_of (tcp_plan_of d) pc)))
          (call_of (tcp_plan_of d) pc ∷ h)
  next_pc-TcpLedger (at_select l) h v =
      let asks = asked (tcp_plan_of d) l in
      let ready = selected asks (os h (call_of (tcp_plan_of d) (at_select l))) in
      elim (Bool-cases (ready d.sock)) [
        | inl e ↦ rw e (record { up = v.up; down = v.down; sized = v.sized })
        | inr e ↦ elim (Bool-cases (ready d.to_in)) [
          | inl f ↦ rw (e, f) (record { up = v.up; down = v.down; sized = v.sized })
          | inr f ↦ rw (e, f) (record { up = v.up; down = v.down; sized = v.sized })
        ]
      ]
  next_pc-TcpLedger (at_source first l) h v =
      let r : Reply = os h (recv d.sock 1504) in
      let is_read = p.recvs h d.sock 1504 in
      let room = length-overlay r.bytes l.buffer (omega (arith, is_read.bounded)) ∙ v.sized in
      elim (Bool-cases (is_pos r.ret)) [
        | inl e ↦ rw e (record {
          up = v.up;
          down = rw (int_eq_refl d.sock, e, take-overlay r l.buffer is_read, v.down, append-nil);
          sized = room;
        })
        | inr e ↦ rw e (record {
          up = v.up;
          down = rw (int_eq_refl d.sock, e, append-nil) v.down;
          sized = room;
        })
      ]
  next_pc-TcpLedger (at_source second l) h v =
      let r : Reply = os h (read d.to_in 1504) in
      let is_read = p.reads h d.to_in 1504 in
      let room = length-overlay r.bytes l.buffer (omega (arith, is_read.bounded)) ∙ v.sized in
      elim (Bool-cases (is_pos r.ret)) [
        | inl e ↦ rw e (record {
          up = rw (int_eq_refl d.to_in, e, take-overlay r l.buffer is_read, v.up, append-nil);
          down = v.down;
          sized = room;
        })
        | inr e ↦ rw e (record {
          up = rw (int_eq_refl d.to_in, e, append-nil) v.up;
          down = v.down;
          sized = room;
        })
      ]
  next_pc-TcpLedger (at_sink first bytes l) h v = record {
    up = v.up;
    down = rw (int_eq_refl d.from_out, append-nil) v.down;
    sized = v.sized;
  }
  next_pc-TcpLedger (at_sink second bytes l) h v = record {
    up = rw (int_eq_refl d.sock, append-nil) v.up;
    down = v.down;
    sized = v.sized;
  }

module _ (os : Os) (d : Fds) (apart : Apart d) where
  -- A call of the main thread, seen by the plugin's.
  pub call_of-TcpLedger :
      (other pc : Pc) (h : List Call)
      → TcpLedger os d pc h
      → TcpLedger os d pc (call_of (plan_of d) other ∷ h)
  call_of-TcpLedger (at_select l) pc h v = record { up = v.up; down = v.down; sized = v.sized }
  call_of-TcpLedger (at_source first l) pc h v = record {
    up = rw (int_eq_ne d.tun d.to_in apart.tun_to, append-nil) v.up;
    down = v.down;
    sized = v.sized;
  }
  call_of-TcpLedger (at_source second l) pc h v = record {
    up = rw (int_eq_ne d.from_in d.to_in apart.from_to, append-nil) v.up;
    down = v.down;
    sized = v.sized;
  }
  call_of-TcpLedger (at_sink first bytes l) pc h v = record {
    up = v.up;
    down = rw (int_eq_ne d.to_out d.from_out apart.to_from_out, append-nil) v.down;
    sized = v.sized;
  }
  call_of-TcpLedger (at_sink second bytes l) pc h v = record {
    up = v.up;
    down = rw (int_eq_ne d.tun d.from_out apart.tun_from_out, append-nil) v.down;
    sized = v.sized;
  }

  -- A call of the plugin's thread, seen by the main one.
  pub call_of-MainLedger :
      (other pc : Pc) (h : List Call)
      → MainLedger os d pc h
      → MainLedger os d pc (call_of (tcp_plan_of d) other ∷ h)
  call_of-MainLedger (at_select l) pc h v = record { up = v.up; down = v.down; sized = v.sized }
  call_of-MainLedger (at_source first l) pc h v = record {
    up = v.up;
    down = v.down;
    sized = v.sized;
  }
  call_of-MainLedger (at_source second l) pc h v = record {
    up = rw (int_eq_ne d.to_in d.tun (λ e. apart.tun_to (sym e)), append-nil) v.up;
    down = rw (int_eq_ne d.to_in d.from_in (λ e. apart.from_to (sym e)), append-nil) v.down;
    sized = v.sized;
  }
  call_of-MainLedger (at_sink first bytes l) pc h v = record {
    up = rw (int_eq_ne d.from_out d.to_out (λ e. apart.to_from_out (sym e)), append-nil) v.up;
    down = rw (int_eq_ne d.from_out d.tun (λ e. apart.tun_from_out (sym e)), append-nil) v.down;
    sized = v.sized;
  }
  call_of-MainLedger (at_sink second bytes l) pc h v = record {
    up = v.up;
    down = v.down;
    sized = v.sized;
  }
