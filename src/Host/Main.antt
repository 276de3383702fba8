-- ===== src/Host/Main.antt =====
-- What the main thread has read and written, at each of its calls.
use mathlib.Core.List.{append-nil}
use multivpn.Globals.{block_size}
use multivpn.Host.{Fds, Apart}
use multivpn.Os.{Os, Call, Reply, read, selected}
use multivpn.Prelude.Int.{is_pos, int_eq_refl, int_eq_ne}
use multivpn.Prelude.{
  ◌≡◌, sym, ◌∙◌, List, [], ◌∷◌, ◌++◌, Bytes, length, inl, inr, Bool-cases, arith,
}
use multivpn.TcpPlugin.Relay.{IsPosix, take-overlay, length-overlay}
use multivpn.TcpPlugin.Streams.{fetched, written}
use multivpn.TcpPlugin.{Loop}
use multivpn.Threads.{
  Plan, Side, first, second, Pc, at_select, at_source, at_sink, asked, call_of, next_pc, main_plan,
}

-- The bytes that a thread has read and not yet written, in one direction.
abbrev pub held : Side → Pc → Bytes
held first (at_sink first bytes l) = bytes
held second (at_sink second bytes l) = bytes
held _ _ = []

abbrev pub loop_of : Pc → Loop
loop_of (at_select l) = l
loop_of (at_source side l) = l
loop_of (at_sink side bytes l) = l

abbrev pub plan_of : Fds → Plan
plan_of d = main_plan d.tun d.from_in d.to_out

-- What was read from the interface was written to the pipe or is still held, and likewise the other
-- way.
pub record MainLedger (os : Os) (d : Fds) (pc : Pc) (h : List Call) : Type 0 where
  pub up : fetched os d.tun h ≡ written d.to_out h ++ held first pc
  pub down : fetched os d.from_in h ≡ written d.tun h ++ held second pc
  pub sized : length (loop_of pc).buffer ≡ block_size

module _ (os : Os) (d : Fds) (apart : Apart d) (p : IsPosix os) where
  pub next_pc-MainLedger :
      (pc : Pc) (h : List Call)
      → MainLedger os d pc h
      → MainLedger os d
          (next_pc (plan_of d) pc (os h (call_of (plan_of d) pc)))
          (call_of (plan_of d) pc ∷ h)
  next_pc-MainLedger (at_select l) h v =
      let asks = asked (plan_of d) l in
      let ready = selected asks (os h (call_of (plan_of d) (at_select l))) in
      elim (Bool-cases (ready d.tun)) [
        | inl e ↦ rw e (record { up = v.up; down = v.down; sized = v.sized })
        | inr e ↦ elim (Bool-cases (ready d.from_in)) [
          | inl f ↦ rw (e, f) (record { up = v.up; down = v.down; sized = v.sized })
          | inr f ↦ rw (e, f) (record { up = v.up; down = v.down; sized = v.sized })
        ]
      ]
  next_pc-MainLedger (at_source first l) h v =
      let r : Reply = os h (read d.tun 1504) in
      let is_read = p.reads h d.tun 1504 in
      let room = length-overlay r.bytes l.buffer (omega (arith, is_read.bounded)) ∙ v.sized in
      let apart_down = int_eq_ne d.tun d.from_in apart.tun_from in
      elim (Bool-cases (is_pos r.ret)) [
        | inl e ↦ rw e (record {
          up = rw (int_eq_refl d.tun, e, take-overlay r l.buffer is_read, v.up, append-nil);
          down = rw (apart_down, append-nil) v.down;
          sized = room;
        })
        | inr e ↦ rw e (record {
          up = rw (int_eq_refl d.tun, e, append-nil) v.up;
          down = rw (apart_down, append-nil) v.down;
          sized = room;
        })
      ]
  next_pc-MainLedger (at_source second l) h v =
      let r : Reply = os h (read d.from_in 1505) in
      let is_read = p.reads h d.from_in 1505 in
      let room = length-overlay r.bytes l.buffer (omega (arith, is_read.bounded)) ∙ v.sized in
      let apart_up = int_eq_ne d.from_in d.tun (λ e. apart.tun_from (sym e)) in
      elim (Bool-cases (is_pos r.ret)) [
        | inl e ↦ rw e (record {
          up = rw (apart_up, append-nil) v.up;
          down = rw (int_eq_refl d.from_in, e, take-overlay r l.buffer is_read, v.down, append-nil);
          sized = room;
        })
        | inr e ↦ rw e (record {
          up = rw (apart_up, append-nil) v.up;
          down = rw (int_eq_refl d.from_in, e, append-nil) v.down;
          sized = room;
        })
      ]
  next_pc-MainLedger (at_sink first bytes l) h v = record {
    up = rw (int_eq_refl d.to_out, append-nil) v.up;
    down = rw (int_eq_ne d.to_out d.tun (λ e. apart.tun_to_out (sym e)), append-nil) v.down;
    sized = v.sized;
  }
  next_pc-MainLedger (at_sink second bytes l) h v = record {
    up = rw (int_eq_ne d.tun d.to_out apart.tun_to_out, append-nil) v.up;
    down = rw (int_eq_refl d.tun, append-nil) v.down;
    sized = v.sized;
  }
