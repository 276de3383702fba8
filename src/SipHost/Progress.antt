-- ===== src/SipHost/Progress.antt =====
-- The sending thread of a SIP host goes on without a fault.
use mathlib.Core.List.{append-nil, map-append}
use mathlib.Core.Path.{subst}
use multivpn.Base64.Encode.{IsBytes, rfc4648, length-rfc4648, base64_encode-rfc4648, Supplies-Sized}
use multivpn.Base64.Lookup.{Supplies}
use multivpn.Base64.{Malloc, Encoded}
use multivpn.CString.{c_str}
use multivpn.Machine.{Machine, ◌>>=◌}
use multivpn.Os.{Os, Reply, read, select, fd_add, selected}
use multivpn.Prelude.Int.{ℤ, is_pos, int_eq_refl}
use multivpn.Prelude.{
  ◌^◌, ◌≡◌, ◌<◌, refl, sym, ◌∙◌, ap, List, [], ◌∷◌, ◌++◌, Bytes, All, All-append, length, some, ok,
  inl, inr, Bool-cases, arith,
}
use multivpn.SipPlugin.Frames.{IsFrame}
use multivpn.SipPlugin.Tunnel.{Sends, take_signed}
use multivpn.SipThreads.{Sender, tun_select, tun_read, tun_request, tun_uac, tun_send, sender_step}
use multivpn.TcpPlugin.Relay.{IsPosix, take-overlay, length-overlay}
use multivpn.TcpPlugin.{Loop, overlay}
use multivpn.SipHost.Sending.{encoded, SenderLedger, sender_call_of}

All-last : (fs : List Bytes) (frame : Bytes) → All IsFrame (fs ++ frame ∷ []) → IsFrame frame
All-last [] frame h = h.0
All-last (f ∷ fs) frame h = All-last fs frame h.1

module _ (malloc : Malloc) (maxfd : ℤ) (os : Os) (supplies : Supplies malloc) (sends : Sends os)
    (posix : IsPosix os) where
  -- What the next read of the pipe brings are bytes.
  abbrev pub Comes : Machine → Type 0
  Comes m = IsBytes (os m.trace (read (m.globals.pipe_to_plugin).0 1504)).bytes

  -- The thread makes its next call without a fault, and keeps its ledger.
  abbrev pub Goes : Sender → Machine → Type 0
  Goes pc m =
      (pc' : Sender) × (sender_step malloc maxfd pc os m
        ≡ ok (pc', record m { trace = sender_call_of maxfd m pc ∷ m.trace }))
      × SenderLedger os pc' (record m { trace = sender_call_of maxfd m pc ∷ m.trace })

  tun_select-Goes :
      (l : Loop) (m : Machine) → SenderLedger os (tun_select l) m → Goes (tun_select l) m
  unfolding sender_step
  tun_select-Goes l m v =
      let pipe_in : ℤ = (m.globals.pipe_to_plugin).0 in
      let asked = fd_add pipe_in l.set_reading in
      let ready = selected asked (os m.trace (select maxfd asked)) in
      let l' : Loop = record l { set_reading = ready } in
      elim (Bool-cases (ready pipe_in)) [
        | inl e ↦ (
          tun_read l',
          rw e refl,
          record {
            gone = v.gone;
            here = v.here;
            took = v.took;
            sent = v.sent;
            holding = v.holding;
            framed = v.framed;
            sized = v.sized;
          },
        )
        | inr e ↦ (
          tun_select l',
          rw e refl,
          record {
            gone = v.gone;
            here = v.here;
            took = v.took;
            sent = v.sent;
            holding = v.holding;
            framed = v.framed;
            sized = v.sized;
          },
        )
      ]

  tun_read-Goes :
      (l : Loop) (m : Machine) → Comes m → SenderLedger os (tun_read l) m → Goes (tun_read l) m
  unfolding sender_step
  tun_read-Goes l m came v =
      let pipe_in : ℤ = (m.globals.pipe_to_plugin).0 in
      let x : Reply = os m.trace (read pipe_in 1504) in
      let h = posix.reads m.trace pipe_in 1504 in
      let filled = overlay x.bytes l.buffer in
      let exact = take-overlay x l.buffer h in
      let room = length-overlay x.bytes l.buffer (omega (arith, h.bounded, v.sized)) in
      let l' : Loop = record l { buffer = filled } in
      let kept : v.gone ++ v.here ≡ v.gone =
        ap (λ fs. v.gone ++ fs) v.holding ∙ append-nil v.gone in
      let encodes =
        base64_encode-rfc4648 malloc x.bytes (Supplies-Sized malloc supplies) came
          (omega (arith, h.bounded)) in
      elim (Bool-cases (is_pos x.ret)) [
        | inl e ↦ (
          tun_request (encoded x.bytes) l',
          rw (e, exact, ◌>>=◌, encodes, supplies.succeeds (length (rfc4648 x.bytes))) refl,
          record {
            gone = v.gone;
            here = x.bytes ∷ [];
            took = rw (int_eq_refl pipe_in, e, v.took ∙ kept);
            sent = v.sent;
            holding = (x.bytes, refl, refl);
            framed = All-append IsFrame v.gone (x.bytes ∷ []) (subst (All IsFrame) kept v.framed) (
              record {
                bytes = came;
                some_bytes = ground (arith, h.counted, e);
                bounded = h.bounded;
              },
              tt,
            );
            sized = room ∙ v.sized;
          },
        )
        | inr e ↦ (
          tun_select l',
          rw e refl,
          record {
            gone = v.gone;
            here = v.here;
            took = rw (int_eq_refl pipe_in, e, append-nil) v.took;
            sent = v.sent;
            holding = v.holding;
            framed = v.framed;
            sized = room ∙ v.sized;
          },
        )
      ]

  tun_request-Goes :
      (e : Encoded) (l : Loop) (m : Machine)
      → SenderLedger os (tun_request e l) m
      → Goes (tun_request e l) m
  unfolding sender_step
  tun_request-Goes e l m v = (
    tun_uac e l,
    rw (sends.creates m.trace (c_str m.globals.sip_remoteuri) (c_str m.globals.sip_fromuri)) refl,
    record {
      gone = v.gone;
      here = v.here;
      took = v.took;
      sent = v.sent;
      holding = v.holding;
      framed = v.framed;
      sized = v.sized;
    },
  )

  tun_uac-Goes :
      (e : Encoded) (l : Loop) (m : Machine)
      → SenderLedger os (tun_uac e l) m
      → Goes (tun_uac e l) m
  unfolding sender_step
  tun_uac-Goes e l m v =
      let (frame, one, same) = v.holding in
      let fits : IsFrame frame =
        (All-last v.gone frame (subst (λ fs. All IsFrame (v.gone ++ fs)) one v.framed)) in
      let text : e.encoded_data ≡ some (rfc4648 frame) =
        ap (λ (x : Encoded). x.encoded_data) same in
      let size : e.output_length ≡ length (rfc4648 frame) =
        ap (λ (x : Encoded). x.output_length) same in
      let short : length (rfc4648 frame) < 2 ^ 31 =
        omega (arith, length-rfc4648 frame, fits.bounded) in
      (
        tun_send (rfc4648 frame) l,
        rw (sends.creates_uac m.trace, text, size, take_signed _ (rfc4648 frame) refl short) refl,
        record {
          gone = v.gone;
          here = v.here;
          took = v.took;
          sent = v.sent;
          holding = (frame, one, refl);
          framed = v.framed;
          sized = v.sized;
        },
      )

  tun_send-Goes :
      (header : Bytes) (l : Loop) (m : Machine)
      → SenderLedger os (tun_send header l) m
      → Goes (tun_send header l) m
  unfolding sender_step
  tun_send-Goes header l m v =
      let (frame, one, same) = v.holding in
      (
        tun_select l,
        refl,
        record {
          gone = v.gone ++ frame ∷ [];
          here = [];
          took = v.took ∙ ap (λ fs. v.gone ++ fs) one ∙ sym (append-nil (v.gone ++ frame ∷ []));
          sent = rw (v.sent, same, map-append);
          holding = refl;
          framed =
              subst (All IsFrame)
                (ap (λ fs. v.gone ++ fs) one ∙ sym (append-nil (v.gone ++ frame ∷ []))) v.framed;
          sized = v.sized;
        },
      )

  pub sender_step-Goes : (pc : Sender) (m : Machine) → Comes m → SenderLedger os pc m → Goes pc m
  sender_step-Goes (tun_select l) m came v = tun_select-Goes l m v
  sender_step-Goes (tun_read l) m came v = tun_read-Goes l m came v
  sender_step-Goes (tun_request e l) m came v = tun_request-Goes e l m v
  sender_step-Goes (tun_uac e l) m came v = tun_uac-Goes e l m v
  sender_step-Goes (tun_send header l) m came v = tun_send-Goes header l m v
