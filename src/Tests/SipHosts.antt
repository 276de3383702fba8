-- ===== src/Tests/SipHosts.antt =====
-- SIP hosts at a concrete system: their threads run in a given order.
use mathlib.Core.List.{IsPrefix, flatten, foldl, append-nil}
use multivpn.Base64.{
  base64_encode, encoded_length, encode_loop, encode_group, digit, fill, pad, base64_decode,
  ensure_table, build_decoding_table, decoded_length, decode_loop, sextet, decode_group,
}
use multivpn.CString.{c_str, contains, strncpy}
use multivpn.SipPlugin.{copy_payload, zeros, sip_loop_tun_round}
use multivpn.Base64.Encode.{rfc4648}
use multivpn.Globals.{zeroed}
use multivpn.Machine.{Machine, pure, ◌>>=◌}
use multivpn.Os.{Os}
use multivpn.Prelude.Int.{ℤ, pos}
use multivpn.Prelude.{
  ℕ, ◌⊎◌, ◌≡◌, ◌∙◌, sym, refl, false, List, [], ◌∷◌, ◌++◌, map, Bytes, All, codes, replicate,
  length-replicate, ok, fault, inl, inr, Exec,
}
use multivpn.SipEvents.Stream.{arrival}
use multivpn.SipEvents.{Event, handle_events}
use multivpn.SipHost.Ledgers.{IsReady}
use multivpn.SipHost.Order.{sip_Reach-IsPrefix, sip_hosts-IsPrefix}
use multivpn.SipHost.Receiving.{arrived}
use multivpn.SipHost.{
  SipHost, by_main, main_call, sender_call, receiver_call, callback, begun, Reach, start, later,
}
use multivpn.SipPlugin.Frames.{IsFrame, headers}
use multivpn.SipThreads.{
  tun_select, Receiver, rx_handle, sender_step, receiver_step, receiver_event,
}
use multivpn.SipThreads.Rounds.{sender_finish, receiver_finish, sip_threads_alone}
use multivpn.TcpPlugin.Streams.{fetched, written}
use multivpn.TcpPlugin.{Loop}
use multivpn.Tests.Setup.{give, give-Supplies, idle}
use multivpn.Tests.SipPipes.{
  sip_piped, sip_piped-IsPosix, sip_piped-BringsBytes, sip_piped-Sends, sip_piped-to,
  sip_piped-from,
}

abbrev pub wired : Machine
wired = record idle {
  tfd = pos 3;
  globals = record zeroed { pipe_from_plugin = (pos 5, pos 6); pipe_to_plugin = (pos 7, pos 8) };
}

abbrev pub fresh_loop : Loop
fresh_loop = record { buffer = replicate 1505 0; set_reading = λ fd. false }

pub wired-IsReady : (a b : ℤ) → IsReady give (sip_piped a b) wired fresh_loop fresh_loop
unfolding idle
wired-IsReady a b = record {
  apart = record {
    tun_from = λ e. cc e;
    tun_to = λ e. cc e;
    from_to = λ e. cc e;
    tun_to_out = λ e. cc e;
    tun_from_out = λ e. cc e;
    to_from_out = λ e. cc e;
  };
  posix = sip_piped-IsPosix a b;
  brings = λ h n. sip_piped-BringsBytes a b h (pos 3) n;
  sends = sip_piped-Sends a b;
  supplies = give-Supplies;
  to_plugin = sip_piped-to a b;
  from_plugin = sip_piped-from a b;
  usable = tt;
  fetched_tun = refl;
  fetched_from = refl;
  frames_to = refl;
  written_tun = refl;
  written_from = refl;
  written_to = refl;
  sent_headers = refl;
  main_buffer = length-replicate {A = ℕ} 1505 0;
  sender_buffer = length-replicate {A = ℕ} 1505 0;
}

-- Whose turn it is, in a schedule of the threads and of PJSIP's callbacks.
pub data Turn : Type 0 where
  main sender receiver : Turn
  event : Event → Turn

pub record Run (os : Os) : Type 0 where
  pub last : SipHost
  pub reach : Reach give 5 (pos 8) os wired fresh_loop fresh_loop last

-- What a step gives, with the equation, unless it faults.
outcome : {A : Type 0} (x : Exec A) → ((a : A) × (x ≡ ok a)) ⊎ Unit {0}
outcome (ok a) = inl (a, refl)
outcome (fault e) = inr tt

is_inside : (pc : Receiver) → (pc ≡ rx_handle) ⊎ Unit {0}
is_inside rx_handle = inl refl
is_inside _ = inr tt

-- A turn that cannot be taken leaves the host as it is.
turn : {os : Os} → Run os → Turn → Run os
turn {os} r main = record { last = by_main os r.last; reach = later r.reach main_call }
turn {os} r sender = elim (outcome (sender_step give (pos 8) r.last.sender os r.last.machine)) [
  | inl ((pc, m), e) ↦ record {
    last = record r.last { sender = pc; machine = m };
    reach = later r.reach (sender_call pc m e);
  }
  | inr x ↦ r
]
turn {os} r receiver = elim (outcome (receiver_step r.last.receiver os r.last.machine)) [
  | inl ((pc, m), e) ↦ record {
    last = record r.last { receiver = pc; machine = m };
    reach = later r.reach (receiver_call pc m e);
  }
  | inr x ↦ r
]
turn {os} r (event e) = elim (is_inside r.last.receiver) [
  | inr x ↦ r
  | inl inside ↦ elim (outcome (receiver_event give 5 e os r.last.machine)) [
    | inl ((pc, m), ran) ↦ record {
      last = record r.last { receiver = pc; machine = m; events = r.last.events ++ e ∷ [] };
      reach = later r.reach (callback e pc m inside ran);
    }
    | inr x ↦ r
  ]
]

unfoldable pub run : (os : Os) → List Turn → Run os
unfolding turn is_inside outcome
run os = foldl turn (record { last = begun wired fresh_loop fresh_loop; reach = start })

-- The first host reads three bytes from its interface and sends them.
abbrev pub sending : Run (sip_piped (pos 3) (pos 7))
sending =
    run (sip_piped (pos 3) (pos 7))
      (receiver ∷ main ∷ main ∷ sender ∷ main ∷ sender ∷ sender ∷ main ∷ sender ∷ sender ∷ [])

-- The second host takes the request and writes the frame to its interface.
abbrev receiving : Run (sip_piped (pos 5) (pos 7))
receiving = run (sip_piped (pos 5) (pos 7)) (
    sender
    ∷ receiver
    ∷ event (arrival (codes "AQID"))
    ∷ sender
    ∷ receiver
    ∷ main
    ∷ receiver
    ∷ main
    ∷ main
    ∷ [])

pub carried_over :
    (headers sending.last.machine.trace ≡ codes "AQID" ∷ [])
    × (fetched (sip_piped (pos 3) (pos 7)) (pos 3) sending.last.machine.trace ≡ 1 ∷ 2 ∷ 3 ∷ [])
    × (written (pos 3) receiving.last.machine.trace ≡ 1 ∷ 2 ∷ 3 ∷ [])
    × (arrived receiving.last.events ≡ codes "AQID" ∷ [])
unfolding base64_encode encoded_length encode_loop encode_group digit fill pad give zeroed c_str run
    sender_step receiver_step receiver_event idle copy_payload contains strncpy zeros base64_decode
    ensure_table build_decoding_table decoded_length decode_loop sextet decode_group
carried_over = (refl, refl, refl, refl)

sip_Reach-IsPrefix_example :
    ((gone : List Bytes) × (headers sending.last.machine.trace ≡ map rfc4648 gone)
      × All IsFrame gone
      × IsPrefix
          (flatten gone)
          (fetched (sip_piped (pos 3) (pos 7)) (pos 3) sending.last.machine.trace))
    × ((fs : List Bytes)
        → All IsFrame fs
        → arrived sending.last.events ≡ map rfc4648 fs
        → IsPrefix (written (pos 3) sending.last.machine.trace) (flatten fs))
sip_Reach-IsPrefix_example =
    sip_Reach-IsPrefix give 5 (pos 8) (sip_piped (pos 3) (pos 7)) wired fresh_loop fresh_loop
      sending.last (wired-IsReady (pos 3) (pos 7)) sending.reach

sip_hosts-IsPrefix_example :
    IsPrefix
      (written (pos 3) receiving.last.machine.trace)
      (fetched (sip_piped (pos 3) (pos 7)) (pos 3) sending.last.machine.trace)
sip_hosts-IsPrefix_example =
    sip_hosts-IsPrefix give give 5 5 (pos 8) (pos 8) (sip_piped (pos 3) (pos 7))
      (sip_piped (pos 5) (pos 7)) wired wired fresh_loop fresh_loop fresh_loop fresh_loop
      sending.last receiving.last (wired-IsReady (pos 3) (pos 7)) (wired-IsReady (pos 5) (pos 7))
      sending.reach receiving.reach
      ([], append-nil (arrived receiving.last.events) ∙ carried_over.3 ∙ sym carried_over.0)

sip_threads_alone_test :
    ((sender_step give (pos 8) (tun_select fresh_loop) >>= sender_finish give (pos 8) 4)
        (sip_piped (pos 3) (pos 7))
        wired
      ≡ (sip_loop_tun_round give (pos 8) fresh_loop >>= λ l. pure (tun_select l))
          (sip_piped (pos 3) (pos 7))
          wired)
    × ((receiver_event give 5 (arrival (codes "AQID")) >>= receiver_finish 2)
          (sip_piped (pos 3) (pos 7))
          wired
        ≡ (handle_events give 5 (arrival (codes "AQID") ∷ []) >>= λ done. pure rx_handle)
            (sip_piped (pos 3) (pos 7))
            wired)
sip_threads_alone_test =
    sip_threads_alone give (pos 8) fresh_loop 5 (arrival (codes "AQID")) (sip_piped (pos 3) (pos 7))
      wired
