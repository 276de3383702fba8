-- ===== src/Tests/SipSettling.antt =====
-- SIP hosts that become quiet settle, and deliver what came in.
use multivpn.Base64.Encode.{IsBytes}
use multivpn.Base64.{
  base64_encode, encoded_length, encode_loop, encode_group, digit, fill, pad, base64_decode,
  ensure_table, build_decoding_table, decoded_length, decode_loop, sextet, decode_group,
}
use multivpn.CString.{c_str, contains, strncpy}
use multivpn.Globals.{zeroed}
use multivpn.Prelude.Int.{pos}
use multivpn.Prelude.{
  ◌≡◌, ◌∙◌, Bool, true, false, refl, sym, List, [], ◌∷◌, ◌++◌, codes, replicate, Exec, ok, fault,
  arith,
}
use multivpn.SipHost.Delivery.{IsResting, sip_hosts-deliver}
use multivpn.SipHost.Fairness.{IsSettled, sip_turns-settle}
use multivpn.SipHost.Receiving.{arrived}
use multivpn.SipHost.Turning.{IsCalm, behind_down}
use multivpn.SipHost.Turns.{Turn, main_turn, sender_turn, receiver_turn, take_turns}
use multivpn.SipHost.{fds_of, SipHost, begun}
use multivpn.SipHost.Effort.{waits}
use multivpn.SipPlugin.{copy_payload, zeros}
use multivpn.SipPlugin.Frames.{headers}
use multivpn.SipThreads.{sender_step, receiver_step, receiver_event}
use multivpn.TcpPlugin.Streams.{fetched, written}
use multivpn.Tests.Quiet.{turning, turning_to, turning_from, from_pipe-IsIdle, to_pipe-IsFed}
use multivpn.Tests.Setup.{give, idle}
use multivpn.Tests.SipHosts.{wired, wired-IsReady, fresh_loop, run}
use multivpn.Tests.SipQuiet.{up, down, host, peer, turned-IsReady}

abbrev reached : Exec SipHost → SipHost
reached (ok s) = s
reached (fault e) = begun wired fresh_loop fresh_loop

abbrev goes : Exec SipHost → Bool
goes (ok s) = true
goes (fault e) = false

goes-reached : (x : Exec SipHost) → goes x ≡ true → x ≡ ok (reached x)
goes-reached (ok s) e = refl
goes-reached (fault x) e = absurd (ground arith)

-- The threads first have a few turns, and then many, in this order.
abbrev early : List Turn
early = sender_turn ∷ receiver_turn ∷ main_turn ∷ main_turn ∷ []

abbrev late : List Turn
late = replicate 24 sender_turn ++ receiver_turn ∷ replicate 20 main_turn

abbrev host_then : SipHost
host_then = reached (take_turns give (pos 8) (turning up down) early host.last)

abbrev host_last : SipHost
host_last = reached (take_turns give (pos 8) (turning up down) late host_then)

abbrev peer_then : SipHost
peer_then = reached (take_turns give (pos 8) (turning down up) early peer.last)

abbrev peer_last : SipHost
peer_last = reached (take_turns give (pos 8) (turning down up) late peer_then)

host_counts :
    (waits (turning up down) host_then.machine ≡ 3)
    × (behind_down (turning up down) host_then ≡ 2)
    × (headers host_last.machine.trace ≡ codes "AQID" ∷ [])
    × (written (pos 3) host_last.machine.trace ≡ down)
    × (arrived host_last.events ≡ codes "CQg=" ∷ [])
unfolding run base64_encode encoded_length encode_loop encode_group digit fill pad give zeroed c_str
    sender_step receiver_step receiver_event idle copy_payload contains strncpy zeros base64_decode
    ensure_table build_decoding_table decoded_length decode_loop sextet decode_group
host_counts = (refl, refl, refl, refl, refl)

peer_counts :
    (waits (turning down up) peer_then.machine ≡ 2)
    × (behind_down (turning down up) peer_then ≡ 3)
    × (headers peer_last.machine.trace ≡ codes "CQg=" ∷ [])
    × (written (pos 3) peer_last.machine.trace ≡ up)
    × (arrived peer_last.events ≡ codes "AQID" ∷ [])
unfolding run base64_encode encoded_length encode_loop encode_group digit fill pad give zeroed c_str
    sender_step receiver_step receiver_event idle copy_payload contains strncpy zeros base64_decode
    ensure_table build_decoding_table decoded_length decode_loop sextet decode_group
peer_counts = (refl, refl, refl, refl, refl)

up-IsBytes : IsBytes up
up-IsBytes = (omega arith, (omega arith, (omega arith, tt)))

down-IsBytes : IsBytes down
down-IsBytes = (omega arith, (omega arith, tt))

host-IsCalm : IsCalm (turning up down) host.last.machine.trace (fds_of wired)
unfolding run base64_encode encoded_length encode_loop encode_group digit fill pad give zeroed c_str
    sender_step receiver_step receiver_event idle copy_payload contains strncpy zeros base64_decode
    ensure_table build_decoding_table decoded_length decode_loop sextet decode_group
host-IsCalm = record {
  apart = (wired-IsReady (pos 3) (pos 7)).apart;
  to_plugin = turning_to up down;
  from_plugin = turning_from up down;
  idle = from_pipe-IsIdle up down host.last.machine.trace refl;
  fed = to_pipe-IsFed up down host.last.machine.trace refl;
}

host-IsResting :
    IsResting give 5
      (turning up down)
      wired
      fresh_loop
      fresh_loop
      host.last
      host_then
      host_last
      early
      late
unfolding run base64_encode encoded_length encode_loop encode_group digit fill pad give zeroed c_str
    sender_step receiver_step receiver_event idle copy_payload contains strncpy zeros base64_decode
    ensure_table build_decoding_table decoded_length decode_loop sextet decode_group
host-IsResting = record {
  ready = turned-IsReady up down up-IsBytes;
  reach = host.reach;
  calm = host-IsCalm;
  two_main = omega arith;
  one_receiver = omega arith;
  to_u = goes-reached (take_turns give (pos 8) (turning up down) early host.last) refl;
  enough_sender = omega (arith, host_counts.0);
  enough_main = omega (arith, host_counts.1);
  to_t = goes-reached (take_turns give (pos 8) (turning up down) late host_then) refl;
}

peer-IsCalm : IsCalm (turning down up) peer.last.machine.trace (fds_of wired)
unfolding run base64_encode encoded_length encode_loop encode_group digit fill pad give zeroed c_str
    sender_step receiver_step receiver_event idle copy_payload contains strncpy zeros base64_decode
    ensure_table build_decoding_table decoded_length decode_loop sextet decode_group
peer-IsCalm = record {
  apart = (wired-IsReady (pos 3) (pos 7)).apart;
  to_plugin = turning_to down up;
  from_plugin = turning_from down up;
  idle = from_pipe-IsIdle down up peer.last.machine.trace refl;
  fed = to_pipe-IsFed down up peer.last.machine.trace refl;
}

peer-IsResting :
    IsResting give 5
      (turning down up)
      wired
      fresh_loop
      fresh_loop
      peer.last
      peer_then
      peer_last
      early
      late
unfolding run base64_encode encoded_length encode_loop encode_group digit fill pad give zeroed c_str
    sender_step receiver_step receiver_event idle copy_payload contains strncpy zeros base64_decode
    ensure_table build_decoding_table decoded_length decode_loop sextet decode_group
peer-IsResting = record {
  ready = turned-IsReady down up down-IsBytes;
  reach = peer.reach;
  calm = peer-IsCalm;
  two_main = omega arith;
  one_receiver = omega arith;
  to_u = goes-reached (take_turns give (pos 8) (turning down up) early peer.last) refl;
  enough_sender = omega (arith, peer_counts.0);
  enough_main = omega (arith, peer_counts.1);
  to_t = goes-reached (take_turns give (pos 8) (turning down up) late peer_then) refl;
}

sip_turns-settle_example :
    (t : SipHost) × (take_turns give (pos 8) (turning up down) late host_then ≡ ok t)
    × IsSettled (turning up down) wired t
sip_turns-settle_example =
    sip_turns-settle give 5 (turning up down) wired fresh_loop fresh_loop host.last host_then early
      late (turned-IsReady up down up-IsBytes) host.reach host-IsCalm host-IsResting.two_main
      host-IsResting.one_receiver host-IsResting.to_u host-IsResting.enough_sender
      host-IsResting.enough_main

sip_hosts-deliver_example :
    (written (pos 3) peer_last.machine.trace
      ≡ fetched (turning up down) (pos 3) host_last.machine.trace)
    × (written (pos 3) host_last.machine.trace
        ≡ fetched (turning down up) (pos 3) peer_last.machine.trace)
sip_hosts-deliver_example =
    sip_hosts-deliver give give 5 5 (turning up down) (turning down up) wired wired fresh_loop
      fresh_loop fresh_loop fresh_loop host.last host_then host_last peer.last peer_then peer_last
      early late early late host-IsResting peer-IsResting (peer_counts.4 ∙ sym host_counts.2)
      (host_counts.4 ∙ sym peer_counts.2)
