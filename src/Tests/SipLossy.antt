-- ===== src/Tests/SipLossy.antt =====
-- A request that arrives twice.
use mathlib.Core.List.{IsPrefix, Memᴰ, flatten}
use mathlib.Core.Path.{subst}
use multivpn.Base64.Encode.{rfc4648}
use multivpn.Base64.{
  fill, base64_decode, ensure_table, build_decoding_table, decoded_length, decode_loop, sextet,
  decode_group,
}
use multivpn.CString.{c_str, contains, strncpy}
use multivpn.Prelude.Int.{pos}
use multivpn.Prelude.{◌≡◌, refl, sym, List, [], ◌∷◌, map, Bytes, All, codes}
use multivpn.SipEvents.Stream.{arrival}
use multivpn.SipHost.Lossy.{sip_hosts-carry}
use multivpn.SipHost.Receiving.{arrived}
use multivpn.SipPlugin.Frames.{headers}
use multivpn.SipPlugin.{copy_payload, zeros}
use multivpn.SipThreads.{sender_step, receiver_step, receiver_event}
use multivpn.TcpPlugin.Streams.{fetched, written}
use multivpn.Tests.Setup.{give, idle}
use multivpn.Tests.SipHosts.{
  wired, wired-IsReady, fresh_loop, Run, main, receiver, event, run, sending, carried_over,
}
use multivpn.Tests.SipPipes.{sip_piped}

-- The second host takes the request twice, and writes the frame twice.
abbrev twice : Run (sip_piped (pos 5) (pos 7))
twice = run (sip_piped (pos 5) (pos 7)) (
    receiver
    ∷ event (arrival (codes "AQID"))
    ∷ receiver
    ∷ receiver
    ∷ event (arrival (codes "AQID"))
    ∷ receiver
    ∷ receiver
    ∷ main
    ∷ main
    ∷ main
    ∷ [])

twice_bytes :
    (written (pos 3) twice.last.machine.trace ≡ 1 ∷ 2 ∷ 3 ∷ 1 ∷ 2 ∷ 3 ∷ [])
    × (arrived twice.last.events ≡ codes "AQID" ∷ codes "AQID" ∷ [])
unfolding give c_str run sender_step receiver_step receiver_event idle copy_payload contains strncpy
    zeros base64_decode ensure_table build_decoding_table decoded_length decode_loop sextet
    decode_group fill
twice_bytes = (refl, refl)

twice_known :
    All (λ header. Memᴰ header (headers sending.last.machine.trace)) (arrived twice.last.events)
twice_known =
    let sent : Memᴰ (codes "AQID") (headers sending.last.machine.trace) =
      subst (Memᴰ (codes "AQID")) (sym carried_over.0) (Memᴰ.head refl) in
    subst (All (λ header. Memᴰ header (headers sending.last.machine.trace))) (sym twice_bytes.1)
      (sent, (sent, tt))

sip_hosts-carry_example :
    (gone fs : List Bytes) × (headers sending.last.machine.trace ≡ map rfc4648 gone)
    × IsPrefix
        (flatten gone)
        (fetched (sip_piped (pos 3) (pos 7)) (pos 3) sending.last.machine.trace)
    × (arrived twice.last.events ≡ map rfc4648 fs)
    × All (λ frame. Memᴰ frame gone) fs
    × IsPrefix (written (pos 3) twice.last.machine.trace) (flatten fs)
sip_hosts-carry_example =
    sip_hosts-carry give give 5 5 (pos 8) (pos 8) (sip_piped (pos 3) (pos 7))
      (sip_piped (pos 5) (pos 7)) wired wired fresh_loop fresh_loop fresh_loop fresh_loop
      sending.last twice.last (wired-IsReady (pos 3) (pos 7)) (wired-IsReady (pos 5) (pos 7))
      sending.reach twice.reach twice_known
