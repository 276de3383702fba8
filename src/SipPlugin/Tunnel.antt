-- ===== src/SipPlugin/Tunnel.antt =====
-- A frame goes through the SIP tunnel unchanged: `sip_envia_datos` at one end, `on_rx_request` at
-- the other.
use multivpn.Base64.Decode.{base64_decode-rfc4648}
use multivpn.Base64.Encode.{IsBytes, rfc4648, length-rfc4648, base64_encode-rfc4648, Supplies-Sized}
use multivpn.Base64.Lookup.{Supplies, IsUsable, Inverts}
use multivpn.Base64.{Malloc, built}
use multivpn.CString.{c_str}
use multivpn.Globals.{block_size}
use multivpn.Machine.{Machine, ◌>>=◌}
use multivpn.Os.{Os, Call, create_request, create_uac, send_msg, write, respond_stateless}
use multivpn.Prelude.Int.{pos, to_signed, pos_part}
use multivpn.Prelude.{
  ℕ, ◌%◌, ◌^◌, ◌<◌, ◌≡◌, refl, true, List, ◌∷◌, Bytes, codes, length, take, some, take_all, ok,
  arith,
}
use multivpn.SipPlugin.Header.{copy_payload_lem, rfc4648-nonzero}
use multivpn.SipPlugin.{on_rx_request, sip_envia_datos}

-- PJSIP takes the request: each of its calls succeeds.
pub record Sends (os : Os) : Type 0 where
  pub creates :
      (h : List Call) (target from : Bytes) → (os h (create_request target from)).ret ≡ pos 0
  pub creates_uac : (h : List Call) → (os h create_uac).ret ≡ pos 0
  pub sends : (h : List Call) (header : Bytes) → (os h (send_msg header)).ret ≡ pos 0

pub take_signed :
    (n : ℕ) (xs : Bytes)
    → length xs ≡ n
    → n < 2 ^ 31
    → take (pos_part (to_signed (n % 2 ^ 32))) xs ≡ xs
take_signed n xs e h =
    let small : pos_part (to_signed (n % 2 ^ 32)) ≡ n = ground arith in
    rw small (take_all n xs (omega arith))

-- The sender sends the RFC 4648 text of the frame as the header, and returns 0.
pub sip_envia_datos-send_msg :
    (malloc : Malloc) (datos : Bytes) (os : Os) (s : Machine)
    → Supplies malloc
    → Sends os
    → IsBytes datos
    → length datos < 2 ^ 20
    → sip_envia_datos malloc datos os s
      ≡ ok (
        pos 0,
        record s {
          trace =
              send_msg (rfc4648 datos)
              ∷ create_uac
              ∷ create_request (c_str s.globals.sip_remoteuri) (c_str s.globals.sip_fromuri)
              ∷ s.trace;
        },
      )
unfolding sip_envia_datos
sip_envia_datos-send_msg malloc datos os s m p bytes h =
    let fits : length (rfc4648 datos) < 2 ^ 31 = omega (arith, length-rfc4648 datos) in
    rw (
      base64_encode-rfc4648 malloc datos (Supplies-Sized malloc m) bytes (omega arith),
      p.creates _ _ _,
      p.creates_uac _,
      m.succeeds (length (rfc4648 datos)),
      take_signed _ (rfc4648 datos) refl fits,
      p.sends _ (rfc4648 datos),
    )

-- The receiver, given that header, writes the frame to the pipe and answers 666.
pub on_rx_request-writes :
    (malloc : Malloc) (junk a : ℕ) (datos : Bytes) (os : Os) (s : Machine)
    → Supplies malloc
    → IsUsable s.decoding_table
    → IsBytes (a ∷ datos)
    → length (a ∷ datos) < 1534
    → (table : Bytes) × (on_rx_request malloc junk
          (record { is_options = true; multivpn_header = some (rfc4648 (a ∷ datos)) })
          os
          s
        ≡ ok (
          true,
          record s {
            trace =
                respond_stateless 666 (codes "Traffic Accepted")
                ∷ write (s.globals.pipe_from_plugin).1 (a ∷ datos)
                ∷ s.trace;
            decoding_table = built table;
          },
        ))
      × Inverts table
unfolding on_rx_request
on_rx_request-writes malloc junk a datos os s m u bytes h =
    let frame : Bytes = a ∷ datos in
    let fits : length (rfc4648 frame) < 2048 = omega (arith, length-rfc4648 frame) in
    let (table, e, inv) = base64_decode-rfc4648 malloc s.decoding_table junk a datos m u bytes in
    (
      table,
      rw (
        (copy_payload_lem (rfc4648 frame) os s).0 (rfc4648-nonzero frame bytes) fits,
        ◌>>=◌,
        e,
        take_signed (length frame) frame refl (omega arith),
      ),
      inv,
    )

-- A frame of 1 to 1504 bytes, the most that a round reads, goes through the tunnel unchanged: the
-- sender returns 0 and sends one request, and the receiver of that request's header writes the
-- same bytes, once, to the pipe of its main thread and answers 666, with a decoding table that
-- serves for the next request. The bytes are below 256, PJSIP takes the request, the allocators do not fail, and the
-- receiver's table is unset or was built.
pub sip_tunnel :
    (malloc malloc' : Malloc) (junk a : ℕ) (datos : Bytes) (os os' : Os) (s s' : Machine)
    → Supplies malloc
    → Supplies malloc'
    → Sends os
    → IsUsable s'.decoding_table
    → IsBytes (a ∷ datos)
    → length (a ∷ datos) < block_size
    → (header : Bytes) × (table : Bytes) × (sip_envia_datos malloc (a ∷ datos) os s
        ≡ ok (
          pos 0,
          record s {
            trace =
                send_msg header
                ∷ create_uac
                ∷ create_request (c_str s.globals.sip_remoteuri) (c_str s.globals.sip_fromuri)
                ∷ s.trace;
          },
        ))
      × (on_rx_request malloc' junk
            (record { is_options = true; multivpn_header = some header })
            os'
            s'
          ≡ ok (
            true,
            record s' {
              trace =
                  respond_stateless 666 (codes "Traffic Accepted")
                  ∷ write (s'.globals.pipe_from_plugin).1 (a ∷ datos)
                  ∷ s'.trace;
              decoding_table = built table;
            },
          ))
      × IsUsable (built table)
sip_tunnel malloc malloc' junk a datos os os' s s' m m' p u bytes h =
    let (table, received, inv) =
      on_rx_request-writes malloc' junk a datos os' s' m' u bytes (omega arith) in
    (
      rfc4648 (a ∷ datos),
      table,
      sip_envia_datos-send_msg malloc (a ∷ datos) os s m p bytes (omega arith),
      received,
      inv,
    )
