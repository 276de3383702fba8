-- ===== src/SipPlugin/Refusals.antt =====
-- Requests that `on_rx_request` of sip_plugin.c does not take, and those that overrun it.
use multivpn.Base64.Errors.{base64_decode_odd}
use multivpn.Base64.Encode.{IsBytes, rfc4648, length-rfc4648}
use multivpn.Base64.Lookup.{Supplies, IsUsable}
use multivpn.Base64.{Malloc, built}
use multivpn.CString.Laws.{NonZero}
use multivpn.CString.{c_str}
use multivpn.Globals.{GlobalV}
use multivpn.Machine.{Machine, ◌>>=◌}
use multivpn.Os.{Os, create_request, create_uac, send_msg, write_null, respond_stateless}
use multivpn.Prelude.Int.{pos, to_signed}
use multivpn.Prelude.{
  ℕ, ◌%◌, ◌^◌, ◌<◌, ◌≡◌, ◌≢◌, ◌↔◌, refl, true, false, ◌∷◌, Bytes, All, codes, length, none, some,
  Option, ok, fault, out_of_bounds, arith,
}
use multivpn.SipPlugin.Header.{copy_payload_lem}
use multivpn.SipPlugin.Tunnel.{Sends, sip_envia_datos-send_msg}
use multivpn.SipPlugin.{sip_envia_datos, on_rx_request, sip_check_parameters}

-- A request that is not OPTIONS, and one without the header, are answered 500 and nothing else
-- happens.
pub on_rx_request_refuses :
    (malloc : Malloc) (junk : ℕ) (header : Option Bytes) (os : Os) (s : Machine)
    → (on_rx_request malloc junk (record { is_options = false; multivpn_header = header }) os s
        ≡ ok (true, record s { trace = respond_stateless 500 (codes "Go home") ∷ s.trace }))
      × (on_rx_request malloc junk (record { is_options = true; multivpn_header = none }) os s
          ≡ ok (
            true,
            record s { trace = respond_stateless 500 (codes "Go home and sleep") ∷ s.trace },
          ))
unfolding on_rx_request
on_rx_request_refuses malloc junk header os s = (refl, refl)

-- A header of fewer than 2048 bytes, none of them NUL, whose length is no multiple of four, is
-- answered 666 as if it were base64 text, and NULL is written to the pipe with a length that was
-- never set. The allocator does not fail, and the decoding table is unset or was built.
pub on_rx_request_malformed :
    (malloc : Malloc) (junk : ℕ) (header : Bytes) (os : Os) (s : Machine)
    → Supplies malloc
    → IsUsable s.decoding_table
    → All NonZero header
    → length header < 2048
    → length header % 4 ≢ 0
    → (table : Bytes) × (on_rx_request malloc junk
          (record { is_options = true; multivpn_header = some header })
          os
          s
        ≡ ok (
          true,
          record s {
            trace =
                respond_stateless 666 (codes "Traffic Accepted")
                ∷ write_null (s.globals.pipe_from_plugin).1 (to_signed (junk % 2 ^ 32))
                ∷ s.trace;
            decoding_table = built table;
          },
        ))
unfolding on_rx_request
on_rx_request_malformed malloc junk header os s m u z h odd =
    let (table, e) = base64_decode_odd malloc s.decoding_table junk header m u odd in
    (table, rw ((copy_payload_lem header os s).0 z h, ◌>>=◌, e))

on_rx_request_overrun :
    (malloc : Malloc) (junk : ℕ) (header : Bytes) (os : Os) (s : Machine)
    → 2048 < length header
    → on_rx_request malloc junk (record { is_options = true; multivpn_header = some header }) os s
      ≡ fault out_of_bounds
unfolding on_rx_request
on_rx_request_overrun malloc junk header os s h = rw ((copy_payload_lem header os s).1 h, ◌>>=◌)

-- A frame of more than 1536 bytes is sent like any other, with result 0, but its header is longer
-- than the 2048 bytes of the receiver's buffer, which writes behind its end. PJSIP takes the
-- request, the sender's allocator does not fail, and the frame has fewer than 2 ^ 20 bytes, each below 256.
pub sip_tunnel_oversize :
    (malloc malloc' : Malloc) (junk : ℕ) (datos : Bytes) (os os' : Os) (s s' : Machine)
    → Supplies malloc
    → Sends os
    → IsBytes datos
    → 1536 < length datos
    → length datos < 2 ^ 20
    → (header : Bytes) × (t : Machine) × (sip_envia_datos malloc datos os (s) ≡ ok (pos 0, t))
      × (t.trace
          ≡ send_msg header
            ∷ create_uac
            ∷ create_request (c_str s.globals.sip_remoteuri) (c_str s.globals.sip_fromuri)
            ∷ s.trace)
      × (on_rx_request malloc' junk
            (record { is_options = true; multivpn_header = some header })
            os'
            s'
          ≡ fault out_of_bounds)
sip_tunnel_oversize malloc malloc' junk datos os os' s s' m p bytes big h = (
  rfc4648 datos,
  _,
  sip_envia_datos-send_msg malloc datos os s m p bytes h,
  refl,
  on_rx_request_overrun malloc' junk (rfc4648 datos) os' s' (omega (arith, length-rfc4648 datos)),
)

-- The check of the parameters depends on the SIP port alone: it succeeds exactly when the port is
-- not 0, whatever the transport and the remote URI are.
pub sip_check_parameters_iff :
    (g : GlobalV) (transport remoteuri : Bytes)
    → (sip_check_parameters (record g { sip_transport = transport; sip_remoteuri = remoteuri })
        ≡ pos 0)
      ↔ (g.sip_port ≢ 0)
unfolding sip_check_parameters
sip_check_parameters_iff g transport remoteuri = ((λ h. ground arith), (λ h. ground arith))
