-- ===== src/Tests/Tunnels.antt =====
-- The tunnels of sip_plugin.c and tcp_plugin.c at concrete inputs.
use multivpn.Base64.Lookup.{IsUsable}
use multivpn.Base64.{built}
use multivpn.CString.{c_str}
use multivpn.Machine.{Machine}
use multivpn.Os.{create_request, create_uac, send_msg, write, write_null, respond_stateless}
use multivpn.Prelude.Int.{pos, to_signed}
use multivpn.Prelude.{
  ℕ, ◌%◌, ◌^◌, ◌<◌, ◌≡◌, refl, true, false, ◌∷◌, Bytes, none, some, codes, length, replicate,
  length-replicate, ok, fault, out_of_bounds, arith, All,
}
use multivpn.SipPlugin.Refusals.{
  on_rx_request_refuses, on_rx_request_malformed, sip_tunnel_oversize,
}
use multivpn.SipPlugin.Tunnel.{Sends, sip_tunnel}
use multivpn.SipPlugin.{on_rx_request, sip_envia_datos}
use multivpn.Tests.Setup.{give, give-Supplies, calm, chatty, idle}

calm-Sends : Sends calm
calm-Sends = record { creates = λ h t f. refl; creates_uac = λ h. refl; sends = λ h x. refl }

sip_tunnel_example :
    (header : Bytes) × (table : Bytes) × (sip_envia_datos give (codes "frame") calm idle
      ≡ ok (
        pos 0,
        record idle {
          trace =
              send_msg header
              ∷ create_uac
              ∷ create_request (c_str idle.globals.sip_remoteuri) (c_str idle.globals.sip_fromuri)
              ∷ idle.trace;
        },
      ))
    × (on_rx_request give 1
          (record { is_options = true; multivpn_header = some header })
          chatty
          idle
        ≡ ok (
          true,
          record idle {
            trace =
                respond_stateless 666 (codes "Traffic Accepted")
                ∷ write (idle.globals.pipe_from_plugin).1 (codes "frame")
                ∷ idle.trace;
            decoding_table = built table;
          },
        ))
    × IsUsable (built table)
unfolding idle
sip_tunnel_example =
    sip_tunnel give give 1 b'f' (codes "rame") calm chatty idle idle give-Supplies give-Supplies
      calm-Sends tt (omega arith) (omega arith)

abbrev ones : ℕ → Bytes
ones n = replicate n 1

ones-IsBytes : (n : ℕ) → All (λ b. b < 256) (ones n)
ones-IsBytes ℕ.zero = tt
ones-IsBytes (ℕ.suc n) = (omega arith, ones-IsBytes n)

ones-long : (n : ℕ) → 1536 < n → 1536 < length (ones n)
ones-long n h = rw (length-replicate {A = ℕ} n 1) h

ones-short : (n : ℕ) → n < 2 ^ 20 → length (ones n) < 2 ^ 20
ones-short n h = rw (length-replicate {A = ℕ} n 1) h

sip_tunnel_oversize_example :
    (header : Bytes) × (t : Machine) × (sip_envia_datos give (ones 2000) calm idle ≡ ok (pos 0, t))
    × (t.trace
        ≡ send_msg header
          ∷ create_uac
          ∷ create_request (c_str idle.globals.sip_remoteuri) (c_str idle.globals.sip_fromuri)
          ∷ idle.trace)
    × (on_rx_request give 1 (record { is_options = true; multivpn_header = some header }) calm idle
        ≡ fault out_of_bounds)
sip_tunnel_oversize_example =
    sip_tunnel_oversize give give 1 (ones 2000) calm calm idle idle give-Supplies calm-Sends
      (ones-IsBytes 2000) (ones-long 2000 (omega arith)) (ones-short 2000 (omega arith))

on_rx_request_malformed_example :
    (table : Bytes) × (on_rx_request give 7
        (record { is_options = true; multivpn_header = some (codes "Zm9vY") })
        calm
        idle
      ≡ ok (
        true,
        record idle {
          trace =
              respond_stateless 666 (codes "Traffic Accepted")
              ∷ write_null (idle.globals.pipe_from_plugin).1 (to_signed (7 % 2 ^ 32))
              ∷ idle.trace;
          decoding_table = built table;
        },
      ))
unfolding idle
on_rx_request_malformed_example =
    on_rx_request_malformed give 7 (codes "Zm9vY") calm idle give-Supplies tt
      (omega arith, (omega arith, (omega arith, (omega arith, (omega arith, tt))))) (omega arith)
      (λ e. cc e)

refused_requests :
    (on_rx_request give 7
        (record { is_options = false; multivpn_header = some (codes "Zm9v") })
        calm
        idle
      ≡ ok (true, record idle { trace = respond_stateless 500 (codes "Go home") ∷ idle.trace }))
    × (on_rx_request give 7 (record { is_options = true; multivpn_header = none }) calm idle
        ≡ ok (
          true,
          record idle { trace = respond_stateless 500 (codes "Go home and sleep") ∷ idle.trace },
        ))
refused_requests = on_rx_request_refuses give 7 (some (codes "Zm9v")) calm idle
