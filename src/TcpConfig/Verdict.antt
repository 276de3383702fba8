-- ===== src/TcpConfig/Verdict.antt =====
-- What `tcp_checkParameters` accepts.
use multivpn.Globals.{GlobalV, server_mode, client_mode}
use multivpn.Prelude.Int.{pos}
use multivpn.Prelude.{◌-◌, ◌^◌, ◌≡◌, ◌≢◌, ◌↔◌, ◌⊎◌, true, false, arith}
use multivpn.TcpConfig.{
  is_none, tcp_check_parameters, tcp_check_remote_host, tcp_check_remote_port, tcp_check_local_ip,
  tcp_check_remote_ip,
}

-- In client mode the check succeeds whatever is missing: where the remote host, the remote port or
-- an address was not set, that is reported and the result is 0 nevertheless.
pub tcp_check_parameters_client :
    (g : GlobalV)
    → g.mode ≡ client_mode
    → ((tcp_check_parameters g).result ≡ pos 0)
      × (((tcp_check_parameters g).reported ≡ true) ↔ (
          (tcp_check_remote_host g ≡ true)
          ⊎ (tcp_check_remote_port g ≡ true)
          ⊎ (tcp_check_local_ip g ≡ true)
          ⊎ (tcp_check_remote_ip g ≡ true)))
unfolding tcp_check_parameters
tcp_check_parameters_client g m = ground arith

-- In server mode it succeeds exactly when the local port and both addresses were set.
pub tcp_check_parameters_server :
    (g : GlobalV)
    → g.mode ≡ server_mode
    → ((tcp_check_parameters g).result ≡ pos 0)
      ↔ ((g.local_port ≢ 2 ^ 32 - 1) × (is_none g.local_ip ≡ false) × (is_none g.remote_ip ≡ false))
unfolding tcp_check_parameters
tcp_check_parameters_server g m = ground arith
