-- ===== src/TcpConfig.antt =====
-- tcp_plugin.c: the checks of the configuration, and the plugin's part in a caller's `fd_set`.
pub mod Verdict
use multivpn.CString.{strncmp_eq}
use multivpn.GenericTunnel.{get_socket_recv_queue}
use multivpn.Globals.{GlobalV, server_mode, client_mode}
use multivpn.Machine.{Machine, Owner, tcp, M, pure, ◌>>=◌, get}
use multivpn.Os.{FdSet, fd_add}
use multivpn.Prelude.Int.{ℤ, pos, minus_one, is_minus_one, int_eq}
use multivpn.TunTap.{tun_get_file}
use multivpn.Prelude.{
  Option, some, ℕ, ◌-◌, ◌^◌, Bool, true, false, ◌||◌, Bytes, codes, ◌==◌, if◌then◌else◌,
}

-- `!strncmp(field, "none", strlen("none"))`
unfoldable pub is_none : Bytes → Bool
is_none field = strncmp_eq field (codes "none") 4

unfoldable pub tcp_check_mode : GlobalV → Bool
tcp_check_mode g = is_minus_one g.mode

-- A port is unsigned: it is compared with the conversion of -1.
unfoldable pub tcp_check_local_port : GlobalV → Bool
tcp_check_local_port g = g.local_port == 2 ^ 32 - 1

unfoldable pub tcp_check_remote_host : GlobalV → Bool
tcp_check_remote_host g = is_none g.remote_host

unfoldable pub tcp_check_remote_port : GlobalV → Bool
tcp_check_remote_port g = g.remote_port == 2 ^ 32 - 1

unfoldable pub tcp_check_local_ip : GlobalV → Bool
tcp_check_local_ip g = is_none g.local_ip

unfoldable pub tcp_check_remote_ip : GlobalV → Bool
tcp_check_remote_ip g = is_none g.remote_ip

-- The result of a check, and whether `debug_error` was called.
pub record Checked : Type 0 where
  pub result : ℤ
  pub reported : Bool

-- In client mode a missing parameter is reported, and the result is 0 all the same.
unfoldable pub tcp_check_parameters : GlobalV → Checked
unfolding tcp_check_mode tcp_check_local_port tcp_check_remote_host tcp_check_remote_port
    tcp_check_local_ip tcp_check_remote_ip
tcp_check_parameters g =
    if tcp_check_mode g
    then record { result = minus_one; reported = true }
    else if int_eq g.mode server_mode
    then (if tcp_check_local_port g || tcp_check_local_ip g || tcp_check_remote_ip g
        then record { result = minus_one; reported = true }
        else record { result = pos 0; reported = false })
    else if int_eq g.mode client_mode
    then record {
      result = pos 0;
      reported =
          tcp_check_remote_host g
          || tcp_check_remote_port g
          || tcp_check_local_ip g
          || tcp_check_remote_ip g;
    }
    else record { result = minus_one; reported = false }

unfoldable pub tcp_fill_fdset : FdSet → M FdSet
tcp_fill_fdset set = do
  s ← get
  if int_eq s.globals.mode client_mode
      then (do fd ← get_socket_recv_queue 0 s.client_id; pure (fd_add fd set))
      else pure set

unfoldable pub tcp_check_fdisset : FdSet → M ℤ
tcp_check_fdisset set = do
  s ← get
  if int_eq s.globals.mode client_mode then get_socket_recv_queue 0 s.client_id else pure (pos 0)

unfoldable pub tcp_get_tun_tap : M ℤ
tcp_get_tun_tap = tun_get_file

-- The functions that plugin.c asks for.
abbrev pub tcp_plugin_get_start : Option Owner
tcp_plugin_get_start = some tcp

abbrev pub tcp_plugin_get_check_parameters : Option Owner
tcp_plugin_get_check_parameters = some tcp

abbrev pub tcp_plugin_get_fill_fdset : Option Owner
tcp_plugin_get_fill_fdset = some tcp

abbrev pub tcp_plugin_get_check_fdisset : Option Owner
tcp_plugin_get_check_fdisset = some tcp

abbrev pub tcp_plugin_get_tun_tap : Option Owner
tcp_plugin_get_tun_tap = some tcp

abbrev pub tcp_plugin_get_build : Option Owner
tcp_plugin_get_build = some tcp
