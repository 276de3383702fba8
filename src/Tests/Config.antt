-- ===== src/Tests/Config.antt =====
-- parser.c, globals.c and the checks of the configuration at concrete inputs.
use multivpn.CString.{c_str, strncpy, strncmp_eq, contains, strtok, atoi}
use multivpn.Globals.{GlobalV, globals_init, zeroed, client_mode, server_mode}
use multivpn.Parser.File.{parse_config_file-Kept}
use multivpn.Parser.Invariant.{Kept}
use multivpn.Parser.Numbers.{sip_port, remote_port, number_line, with_number, parse_option_number}
use multivpn.Parser.RoundTrip.{
  Setting, with_text, with_count, as_server, as_client, empty_line, comment, render, configure,
  parse_config_file-render,
}
use multivpn.Parser.Settings.{remote_host, local_ip, plugin, line, with_buffer, parse_option_sets}
use multivpn.Parser.{parse_option, parse_config_file, run_command}
use multivpn.Program.Whole.{globals_init-AllText}
use multivpn.Prelude.Int.{ℤ, pos, minus_one}
use multivpn.Prelude.{
  ◌==◌, if◌then◌else◌, ◌-◌, ◌^◌, ◌≡◌, ◌≢◌, ◌↔◌, ◌⊎◌, refl, true, false, List, [], ◌∷◌, some, Bytes,
  codes, take, Exec, ok, fault, null_pointer, arith,
}
use multivpn.SipPlugin.Refusals.{sip_check_parameters_iff}
use multivpn.SipPlugin.{sip_check_parameters}
use multivpn.TcpConfig.Verdict.{tcp_check_parameters_client, tcp_check_parameters_server}
use multivpn.TcpConfig.{
  is_none, tcp_check_parameters, tcp_check_mode, tcp_check_local_port, tcp_check_remote_host,
  tcp_check_remote_port, tcp_check_local_ip, tcp_check_remote_ip,
}

abbrev fresh : GlobalV
fresh = globals_init zeroed

-- Nothing counts as set after `Globals_Init` alone.
all_missing :
    (tcp_check_mode fresh ≡ true)
    × (tcp_check_local_port fresh ≡ true)
    × (tcp_check_remote_host fresh ≡ true)
    × (tcp_check_remote_port fresh ≡ true)
    × (tcp_check_local_ip fresh ≡ true)
    × (tcp_check_remote_ip fresh ≡ true)
    × ((tcp_check_parameters fresh).result ≡ minus_one)
unfolding globals_init zeroed tcp_check_parameters is_none strncmp_eq strncpy
all_missing = (refl, refl, refl, refl, refl, refl, refl)

-- A key without a value, and a line of blanks, call the string functions with NULL.
no_value :
    (parse_option (codes "remote_ip") zeroed ≡ fault null_pointer)
    × (parse_option (codes "   ") zeroed ≡ fault null_pointer)
unfolding parse_option run_command strtok strncmp_eq contains
no_value = (refl, refl)

-- Ports are read as numbers; 0 and what is no number are refused.
ports :
    (parse_option (codes "remote_port 3006") zeroed
      ≡ ok (pos 0, record zeroed { remote_port = 3006 }))
    × (parse_option (codes "remote_port x1") zeroed ≡ ok (minus_one, zeroed))
    × (parse_option (codes "local_port  -1") zeroed
        ≡ ok (pos 0, record zeroed { local_port = 2 ^ 32 - 1 }))
unfolding parse_option run_command strtok strncmp_eq contains atoi
ports = (refl, refl, refl)

-- A file with every kind of line, whose last line is not reached.
abbrev settings : List Setting
settings =
    comment (codes " a tunnel")
    ∷ with_text plugin (codes "tcp")
    ∷ empty_line
    ∷ as_client
    ∷ with_count sip_port 5060
    ∷ with_text local_ip (codes "10.0.0.1")
    ∷ with_count remote_port 0
    ∷ as_server
    ∷ []

settings_refused : configure settings zeroed ≡ (
  minus_one,
  record zeroed {
    mode = client_mode;
    sip_port = 5060;
    plugin_name = strncpy zeroed.plugin_name (codes "tcp") 50;
    local_ip = strncpy zeroed.local_ip (codes "10.0.0.1") 50;
  },
)
settings_refused = refl

parse_option_sets_example :
    (v : Bytes) × (parse_option (line remote_host (codes "vpn.example")) fresh
      ≡ ok (pos 0, with_buffer remote_host v fresh))
    × (c_str v ≡ take 50 (codes "vpn.example"))
parse_option_sets_example =
    parse_option_sets remote_host (codes "vpn.example") fresh globals_init-AllText
      ((λ e. cc e), omega arith)

parse_config_file-render_example :
    parse_config_file (some (render settings)) fresh ≡ some (ok (configure settings fresh))
parse_config_file-render_example = parse_config_file-render settings fresh (
  (omega arith, omega arith),
  (
    (((λ e. cc e), omega arith), omega arith),
    (tt, (tt, (omega arith, ((((λ e. cc e), omega arith), omega arith), (omega arith, (tt, tt)))))),
  ),
)

parse_config_file-Kept_example :
    (r : Exec (ℤ × GlobalV)) × (parse_config_file (some (codes "plugin tcp\nremote_ip\n")) fresh
      ≡ some r)
    × Kept r
parse_config_file-Kept_example =
    parse_config_file-Kept (some (codes "plugin tcp\nremote_ip\n")) fresh globals_init-AllText

tcp_check_parameters_client_test :
    ((tcp_check_parameters (record fresh { mode = client_mode })).result ≡ pos 0)
    × (((tcp_check_parameters (record fresh { mode = client_mode })).reported ≡ true) ↔ (
        (tcp_check_remote_host (record fresh { mode = client_mode }) ≡ true)
        ⊎ (tcp_check_remote_port (record fresh { mode = client_mode }) ≡ true)
        ⊎ (tcp_check_local_ip (record fresh { mode = client_mode }) ≡ true)
        ⊎ (tcp_check_remote_ip (record fresh { mode = client_mode }) ≡ true)))
tcp_check_parameters_client_test =
    tcp_check_parameters_client (record fresh { mode = client_mode }) refl

tcp_check_parameters_server_test :
    ((tcp_check_parameters (record fresh { mode = server_mode })).result ≡ pos 0) ↔ (
      (fresh.local_port ≢ 2 ^ 32 - 1)
      × (is_none fresh.local_ip ≡ false)
      × (is_none fresh.remote_ip ≡ false))
unfolding globals_init
tcp_check_parameters_server_test =
    tcp_check_parameters_server (record fresh { mode = server_mode }) refl

sip_check_parameters_iff_test :
    (sip_check_parameters (record fresh { sip_transport = codes "udp"; sip_remoteuri = [] })
      ≡ pos 0)
    ↔ (fresh.sip_port ≢ 0)
sip_check_parameters_iff_test = sip_check_parameters_iff fresh (codes "udp") []

parse_option_number_test :
    parse_option (number_line sip_port 5060) fresh
    ≡ ok (if 5060 == 0 then (minus_one, fresh) else (pos 0, with_number sip_port 5060 fresh))
parse_option_number_test = parse_option_number sip_port 5060 fresh (omega arith)
