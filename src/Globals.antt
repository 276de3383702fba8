-- ===== src/Globals.antt =====
-- globals.h and globals.c: the structure `global_v`, shared by every part of the program.
use multivpn.Prelude.{ℕ, ◌-◌, ◌^◌, Bytes, codes, replicate}
use multivpn.Prelude.Int.{ℤ, pos, negsuc}
use multivpn.CString.{strncpy}

abbrev pub block_size : ℕ
block_size = 1505

abbrev pub max_in_connections : ℕ
max_in_connections = 50

abbrev pub server_mode : ℤ
server_mode = pos 0

abbrev pub client_mode : ℤ
client_mode = pos 1

abbrev pub tcp_plugin : ℤ
tcp_plugin = pos 0

abbrev pub sip_plugin : ℤ
sip_plugin = pos 1

-- A pipe is its read end and its write end. The ports are 32-bit `unsigned int`s.
pub record GlobalV : Type 0 where
  pub verbose : ℤ
  pub debug : ℤ
  pub mode : ℤ
  pub configfile : Bytes
  pub remote_host : Bytes
  pub plugin : ℤ
  pub plugin_name : Bytes
  pub local_ip : Bytes
  pub local_netmask : Bytes
  pub remote_ip : Bytes
  pub remote_port : ℕ
  pub local_port : ℕ
  pub sip_port : ℕ
  pub sip_transport : Bytes
  pub sip_remoteuri : Bytes
  pub sip_fromuri : Bytes
  pub sip_proxy : Bytes
  pub pipe_from_plugin : ℤ × ℤ
  pub pipe_to_plugin : ℤ × ℤ

abbrev pub no_text : Bytes
no_text = replicate 256 0

-- Static storage is zeroed before the program starts.
unfoldable pub zeroed : GlobalV
zeroed = record {
  verbose = pos 0;
  debug = pos 0;
  mode = pos 0;
  configfile = no_text;
  remote_host = no_text;
  plugin = pos 0;
  plugin_name = no_text;
  local_ip = no_text;
  local_netmask = no_text;
  remote_ip = no_text;
  remote_port = 0;
  local_port = 0;
  sip_port = 0;
  sip_transport = no_text;
  sip_remoteuri = no_text;
  sip_fromuri = no_text;
  sip_proxy = no_text;
  pipe_from_plugin = (pos 0, pos 0);
  pipe_to_plugin = (pos 0, pos 0);
}

-- `strncpy(field, "none", strlen("none"))`
unfoldable pub set_none : Bytes → Bytes
set_none field = strncpy field (codes "none") 4

unfoldable pub globals_init : GlobalV → GlobalV
unfolding set_none
globals_init g = record g {
  verbose = pos 0;
  debug = pos 10;
  mode = negsuc 0;
  configfile = set_none g.configfile;
  remote_host = set_none g.remote_host;
  plugin = negsuc 0;
  plugin_name = set_none g.plugin_name;
  local_ip = set_none g.local_ip;
  remote_ip = set_none g.remote_ip;
  remote_port = 2 ^ 32 - 1;
  local_port = 2 ^ 32 - 1;
}
