-- ===== src/Tests/Setup.antt =====
-- An allocator, a system and a machine for the tests.
use multivpn.Base64.Lookup.{Supplies}
use multivpn.Base64.{Malloc, unset}
use multivpn.Globals.{zeroed}
use multivpn.GenericTunnel.{no_connections}
use multivpn.Machine.{Machine}
use multivpn.Os.{Os, Reply, recv, read}
use multivpn.Prelude.Int.{pos, minus_one}
use multivpn.Prelude.{ℕ, refl, true, false, [], ◌∷◌, none, some, replicate, length-replicate}

-- Every block is there, and holds 170 in each byte.
unfoldable pub give : Malloc
give n = some (replicate n 170)

pub give-Supplies : Supplies give
unfolding give
give-Supplies = record {
  block = λ n. replicate n 170;
  succeeds = λ n. refl;
  sized = λ n. length-replicate n 170;
}

-- A reply of 0 that brings nothing.
abbrev pub done : Reply
done = record {
  ret = pos 0;
  errno = pos 5;
  bytes = [];
  value = 0;
  ends = (pos 0, pos 0);
  ready = λ fd. true;
}

-- Every call succeeds with 0.
abbrev pub calm : Os
calm h c = done

-- Every call fails with -1.
abbrev pub broken : Os
broken h c = record done { ret = minus_one }

-- Every `recv` and `read` brings two bytes, where there is room for two.
abbrev pub chatty : Os
chatty h (recv fd (ℕ.suc (ℕ.suc n))) = record done { ret = pos 2; bytes = 7 ∷ 9 ∷ [] }
chatty h (read fd (ℕ.suc (ℕ.suc n))) = record done { ret = pos 2; bytes = 7 ∷ 9 ∷ [] }
chatty h c = done

-- The program before `main`.
unfoldable pub idle : Machine
idle = record {
  globals = zeroed;
  trace = [];
  plugindata = no_connections ∷ [];
  freed = [];
  iface_name = replicate 256 0;
  tfd = pos 0;
  socket_connected = pos 0;
  socket_remote = pos 0;
  socket_server = pos 0;
  mode_server = false;
  remote_client_connected = false;
  server_port = 0;
  client_id = 0;
  active_plugin_start = none;
  active_plugin_build = none;
  active_plugin_check_parameters = none;
  active_plugin_get_tun_tap = none;
  active_plugin_fill_fdset = none;
  active_plugin_check_fdisset = none;
  decoding_table = unset;
  g_complete = false;
}
