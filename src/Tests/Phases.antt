-- ===== src/Tests/Phases.antt =====
-- The start of the program, the choice of its plugin and its interface, at concrete inputs.
use Prim.Native.Nat.{bit_or}
use multivpn.CString.{c_str, strncpy, strncmp_eq}
use multivpn.Globals.{zeroed, server_mode, sip_plugin}
use multivpn.Machine.{Machine, sip}
use multivpn.Os.{
  Os, Call, pipe, open_path, close, ioctl, socket, datagram, set_addr, set_flags, get_flags,
  tun_set_iff, inet_aton,
}
use multivpn.Plugin.Choice.{plugin_fill_fdset_sip, plugin_build_unchosen}
use multivpn.Plugin.{
  plugin_check_config, plugin_build, plugin_fill_fdset, plugin_get_tun_tap, plugin_stop,
  plugin_check_fdisset,
}
use multivpn.Prelude.Int.{ℤ, pos, minus_one, is_neg, is_true}
use multivpn.Prelude.{
  ◌<◌, length, Bytes, arith, ◌+◌, ◌≡◌, ◌++◌, ◌⊎◌, refl, true, false, List, [], ◌∷◌, none, some,
  codes, replicate, ok, fault, null_pointer, if◌then◌else◌,
}
use multivpn.Program.Startup.{program_needs_file, run_plugin_unknown}
use multivpn.Program.Phases.{Phased}
use multivpn.TunTap.Returns.{IsUnix}
use multivpn.Program.Returns.{run_plugin-Phased}
use multivpn.Program.{Outcome, debug_level, verbose, left, run_plugin, program}
use multivpn.TcpConfig.{tcp_get_tun_tap}
use multivpn.SipPlugin.{
  sip_get_tun_tap, sip_plugin_get_fill_fdset, sip_plugin_get_check_fdisset, sip_plugin_get_tun_tap,
  sip_check_parameters,
}
use multivpn.TcpPlugin.{Loop}
use multivpn.Tests.Setup.{calm, idle}
use multivpn.TunTap.Descriptors.{
  closings, sockets, tun_alloc_keeps, tun_up_leaks, set_address_balance,
}
use multivpn.TunTap.{tun_get_file, copy_iface_name, tun_alloc, tun_up, set_address}

abbrev fresh_loop : Loop
fresh_loop = record { buffer = replicate 1505 0; set_reading = λ fd. false }

-- An address can be read, and everything else succeeds with 0.
abbrev resolving : Os
resolving h (inet_aton text) = record (calm h (inet_aton text)) { ret = pos 1; value = 167772161 }
resolving h c = calm h c

abbrev address_set : Machine
address_set = record idle {
  trace =
      close (pos 0)
      ∷ ioctl (pos 0) (set_addr [] 167772161)
      ∷ socket datagram
      ∷ inet_aton (codes "10.0.0.1")
      ∷ [];
}

set_address_balance_example :
    ((pos 0 ≡ pos 0)
      × (sockets address_set.trace ≡ sockets idle.trace + 1)
      × (closings address_set.trace
          ≡ (resolving (inet_aton (codes "10.0.0.1") ∷ idle.trace) (socket datagram)).ret
            ∷ closings idle.trace))
    ⊎ ((pos 0 ≡ minus_one) × (closings address_set.trace ≡ closings idle.trace))
unfolding set_address copy_iface_name c_str idle
set_address_balance_example =
    set_address_balance set_addr (codes "10.0.0.1") resolving idle address_set (pos 0) refl

abbrev up : Machine
up = record idle {
  trace =
      ioctl (pos 0) (set_flags [] (bit_or 0 1))
      ∷ ioctl (pos 0) (get_flags [])
      ∷ socket datagram
      ∷ [];
}

tun_up_leaks_test :
    (sockets up.trace ≡ sockets idle.trace + 1) × (closings up.trace ≡ closings idle.trace)
unfolding tun_up copy_iface_name c_str idle
tun_up_leaks_test = tun_up_leaks calm idle up (pos 0) refl

-- The device refuses `TUNSETIFF`.
abbrev ioctl_result : Call → ℤ
ioctl_result (ioctl fd r) = minus_one
ioctl_result c = pos 0

abbrev refusing : Os
refusing h c = record (calm h c) { ret = ioctl_result c }

abbrev refused : Machine
refused = record idle {
  trace = close (pos 0) ∷ ioctl (pos 0) tun_set_iff ∷ open_path (codes "/dev/net/tun") ∷ [];
  tfd = minus_one;
}

refusing-errno :
    (h : List Call) (c : Call)
    → is_neg (refusing h c).ret ≡ true
    → is_true (refusing h c).errno ≡ true
refusing-errno h c e = refl

tun_alloc_keeps_example :
    ((pos 5 ≡ pos 0)
      × (refused.tfd ≡ (refusing idle.trace (open_path (codes "/dev/net/tun"))).ret)
      × (is_neg refused.tfd ≡ false)
      × (closings refused.trace ≡ closings idle.trace))
    ⊎ ((is_true (pos 5) ≡ true)
        × (is_neg refused.tfd ≡ true)
        × (closings refused.trace ≡ (
            if is_neg (refusing idle.trace (open_path (codes "/dev/net/tun"))).ret
            then closings idle.trace
            else (refusing idle.trace (open_path (codes "/dev/net/tun"))).ret
              ∷ closings idle.trace)))
unfolding tun_alloc idle
tun_alloc_keeps_example =
    tun_alloc_keeps (codes "/dev/net/tun") refusing idle refused (pos 5) refusing-errno refl

program_needs_file_example :
    (status : ℤ) × (program
        (λ name. none)
        (verbose ∷ debug_level (some (codes "10")) ∷ [])
        5
        fresh_loop
        calm
        idle
      ≡ ok (left status, idle))
unfolding idle
program_needs_file_example =
    program_needs_file (λ name. none) (verbose ∷ debug_level (some (codes "10")) ∷ []) 5 fresh_loop
      calm idle refl (tt, (tt, tt))

unknown_plugin : run_plugin 5 fresh_loop calm idle ≡ ok (left minus_one, idle)
unfolding idle zeroed strncmp_eq
unknown_plugin = run_plugin_unknown 5 fresh_loop calm idle refl refl

abbrev sip_named : Machine
sip_named = record idle {
  globals = record idle.globals { plugin_name = codes "sip" ++ replicate 253 0 };
}

plugin_fill_fdset_sip_example :
    (s' : Machine) × (plugin_check_config calm sip_named
      ≡ ok (sip_check_parameters (record sip_named.globals { plugin = sip_plugin }), s'))
    × (s'.active_plugin_build ≡ some sip)
    × (plugin_fill_fdset (λ fd. false) calm s' ≡ fault null_pointer)
unfolding idle strncmp_eq
plugin_fill_fdset_sip_example = plugin_fill_fdset_sip (λ fd. false) calm sip_named refl refl refl

unchosen_build : plugin_build calm idle ≡ (
    if is_true (calm idle.trace pipe).ret
    then ok (minus_one, record idle { trace = pipe ∷ idle.trace })
    else if is_true (calm (pipe ∷ idle.trace) pipe).ret
    then ok (
      minus_one,
      record idle {
        trace = pipe ∷ pipe ∷ idle.trace;
        globals = record idle.globals { pipe_from_plugin = (calm idle.trace pipe).ends };
      },
    )
    else fault null_pointer)
unfolding idle
unchosen_build = plugin_build_unchosen calm idle refl

idle_calls :
    (sip_get_tun_tap calm idle ≡ ok (pos 0, idle))
    × (tcp_get_tun_tap calm idle ≡ ok (pos 0, idle))
    × (sip_plugin_get_fill_fdset ≡ sip_plugin_get_check_fdisset)
    × (sip_plugin_get_check_fdisset ≡ sip_plugin_get_tun_tap)
    × (plugin_get_tun_tap calm idle ≡ ok (pos 0, idle))
    × (plugin_stop calm idle ≡ ok (tt, idle))
    × (plugin_check_fdisset (λ fd. true) calm idle ≡ ok (pos 0, idle))
unfolding idle tun_get_file sip_get_tun_tap tcp_get_tun_tap plugin_get_tun_tap plugin_stop
    plugin_check_fdisset
idle_calls = (refl, refl, refl, refl, refl, refl, refl)

pub calm-names :
    (buffer : Bytes) (h : List Call) (fd : ℤ)
    → length (c_str (strncpy buffer (calm h (ioctl fd tun_set_iff)).bytes 100)) < 16
unfolding c_str strncpy
calm-names [] h fd = omega arith
calm-names (b ∷ buffer) h fd = omega arith

pub calm-IsUnix : IsUnix calm
calm-IsUnix = record { names = calm-names; errors = λ h c e. refl }

-- A server's configuration.
abbrev serving : Machine
serving = record idle {
  globals = record zeroed {
    plugin_name = codes "tcp";
    mode = server_mode;
    local_port = 1194;
    local_ip = codes "10.0.0.1";
    remote_ip = codes "10.0.0.2";
  };
}

run_plugin-Phased_test :
    (o : Outcome) × (s' : Machine) × (run_plugin 2 fresh_loop calm serving ≡ ok (o, s'))
    × Phased serving s' o
unfolding idle
run_plugin-Phased_test = run_plugin-Phased 2 fresh_loop calm serving calm-IsUnix refl
