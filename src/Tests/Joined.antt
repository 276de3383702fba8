-- ===== src/Tests/Joined.antt =====
-- The program with the TCP plugin as a client, from its command line to the calls of both threads.
use mathlib.Core.List.{IsPrefix}
use mathlib.Core.Path.{subst}
use multivpn.CString.{strncpy, strncmp_eq, c_str}
use multivpn.GenericTunnel.{
  store_connection_information, find_slot, table_of, connection, write_connection,
}
use multivpn.Globals.{globals_init, zeroed}
use multivpn.Host.Order.{IsPipe}
use multivpn.Host.{
  Apart, Fds, Host, main_call, plugin_call, Reach, start, later, by_main, by_plugin,
}
use multivpn.Machine.{Machine}
use multivpn.Os.{Os, Call, read, pipe, socket, stream, open_path, gethostbyname}
use multivpn.Parser.RoundTrip.{configure}
use multivpn.Plugin.{
  plugin_check_config, plugin_build, plugin_start, call_build, call_check_parameters,
}
use multivpn.Prelude.Int.{pos, is_true}
use multivpn.Prelude.{
  ℕ, ◌≡◌, ◌∙◌, sym, refl, true, List, [], ◌∷◌, Exec, ok, fault, ◌==◌, if◌then◌else◌,
  length-replicate,
}
use multivpn.Program.Carries.{tcp_fds, program-carries}
use multivpn.Program.Keeps.{pipes}
use multivpn.Program.Whole.{program-render}
use multivpn.Program.{Outcome, looping, run_plugin, main_loop, main_rounds}
use multivpn.TcpConfig.{
  is_none, tcp_check_mode, tcp_check_local_port, tcp_check_remote_host, tcp_check_remote_port,
  tcp_check_local_ip, tcp_check_remote_ip, tcp_check_parameters,
}
use multivpn.TcpPlugin.Relay.{IsPosix}
use multivpn.TcpPlugin.Streams.{fetched, received, written, sent}
use multivpn.TcpPlugin.{
  tcp_build, tcp_build_client, tcp_start, tcp_start_server, tcp_start_client, tunnel_rounds,
}
use multivpn.Tests.Draining.{fresh_loop}
use multivpn.Tests.Hosts.{fds-Apart}
use multivpn.Tests.Phases.{calm-names}
use multivpn.Tests.Pipes.{pending, carrying, carrying-IsPosix, fds, fetched-pending, int_eq_sound}
use multivpn.Tests.Samples.{client, client-Fits}
use multivpn.Tests.Setup.{done, idle}
use multivpn.Tests.Whole.{opts, files, chosen, opts-chosen, files-client}
use multivpn.Threads.{at_select}
use multivpn.TunTap.Returns.{IsUnix}
use multivpn.TunTap.{
  tun_open, tun_alloc, tun_up, copy_iface_name, tun_set_ip, tun_set_netmask, set_address,
  tun_get_file,
}

-- A system that opens the interface as 3, the connection's socket as 4, and the pipes as 5 to 8.
abbrev pub opening : Os
opening h (open_path name) = record done { ret = pos 3 }
opening h (socket stream) = record done { ret = pos 4 }
opening h (gethostbyname name) = record done { ret = pos 1 }
opening h pipe = record done { ends = if pipes h == 0 then (pos 5, pos 6) else (pos 7, pos 8) }
opening h c = carrying (1 ∷ 2 ∷ 3 ∷ []) (9 ∷ 8 ∷ []) h c

pub opening-IsPosix : IsPosix opening
opening-IsPosix = record {
  reads = λ h fd n. (carrying-IsPosix (1 ∷ 2 ∷ 3 ∷ []) (9 ∷ 8 ∷ [])).reads h fd n;
  recvs = λ h fd n. (carrying-IsPosix (1 ∷ 2 ∷ 3 ∷ []) (9 ∷ 8 ∷ [])).recvs h fd n;
}

pub opening_to : IsPipe opening (pos 7) (pos 8)
opening_to h =
    (pending (pos 7) (pos 8) h, fetched-pending opening (pos 7) (pos 8) (λ h x n e. rw e refl) h)

pub opening_from : IsPipe opening (pos 5) (pos 6)
opening_from h = (
  pending (pos 5) (pos 6) h,
  fetched-pending opening (pos 5) (pos 6) (λ h x n e. rw (int_eq_sound x 5 e) refl) h,
)

opening_errors : (h : List Call) (c : Call) → is_true (opening h c).errno ≡ true
opening_errors h (open_path name) = refl
opening_errors h (socket stream) = refl
opening_errors h (read fd n) = refl
opening_errors h c = refl

pub opening-IsUnix : IsUnix opening
opening-IsUnix = record { names = calm-names; errors = λ h c e. opening_errors h c }

abbrev set_up : Machine
set_up = record idle { globals = (configure client chosen).1 }

abbrev ran : Exec (Outcome × Machine)
ran = run_plugin 0 fresh_loop opening set_up

abbrev pub machine_of : {A : Type 0} → Exec (A × Machine) → Machine
machine_of (ok (a, s)) = s
machine_of (fault e) = idle

abbrev main_machine : Machine
main_machine = machine_of ran

abbrev plugin_machine : Machine
plugin_machine = machine_of (tcp_start 0 fresh_loop opening main_machine)

-- The main thread reads three bytes and passes them on, and the plugin sends them.
abbrev first : Host
first = record {
  main = at_select fresh_loop;
  plugin = at_select fresh_loop;
  calls = plugin_machine.trace;
}

abbrev mains : Host → Host
mains s =
    by_main opening (tcp_fds plugin_machine)
      (by_main opening (tcp_fds plugin_machine) (by_main opening (tcp_fds plugin_machine) s))

abbrev plugins : Host → Host
plugins s =
    by_plugin opening (tcp_fds plugin_machine)
      (by_plugin opening (tcp_fds plugin_machine) (by_plugin opening (tcp_fds plugin_machine) s))

abbrev after : Host
after = plugins (mains first)

after-Reach :
    Reach opening (tcp_fds plugin_machine) plugin_machine.trace fresh_loop fresh_loop after
after-Reach =
    later
      (later (later (later (later (later start main_call) main_call) main_call) plugin_call)
        plugin_call)
      plugin_call

-- What the run gives: the descriptors, the main loop and the plugin's, and what has been sent.
joined :
    (tcp_fds plugin_machine ≡ fds)
    × (pipes main_machine.trace ≡ 2)
    × (ran ≡ ok (looping fresh_loop, main_machine))
    × (tcp_start 0 fresh_loop opening main_machine ≡ ok (pos 0, plugin_machine))
    × (sent (tcp_fds plugin_machine).sock after.calls ≡ 1 ∷ 2 ∷ 3 ∷ [])
unfolding run_plugin plugin_check_config call_check_parameters plugin_build call_build plugin_start
    main_loop main_rounds is_none tcp_check_mode tcp_check_local_port tcp_check_remote_host
    tcp_check_remote_port tcp_check_local_ip tcp_check_remote_ip tcp_check_parameters tcp_build
    tcp_build_client tcp_start tcp_start_server tcp_start_client tunnel_rounds tun_open tun_alloc
    tun_up copy_iface_name tun_set_ip tun_set_netmask set_address tun_get_file
    store_connection_information find_slot table_of connection write_connection idle globals_init
    zeroed strncpy strncmp_eq c_str
joined = (refl, refl, refl, refl, refl)

program-carries_example :
    IsPrefix
      (sent (tcp_fds plugin_machine).sock after.calls)
      (fetched opening (tcp_fds plugin_machine).tun after.calls)
    × IsPrefix
        (written (tcp_fds plugin_machine).tun after.calls)
        (received opening (tcp_fds plugin_machine).sock after.calls)
unfolding idle
program-carries_example =
    program-carries files opts fresh_loop fresh_loop opening idle main_machine plugin_machine
      (pos 0) after refl
      ((program-render files opts 0 fresh_loop opening idle chosen client opts-chosen files-client
          client-Fits refl opening-IsUnix).2
        ∙ joined.2)
      joined.3 (subst Apart (sym joined.0) fds-Apart) opening-IsPosix
      (subst (λ (d : Fds). IsPipe opening d.to_in d.to_out) (sym joined.0) opening_to)
      (subst (λ (d : Fds). IsPipe opening d.from_in d.from_out) (sym joined.0) opening_from)
      (length-replicate {A = ℕ} 1505 0) (length-replicate {A = ℕ} 1505 0) after-Reach
