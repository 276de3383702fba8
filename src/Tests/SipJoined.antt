-- ===== src/Tests/SipJoined.antt =====
-- The program with the SIP plugin, from its command line to the calls of its threads.
use mathlib.Core.List.{IsPrefix, flatten}
use mathlib.Core.Path.{subst}
use multivpn.Base64.Encode.{IsBytes, rfc4648}
use multivpn.CString.{strncpy, strncmp_eq, c_str}
use multivpn.Globals.{globals_init, zeroed}
use multivpn.Host.Order.{IsPipe}
use multivpn.Host.{Apart, Fds}
use multivpn.Machine.{Machine}
use multivpn.Parser.RoundTrip.{render, configure}
use multivpn.Plugin.{
  plugin_check_config, plugin_build, plugin_start, call_build, call_check_parameters,
}
use multivpn.Prelude.Int.{pos}
use multivpn.Prelude.{
  ℕ, ◌≡◌, ◌∙◌, sym, refl, List, [], ◌∷◌, map, Bytes, All, Exec, ok, if◌then◌else◌, none, some,
  codes, length-replicate, arith,
}
use multivpn.Program.SipCarries.{sip_program-carries}
use multivpn.Program.Whole.{program-render}
use multivpn.Program.{Files, Outcome, looping, run_plugin, main_loop, main_rounds}
use multivpn.SipHost.Bytes.{ReadsBytes}
use multivpn.SipHost.Receiving.{arrived}
use multivpn.SipHost.{fds_of, SipHost, by_main, main_call, begun, Reach, start, later}
use multivpn.SipPlugin.Frames.{IsFrame, headers}
use multivpn.SipPlugin.{sip_start, sip_init, sip_build, sip_check_parameters, sip_loop_tun_events}
use multivpn.TcpPlugin.Streams.{fetched, written}
use multivpn.Tests.Draining.{fresh_loop}
use multivpn.Tests.Hosts.{fds-Apart}
use multivpn.Tests.Joined.{
  opening, opening-IsPosix, opening_to, opening_from, opening-IsUnix, machine_of,
}
use multivpn.Tests.Pipes.{fds}
use multivpn.Tests.Samples.{alice, alice-Fits}
use multivpn.Tests.Setup.{give, give-Supplies, idle}
use multivpn.Tests.SipQuiet.{IsBytes-take}
use multivpn.Tests.Whole.{opts, chosen, opts-chosen}
use multivpn.TunTap.{
  tun_open, tun_alloc, tun_up, copy_iface_name, tun_set_ip, tun_set_netmask, set_address,
  tun_get_file,
}

abbrev sip_files : Files
sip_files name = if strncmp_eq name (codes "vpn.conf") 9 then some (render alice) else none

sip_files-alice : sip_files (c_str chosen.configfile) ≡ some (render alice)
unfolding globals_init zeroed strncpy strncmp_eq c_str
sip_files-alice = refl

abbrev ran : Exec (Outcome × Machine)
ran = run_plugin 0 fresh_loop opening (record idle { globals = (configure alice chosen).1 })

abbrev main_machine : Machine
main_machine = machine_of ran

abbrev plugin_machine : Machine
plugin_machine = machine_of (sip_start give 0 fresh_loop opening main_machine)

-- The main thread reads three bytes and passes them on.
abbrev after : SipHost
after =
    by_main opening (by_main opening (by_main opening (begun plugin_machine fresh_loop fresh_loop)))

after-Reach : Reach give 5 (pos 8) opening plugin_machine fresh_loop fresh_loop after
after-Reach = later (later (later start main_call) main_call) main_call

-- What the run gives.
joined :
    (record (fds_of plugin_machine) { sock = pos 4 } ≡ fds)
    × (ran ≡ ok (looping fresh_loop, main_machine))
    × (sip_start give 0 fresh_loop opening main_machine ≡ ok (pos 0, plugin_machine))
    × (written (pos 8) after.machine.trace ≡ 1 ∷ 2 ∷ 3 ∷ [])
    × (plugin_machine.tfd ≡ pos 3)
unfolding run_plugin plugin_check_config call_check_parameters plugin_build call_build plugin_start
    main_loop main_rounds sip_check_parameters sip_build sip_start sip_init sip_loop_tun_events
    tun_open tun_alloc tun_up copy_iface_name tun_set_ip tun_set_netmask set_address tun_get_file
    idle globals_init zeroed strncpy strncmp_eq c_str
joined = (refl, refl, refl, refl, refl)

came-IsBytes : IsBytes (1 ∷ 2 ∷ 3 ∷ [])
came-IsBytes = (omega arith, (omega arith, (omega arith, tt)))

opening-ReadsBytes : ReadsBytes opening (pos 3)
opening-ReadsBytes h n = IsBytes-take n (1 ∷ 2 ∷ 3 ∷ []) came-IsBytes

plugin_machine-Apart : Apart (fds_of plugin_machine)
plugin_machine-Apart =
    let a = subst Apart (sym joined.0) fds-Apart in
    record {
      tun_from = a.tun_from;
      tun_to = a.tun_to;
      from_to = a.from_to;
      tun_to_out = a.tun_to_out;
      tun_from_out = a.tun_from_out;
      to_from_out = a.to_from_out;
    }

sip_program-carries_example :
    ((gone : List Bytes) × (headers after.machine.trace ≡ map rfc4648 gone)
      × All IsFrame gone
      × IsPrefix (flatten gone) (fetched opening (fds_of plugin_machine).tun after.machine.trace))
    × ((fs : List Bytes)
        → All IsFrame fs
        → arrived after.events ≡ map rfc4648 fs
        → IsPrefix (written (fds_of plugin_machine).tun after.machine.trace) (flatten fs))
unfolding idle
sip_program-carries_example =
    sip_program-carries sip_files opts give 5 (pos 8) fresh_loop fresh_loop opening idle
      main_machine plugin_machine after refl refl
      ((program-render sip_files opts 0 fresh_loop opening idle chosen alice opts-chosen
          sip_files-alice alice-Fits refl opening-IsUnix).2
        ∙ joined.1)
      joined.2 plugin_machine-Apart opening-IsPosix
      (subst (ReadsBytes opening) (sym joined.4) opening-ReadsBytes)
      (record { creates = λ h t f. refl; creates_uac = λ h. refl; sends = λ h x. refl })
      give-Supplies (subst (λ (d : Fds). IsPipe opening d.to_in d.to_out) (sym joined.0) opening_to)
      (subst (λ (d : Fds). IsPipe opening d.from_in d.from_out) (sym joined.0) opening_from)
      (length-replicate {A = ℕ} 1505 0) (length-replicate {A = ℕ} 1505 0) after-Reach
