-- ===== src/Program/Carries.antt =====
-- The program with the TCP plugin from the command line on, with its two threads in any order.
use mathlib.Core.List.{IsPrefix}
use multivpn.CString.{c_str}
use multivpn.Globals.{block_size}
use multivpn.Host.Order.{IsPipe, IsFresh, IsReady, Reach-IsPrefix}
use multivpn.Host.{Apart, Fds, Host, Reach}
use multivpn.Machine.{Machine}
use multivpn.Os.{Os, Call, set_addr, set_netmask}
use multivpn.Prelude.Int.{ℤ}
use multivpn.Prelude.{
  ◌≡◌, ◌∙◌, ap, List, [], length, ok, arith, inl, inr, Exec-cases, codes, if◌then◌else◌,
}
use multivpn.Program.Building.{tun_up-Keeps, set_address-Keeps}
use multivpn.Program.Keeps.{transfers}
use multivpn.Program.Silent.{program-Silent}
use multivpn.Program.{Files, Opt, looping, program}
use multivpn.TcpPlugin.{Loop, tcp_start, tcp_start_server, tcp_start_client, tunnel_rounds}
use multivpn.TcpPlugin.Relay.{IsPosix}
use multivpn.TcpPlugin.Streams.{fetched, received, written, sent}
use multivpn.TunTap.{tun_up, tun_set_ip, tun_set_netmask, set_address}
use multivpn.Program.Empty.{none_fetched, none_received, none_written, none_sent}

-- The plugin in front of its loop, which it enters where the mode is one of the two.
tcp_loop-transfers :
    (l : Loop) (os : Os) (s s' : Machine) (r : ℤ)
    → tcp_start 0 l os s ≡ ok (r, s')
    → transfers s'.trace ≡ transfers s.trace
unfolding tcp_start tcp_start_server tcp_start_client tunnel_rounds tun_set_ip tun_set_netmask
tcp_loop-transfers l os s s' r e =
    elim (Exec-cases (set_address set_addr (c_str s.globals.local_ip) os s)) [
      | inr (x, f) ↦ absurd (ground (arith, f, e))
      | inl ((a, t), f) ↦
          let k = set_address-Keeps set_addr (c_str s.globals.local_ip) os s t a f in
          elim (Exec-cases (set_address set_netmask (codes "255.255.255.0") os t)) [
            | inr (x, g) ↦ absurd (ground (arith, f, g, e))
            | inl ((b, u), g) ↦
                let m = set_address-Keeps set_netmask (codes "255.255.255.0") os t u b g in
                elim (Exec-cases (tun_up os u)) [
                  | inr (x, h) ↦ absurd (ground (arith, f, g, h, e))
                  | inl ((c, v), h) ↦
                      let n = tun_up-Keeps os u v c h in
                      ground (
                        arith, f, g, h, e, k.silent.same_transfers, m.silent.same_transfers,
                        n.silent.same_transfers,
                      )
                ]
          ]
    ]

-- The descriptors of a TCP host; the connection's socket is the one that `tcp_getSocket` names.
abbrev pub tcp_fds : Machine → Fds
tcp_fds m = record {
  tun = m.tfd;
  sock = if m.mode_server then m.socket_connected else m.socket_remote;
  from_in = (m.globals.pipe_from_plugin).0;
  from_out = (m.globals.pipe_from_plugin).1;
  to_in = (m.globals.pipe_to_plugin).0;
  to_out = (m.globals.pipe_to_plugin).1;
}

silent-IsFresh : (os : Os) (d : Fds) (h : List Call) → transfers h ≡ 0 → IsFresh os d h
silent-IsFresh os d h e = record {
  fetched_tun = none_fetched os d.tun h e;
  fetched_from = none_fetched os d.from_in h e;
  fetched_to = none_fetched os d.to_in h e;
  received_sock = none_received os d.sock h e;
  written_tun = none_written os d.tun h e;
  written_from = none_written os d.from_out h e;
  written_to = none_written os d.to_out h e;
  sent_sock = none_sent os d.sock h e;
}

-- The program is started with a memory that holds no calls, and comes to its main loop; the plugin's
-- thread sets itself up and comes to its own; then the two threads make their calls, in any order. At
-- every moment what was sent on the socket is the beginning of what was read from the interface, and
-- what was written to the interface is the beginning of what was received from the socket. The
-- descriptors that the system gave out are different ones, its reads are as POSIX has them, its pipes
-- hand on what is written to them, and the buffers have their size.
pub program-carries :
    (files : Files) (opts : List Opt) (l k : Loop) (os : Os) (s s' s'' : Machine) (r : ℤ) (t : Host)
    → s.trace ≡ []
    → program files opts 0 l os s ≡ ok (looping l, s')
    → tcp_start 0 k os s' ≡ ok (r, s'')
    → Apart (tcp_fds s'')
    → IsPosix os
    → IsPipe os (tcp_fds s'').to_in (tcp_fds s'').to_out
    → IsPipe os (tcp_fds s'').from_in (tcp_fds s'').from_out
    → length l.buffer ≡ block_size
    → length k.buffer ≡ block_size
    → Reach os (tcp_fds s'') s''.trace l k t
    → IsPrefix (sent (tcp_fds s'').sock t.calls) (fetched os (tcp_fds s'').tun t.calls)
      × IsPrefix (written (tcp_fds s'').tun t.calls) (received os (tcp_fds s'').sock t.calls)
program-carries files opts l k os s s' s'' r t none run start apart posix to from b c reach =
    let silent : transfers s''.trace ≡ 0 =
      tcp_loop-transfers k os s' s'' r start
      ∙ (program-Silent files opts l os s s' (looping l) run).same_transfers
      ∙ ap transfers none in
    let ready : IsReady os (tcp_fds s'') s''.trace l k = record {
      apart = apart;
      posix = posix;
      to_plugin = to;
      from_plugin = from;
      fresh = silent-IsFresh os (tcp_fds s'') s''.trace silent;
      main_buffer = b;
      plugin_buffer = c;
    } in
    Reach-IsPrefix os (tcp_fds s'') s''.trace l k t ready reach
