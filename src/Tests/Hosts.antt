-- ===== src/Tests/Hosts.antt =====
-- The hosts of Host at a concrete system.
use mathlib.Core.List.{IsPrefix}
use multivpn.Host.Order.{IsReady, Reach-IsPrefix, Reach-settled, tunnel-IsPrefix}
use multivpn.Tests.Draining.{fresh_loop}
use multivpn.Host.{Apart, Host, main_call, plugin_call, Reach, start, later, by_main, by_plugin}
use multivpn.Host.Main.{loop_of}
use multivpn.Os.{Call}
use multivpn.Prelude.Int.{ℤ, pos}
use multivpn.Prelude.{ℕ, ◌≡◌, refl, List, [], ◌∷◌, length-replicate, ok}
use multivpn.TcpPlugin.Streams.{fetched, received, written, sent}
use multivpn.TcpPlugin.{Loop, max_fd, tunnel_round, tunnel_rounds}
use multivpn.Tests.Setup.{chatty, idle}
use multivpn.Threads.Starving.{IsBusy, rounds-starve}
use multivpn.Threads.{at_select, main_plan, tcp_plan}
use multivpn.Threads.Rounds.{solo_round, rounds-alone}
use multivpn.Machine.{Machine}
use multivpn.Globals.{zeroed}
use multivpn.Program.{main_round, main_rounds}
use multivpn.Tests.Pipes.{piped, fds, piped-IsPosix, piped-to, piped-from}

pub fds-Apart : Apart fds
fds-Apart = record {
  tun_from = λ e. cc e;
  tun_to = λ e. cc e;
  from_to = λ e. cc e;
  tun_to_out = λ e. cc e;
  tun_from_out = λ e. cc e;
  to_from_out = λ e. cc e;
}

piped-IsReady : IsReady piped fds [] fresh_loop fresh_loop
piped-IsReady = record {
  apart = fds-Apart;
  posix = piped-IsPosix;
  to_plugin = piped-to;
  from_plugin = piped-from;
  fresh = record {
    fetched_tun = refl;
    fetched_from = refl;
    fetched_to = refl;
    received_sock = refl;
    written_tun = refl;
    written_from = refl;
    written_to = refl;
    sent_sock = refl;
  };
  main_buffer = length-replicate {A = ℕ} 1505 0;
  plugin_buffer = length-replicate {A = ℕ} 1505 0;
}

abbrev begun : Host
begun = record { main = at_select fresh_loop; plugin = at_select fresh_loop; calls = [] }

-- The calls of the threads in turn.
abbrev busy : Host
busy =
    by_main piped fds
      (by_plugin piped fds (by_main piped fds (by_plugin piped fds (by_main piped fds begun))))

busy-Reach : Reach piped fds [] fresh_loop fresh_loop busy
busy-Reach =
    later (later (later (later (later start main_call) plugin_call) main_call) plugin_call)
      main_call

-- The pipe is read again, and what it brings is sent.
abbrev settled : Host
settled = by_plugin piped fds (by_plugin piped fds (by_plugin piped fds busy))

settled-Reach : Reach piped fds [] fresh_loop fresh_loop settled
settled-Reach = later (later (later busy-Reach plugin_call) plugin_call) plugin_call

settled_bytes : (sent (pos 4) settled.calls ≡ 1 ∷ 2 ∷ 3 ∷ []) × (sent (pos 4) busy.calls ≡ [])
settled_bytes = (refl, refl)

Reach-IsPrefix_example :
    IsPrefix (sent (pos 4) busy.calls) (fetched piped (pos 3) busy.calls)
    × IsPrefix (written (pos 3) busy.calls) (received piped (pos 4) busy.calls)
Reach-IsPrefix_example =
    Reach-IsPrefix piped fds [] fresh_loop fresh_loop busy piped-IsReady busy-Reach

Reach-settled_test :
    (sent (pos 4) settled.calls ≡ fetched piped (pos 3) settled.calls)
    × (written (pos 3) settled.calls ≡ received piped (pos 4) settled.calls)
Reach-settled_test =
    Reach-settled piped fds [] fresh_loop fresh_loop (loop_of settled.main) (loop_of settled.plugin)
      settled.calls piped-IsReady settled-Reach refl refl

tunnel-IsPrefix_example :
    IsPrefix (written (pos 3) busy.calls) (fetched piped (pos 3) settled.calls)
tunnel-IsPrefix_example =
    tunnel-IsPrefix piped piped fds fds [] [] fresh_loop fresh_loop fresh_loop fresh_loop settled
      busy piped-IsReady piped-IsReady settled-Reach busy-Reach (1 ∷ 2 ∷ 3 ∷ [], refl)

-- The machine whose pipes are those of `fds`.
abbrev piped_machine : Machine
piped_machine = record idle {
  globals = record zeroed {
    pipe_from_plugin = (fds.from_in, fds.from_out);
    pipe_to_plugin = (fds.to_in, fds.to_out);
  };
}

rounds-alone_test :
    ((l' : Loop) × (t : List Call) × (main_round
          (pos 3)
          (max_fd (pos 3) fds.from_in)
          fresh_loop
          piped
          piped_machine
        ≡ ok (l', record piped_machine { trace = t }))
      × (solo_round (main_plan (pos 3) fds.from_in fds.to_out) piped fresh_loop []
          ≡ (at_select l', t)))
    × ((l' : Loop) × (t : List Call) × (tunnel_round
            (pos 3)
            (max_fd (pos 3) fds.to_in)
            fresh_loop
            piped
            piped_machine
          ≡ ok (l', record piped_machine { trace = t }))
        × (solo_round (tcp_plan (pos 3) fds.to_in fds.from_out) piped fresh_loop []
            ≡ (at_select l', t)))
unfolding idle
rounds-alone_test = rounds-alone (pos 3) fresh_loop piped piped_machine

chatty-IsBusy : (fd : ℤ) → IsBusy chatty fd
chatty-IsBusy fd = record { selects = λ h maxfd set. refl; ready = λ h maxfd set above asked. refl }

rounds-starve_example :
    ((l' : Loop) × (t : List Call) × (main_rounds 3
          (pos 3)
          (max_fd (pos 3) fds.from_in)
          fresh_loop
          chatty
          piped_machine
        ≡ ok (l', record piped_machine { trace = t }))
      × (fetched chatty fds.from_in t ≡ fetched chatty fds.from_in piped_machine.trace)
      × (written (pos 3) t ≡ written (pos 3) piped_machine.trace))
    × ((l' : Loop) × (t : List Call) × (tunnel_rounds 3
            (pos 3)
            (max_fd (pos 3) fds.to_in)
            fresh_loop
            chatty
            piped_machine
          ≡ ok (l', record piped_machine { trace = t }))
        × (fetched chatty fds.to_in t ≡ fetched chatty fds.to_in piped_machine.trace)
        × (sent (pos 3) t ≡ sent (pos 3) piped_machine.trace))
rounds-starve_example =
    rounds-starve 3 (pos 3) fresh_loop chatty piped_machine (chatty-IsBusy (pos 3)) (λ e. cc e)
      (λ e. cc e)
