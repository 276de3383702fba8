-- ===== src/Host/MainTurn.antt =====
-- What a turn of the main thread brings, beside whatever plugin.
use mathlib.Core.List.{append-nil}
use multivpn.Host.Main.{plan_of}
use multivpn.Host.Order.{IsPipe}
use multivpn.Host.{Apart, Fds}
use multivpn.Os.{Os, Call, read, write}
use multivpn.Prelude.Int.{int_eq_ne}
use multivpn.Prelude.{◌-◌, ◌≤◌, ◌≡◌, refl, List, ◌∷◌, true, arith}
use multivpn.TcpPlugin.Nfds.{max_fd_second}
use multivpn.TcpPlugin.Relay.{IsPosix}
use multivpn.TcpPlugin.{max_fd}
use multivpn.Threads.Draining.{Since, IsIdle}
use multivpn.Threads.Progress.{before_clear, Skips, Nearer, next_pc-before_clear, next_pc-Nearer}
use multivpn.Threads.{Pc, first, second, at_select, at_source, at_sink, call_of, next_pc}

-- What the main thread does for its pipe leaves the other pipe alone.
pub main-Skips :
    (os : Os) (d : Fds) (pc : Pc)
    → Apart d
    → before_clear pc ≡ 0
    → Skips os d.to_in d.to_out (call_of (plan_of d) pc)
main-Skips os d (at_select l) a c = record { fetched_same = λ h. refl; written_same = λ h. refl }
main-Skips os d (at_source first l) a c = absurd (omega (arith, c))
main-Skips os d (at_source second l) a c = record {
  fetched_same = λ h. rw (int_eq_ne d.from_in d.to_in (λ e. a.from_to e), append-nil) refl;
  written_same = λ h. refl;
}
main-Skips os d (at_sink first bytes l) a c = absurd (omega (arith, c))
main-Skips os d (at_sink second bytes l) a c = record {
  fetched_same = λ h. refl;
  written_same = λ h. rw (int_eq_ne d.tun d.to_out a.tun_to_out, append-nil) refl;
}

module _ (os : Os) (d : Fds) (base : List Call)
    (idle : IsIdle os base d.tun d.from_in d.from_out) where
  pub main_pc-before_clear :
      (pc : Pc) (h : List Call)
      → Since base h
      → let p = plan_of d in before_clear (next_pc p pc (os h (call_of p pc))) ≤ before_clear pc - 1
  main_pc-before_clear pc h b =
      next_pc-before_clear (max_fd d.tun d.from_in) d.tun
        (record { source = read d.tun 1504; sink = write d.to_out }) true d.from_in 1504
        (write d.tun) os base d.from_out idle pc h b

  pub main_pc-Nearer :
      (pc : Pc) (h : List Call)
      → Apart d
      → IsPosix os
      → IsPipe os d.from_in d.from_out
      → Since base h
      → let p = plan_of d in
        Nearer os d.from_in d.from_out pc h (next_pc p pc (os h (call_of p pc))) (call_of p pc ∷ h)
  main_pc-Nearer pc h apart posix pipe b =
      next_pc-Nearer (max_fd d.tun d.from_in) d.tun
        (record { source = read d.tun 1504; sink = write d.to_out }) true d.from_in 1504
        (write d.tun) os base d.from_out idle (max_fd_second d.tun d.from_in) posix pipe
        (record {
          fetched_same = λ h. rw (int_eq_ne d.tun d.from_in apart.tun_from, append-nil) refl;
          written_same = λ h. refl;
        })
        (λ bytes. record {
          fetched_same = λ h. refl;
          written_same = λ h. rw (int_eq_ne d.to_out d.from_out apart.to_from_out, append-nil) refl;
        })
        (λ bytes. record {
          fetched_same = λ h. refl;
          written_same = λ h. rw (int_eq_ne d.tun d.from_out apart.tun_from_out, append-nil) refl;
        })
        pc h b
