-- ===== src/Tests/Quiet.antt =====
-- A host that becomes quiet.
use multivpn.Host.Order.{IsPipe, IsReady}
use multivpn.Host.{Host, main_call, plugin_call, Reach, start, later, by_main, by_plugin}
use multivpn.Os.{Os, Call, read, select}
use multivpn.Prelude.Int.{ℤ, pos, is_pos, int_eq}
use multivpn.Prelude.{
  ℕ, suc, ◌≡◌, refl, ap, true, false, ◌||◌, List, [], ◌++◌, Bytes, length, length-append,
  length-replicate, ltb, if◌then◌else◌, arith,
}
use multivpn.SipHost.Effort.{IsFed}
use multivpn.TcpPlugin.Draining.{Waiting}
use multivpn.TcpPlugin.Relay.{IsPosix}
use multivpn.TcpPlugin.Streams.{fetched, written}
use multivpn.Tests.Draining.{fresh_loop, some_come, fewer}
use multivpn.Tests.Hosts.{fds-Apart}
use multivpn.Tests.Pipes.{pending, carrying, carrying-IsPosix, fds, fetched-pending, int_eq_sound}
use multivpn.Tests.Setup.{done}
use multivpn.Threads.Draining.{Since, IsIdle}
use multivpn.Threads.{at_select}

-- The first two `select` find the interface and the socket ready, and all later ones the pipes.
abbrev pub turning : Bytes → Bytes → Os
turning came arrived h (select maxfd set) = record done {
  ready = λ fd.
      if ltb (length h) 2
      then int_eq fd (pos 3) || int_eq fd (pos 4)
      else int_eq fd (pos 5) || int_eq fd (pos 7);
}
turning came arrived h c = carrying came arrived h c

abbrev begun : Host
begun = record { main = at_select fresh_loop; plugin = at_select fresh_loop; calls = [] }

module _ (came arrived : Bytes) where
  pub turning-IsPosix : IsPosix (turning came arrived)
  turning-IsPosix = record {
    reads = λ h fd n. (carrying-IsPosix came arrived).reads h fd n;
    recvs = λ h fd n. (carrying-IsPosix came arrived).recvs h fd n;
  }

  to_pipe :
      (h : List Call)
      → fetched (turning came arrived) (pos 7) h ++ pending (pos 7) (pos 8) h ≡ written (pos 8) h
  to_pipe = fetched-pending (turning came arrived) (pos 7) (pos 8) (λ h x n e. rw e refl)

  from_pipe :
      (h : List Call)
      → fetched (turning came arrived) (pos 5) h ++ pending (pos 5) (pos 6) h ≡ written (pos 6) h
  from_pipe =
      fetched-pending (turning came arrived) (pos 5) (pos 6)
        (λ h x n e. rw (int_eq_sound x 5 e) refl)

  pub turning-IsReady : IsReady (turning came arrived) fds [] fresh_loop fresh_loop
  turning-IsReady = record {
    apart = fds-Apart;
    posix = turning-IsPosix;
    to_plugin = λ h. (pending (pos 7) (pos 8) h, to_pipe h);
    from_plugin = λ h. (pending (pos 5) (pos 6) h, from_pipe h);
    fresh = record {
      fetched_tun = refl;
      fetched_from = refl;
      fetched_to = refl;
      received_sock = refl;
      written_tun = refl;
      written_from = refl;
      written_to = refl;
      sent_sock = refl;
    };
    main_buffer = length-replicate {A = ℕ} 1505 0;
    plugin_buffer = length-replicate {A = ℕ} 1505 0;
  }

  -- Each thread has read bytes and holds them.
  abbrev pub holding : Host
  holding = by_plugin (turning came arrived) fds (
      by_main (turning came arrived) fds
        (by_plugin (turning came arrived) fds (by_main (turning came arrived) fds begun)))

  pub holding-Reach : Reach (turning came arrived) fds [] fresh_loop fresh_loop holding
  holding-Reach = later (later (later (later start main_call) plugin_call) main_call) plugin_call

  -- From two calls on, nothing new comes in.
  module _ (base : List Call) (two : ltb (length base) 2 ≡ false) where
    quiet_later : (h : List Call) → Since base h → ltb (length h) 2 ≡ false
    quiet_later h (new, e) = ground (arith, two, length-append new base, ap {B = ℕ} length e)

    turning-IsIdle :
        (fd reading writing : ℤ)
        → (int_eq fd (pos 5) || int_eq fd (pos 7)) ≡ false
        → (int_eq reading (pos 5) || int_eq reading (pos 7)) ≡ true
        → ((h : List Call) (n : ℕ)
            → Since base h
            → Waiting (turning came arrived) reading writing h
            → is_pos (turning came arrived h (read reading (suc n))).ret ≡ true)
        → IsIdle (turning came arrived) base fd reading writing
    turning-IsIdle fd reading writing apart pipe some = record {
      selects = λ h maxfd set b. refl;
      silent = λ h maxfd set b. rw (quiet_later h b) apart;
      wakes = λ h maxfd set above asked b w. rw (quiet_later h b) pipe;
      brings = some;
    }

    to_pipe_comes :
        (h : List Call) (n : ℕ)
        → Since base h
        → Waiting (turning came arrived) (pos 7) (pos 8) h
        → is_pos (turning came arrived h (read (pos 7) (suc n))).ret ≡ true
    to_pipe_comes h n b w =
        some_come n (pending (pos 7) (pos 8) h)
          (fewer _ (pending (pos 7) (pos 8) h) _ (to_pipe h) w)

    pub from_pipe-IsIdle : IsIdle (turning came arrived) base (pos 3) (pos 5) (pos 6)
    from_pipe-IsIdle = turning-IsIdle (pos 3) (pos 5) (pos 6) refl refl (λ h n b w.
        some_come n (pending (pos 5) (pos 6) h)
          (fewer _ (pending (pos 5) (pos 6) h) _ (from_pipe h) w))

    pub to_pipe-IsIdle : IsIdle (turning came arrived) base (pos 4) (pos 7) (pos 8)
    to_pipe-IsIdle = turning-IsIdle (pos 4) (pos 7) (pos 8) refl refl to_pipe_comes

    pub to_pipe-IsFed : IsFed (turning came arrived) base (pos 7) (pos 8)
    to_pipe-IsFed = record {
      wakes = λ h maxfd set above asked b w. rw (quiet_later h b) refl;
      brings = to_pipe_comes;
    }

  pub sock-IsIdle : IsIdle (turning came arrived) holding.calls (pos 4) (pos 7) (pos 8)
  sock-IsIdle = to_pipe-IsIdle holding.calls refl

  pub tun-IsIdle : IsIdle (turning came arrived) holding.calls (pos 3) (pos 5) (pos 6)
  tun-IsIdle = from_pipe-IsIdle holding.calls refl

  pub turning_to : IsPipe (turning came arrived) (pos 7) (pos 8)
  turning_to h = (pending (pos 7) (pos 8) h, to_pipe h)

  pub turning_from : IsPipe (turning came arrived) (pos 5) (pos 6)
  turning_from h = (pending (pos 5) (pos 6) h, from_pipe h)
