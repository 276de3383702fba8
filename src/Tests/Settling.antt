-- ===== src/Tests/Settling.antt =====
-- A host that becomes quiet settles.
use mathlib.Core.List.{IsPrefix}
use multivpn.Host.Rounds.{Steps}
use multivpn.Host.Delivery.{IsResting, tunnel-delivers}
use multivpn.Host.Fairness.{take_turns-settles}
use multivpn.Host.Turns.{Turn, main_turn, plugin_turn, take_turns}
use multivpn.Host.Settling.{Reach-settles}
use multivpn.Host.{Host}
use multivpn.Prelude.Int.{pos}
use multivpn.Prelude.{◌≡◌, refl, List, [], ◌∷◌, ◌++◌, Bytes, replicate, arith}
use multivpn.TcpPlugin.Streams.{fetched, received, written, sent}
use multivpn.Tests.Draining.{fresh_loop}
use multivpn.Tests.Pipes.{fds}
use multivpn.Tests.Quiet.{turning, turning-IsReady, holding, holding-Reach, sock-IsIdle, tun-IsIdle}

-- The interface brings three bytes, and the socket two.
abbrev up : Bytes
up = 1 ∷ 2 ∷ 3 ∷ []

abbrev down : Bytes
down = 9 ∷ 8 ∷ []

holding_bytes :
    (fetched (turning up down) (pos 3) (holding up down).calls ≡ 1 ∷ 2 ∷ 3 ∷ [])
    × (received (turning up down) (pos 4) (holding up down).calls ≡ 9 ∷ 8 ∷ [])
    × (sent (pos 4) (holding up down).calls ≡ [])
holding_bytes = (refl, refl, refl)

Reach-settles_test :
    (t : Host) × Steps (turning up down) fds (holding up down) t
    × (sent (pos 4) t.calls ≡ fetched (turning up down) (pos 3) t.calls)
    × (written (pos 3) t.calls ≡ received (turning up down) (pos 4) t.calls)
    × IsPrefix
        (fetched (turning up down) (pos 3) (holding up down).calls)
        (fetched (turning up down) (pos 3) t.calls)
    × IsPrefix
        (received (turning up down) (pos 4) (holding up down).calls)
        (received (turning up down) (pos 4) t.calls)
Reach-settles_test =
    Reach-settles (turning up down) fds [] fresh_loop fresh_loop (holding up down)
      (turning-IsReady up down) (sock-IsIdle up down) (tun-IsIdle up down) (holding-Reach up down)

-- Two turns each, and then 20 of the plugin and 15 of the main thread, in this order.
abbrev early : List Turn
early = plugin_turn ∷ plugin_turn ∷ main_turn ∷ main_turn ∷ []

abbrev late : List Turn
late = replicate 20 plugin_turn ++ replicate 15 main_turn

take_turns-settles_example :
    (sent
        (pos 4)
        (take_turns
          (turning up down)
          fds
          late
          (take_turns (turning up down) fds early (holding up down))).calls
      ≡ fetched
          (turning up down)
          (pos 3)
          (take_turns
            (turning up down)
            fds
            late
            (take_turns (turning up down) fds early (holding up down))).calls)
    × (written
          (pos 3)
          (take_turns
            (turning up down)
            fds
            late
            (take_turns (turning up down) fds early (holding up down))).calls
        ≡ received
            (turning up down)
            (pos 4)
            (take_turns
              (turning up down)
              fds
              late
              (take_turns (turning up down) fds early (holding up down))).calls)
    × IsPrefix (fetched (turning up down) (pos 3) (holding up down).calls) (
        fetched
          (turning up down)
          (pos 3)
          (take_turns
            (turning up down)
            fds
            late
            (take_turns (turning up down) fds early (holding up down))).calls)
    × IsPrefix (received (turning up down) (pos 4) (holding up down).calls) (
        received
          (turning up down)
          (pos 4)
          (take_turns
            (turning up down)
            fds
            late
            (take_turns (turning up down) fds early (holding up down))).calls)
take_turns-settles_example =
    take_turns-settles (turning up down) fds [] fresh_loop fresh_loop (holding up down) early late
      (turning-IsReady up down) (sock-IsIdle up down) (tun-IsIdle up down) (holding-Reach up down)
      (omega arith) (omega arith) (omega arith) (omega arith)

turns_bytes :
    (sent
        (pos 4)
        (take_turns
          (turning up down)
          fds
          late
          (take_turns (turning up down) fds early (holding up down))).calls
      ≡ 1 ∷ 2 ∷ 3 ∷ [])
    × (written
          (pos 3)
          (take_turns
            (turning up down)
            fds
            late
            (take_turns (turning up down) fds early (holding up down))).calls
        ≡ 9 ∷ 8 ∷ [])
turns_bytes = (refl, refl)

-- The other host gets what this one sends, and takes its turns in another order.
host-IsResting :
    IsResting (turning up down) fds [] fresh_loop fresh_loop (holding up down) early late
host-IsResting = record {
  ready = turning-IsReady up down;
  idle_sock = sock-IsIdle up down;
  idle_tun = tun-IsIdle up down;
  reach = holding-Reach up down;
  two_main = omega arith;
  two_plugin = omega arith;
  enough_plugin = omega arith;
  enough_main = omega arith;
}

abbrev later_on : List Turn
later_on = replicate 20 main_turn ++ replicate 15 plugin_turn

peer-IsResting :
    IsResting (turning down up) fds [] fresh_loop fresh_loop (holding down up) early later_on
peer-IsResting = record {
  ready = turning-IsReady down up;
  idle_sock = sock-IsIdle down up;
  idle_tun = tun-IsIdle down up;
  reach = holding-Reach down up;
  two_main = omega arith;
  two_plugin = omega arith;
  enough_plugin = omega arith;
  enough_main = omega arith;
}

tunnel-delivers_example :
    let t =
      take_turns
        (turning up down)
        fds
        late
        (take_turns (turning up down) fds early (holding up down)) in
    let t' =
      take_turns
        (turning down up)
        fds
        later_on
        (take_turns (turning down up) fds early (holding down up)) in
    (written (pos 3) t'.calls ≡ fetched (turning up down) (pos 3) t.calls)
    × (written (pos 3) t.calls ≡ fetched (turning down up) (pos 3) t'.calls)
tunnel-delivers_example =
    tunnel-delivers (turning up down) (turning down up) fds fds [] [] fresh_loop fresh_loop
      fresh_loop fresh_loop (holding up down) (holding down up) early late early later_on
      host-IsResting peer-IsResting refl refl
