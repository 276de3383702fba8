-- ===== src/Threads.antt =====
-- The relay loops of main.c and tcp_plugin.c call by call: where a thread stands in its loop, the
-- call that it makes next, and where the reply takes it.
pub mod Rounds
pub mod Draining
pub mod Starving
pub mod Progress
use multivpn.Globals.{block_size}
use multivpn.Os.{Os, Call, Reply, FdSet, read, recv, write, send, select, fd_add, selected}
use multivpn.Prelude.Int.{ℤ, is_pos, pos_part}
use multivpn.Prelude.{ℕ, ◌-◌, Bool, true, false, Bytes, take, if◌then◌else◌}
use multivpn.TcpPlugin.{Loop, overlay, max_fd}

-- What a loop does with one of its two descriptors: the read, and the write of what was read.
pub record Direction : Type 0 where
  pub source : Call
  pub sink : Bytes → Call

pub data Side : Type 0 where
  first second : Side

-- A loop: the first of its two descriptors is served before the second, and `clears` tells
-- whether the set is cleared at the end of a round.
pub record Plan : Type 0 where
  pub maxfd : ℤ
  pub first_fd : ℤ
  pub second_fd : ℤ
  pub first_direction : Direction
  pub second_direction : Direction
  pub clears : Bool

abbrev pub direction : Plan → Side → Direction
direction p first = p.first_direction
direction p second = p.second_direction

-- `MainLoop`, between the interface and the pipes
abbrev pub main_plan : ℤ → ℤ → ℤ → Plan
main_plan fd_tun pipe_in pipe_out = record {
  maxfd = max_fd fd_tun pipe_in;
  first_fd = fd_tun;
  second_fd = pipe_in;
  first_direction = record { source = read fd_tun (block_size - 1); sink = write pipe_out };
  second_direction = record { source = read pipe_in block_size; sink = write fd_tun };
  clears = true;
}

-- The loop of `tcp_startClient` and of `tcp_startServer`, between the socket and the pipes
abbrev pub tcp_plan : ℤ → ℤ → ℤ → Plan
tcp_plan fd pipe_in pipe_out = record {
  maxfd = max_fd fd pipe_in;
  first_fd = fd;
  second_fd = pipe_in;
  first_direction = record { source = recv fd (block_size - 1); sink = write pipe_out };
  second_direction = record { source = read pipe_in (block_size - 1); sink = send fd };
  clears = false;
}

-- The call that a thread makes next, with the local variables; at a write, the bytes as well.
pub data Pc : Type 0 where
  at_select : Loop → Pc
  at_source : Side → Loop → Pc
  at_sink : Side → Bytes → Loop → Pc

abbrev pub asked : Plan → Loop → FdSet
asked p l = fd_add p.first_fd (fd_add p.second_fd l.set_reading)

abbrev pub call_of : Plan → Pc → Call
call_of p (at_select l) = select p.maxfd (asked p l)
call_of p (at_source side l) = (direction p side).source
call_of p (at_sink side bytes l) = (direction p side).sink bytes

-- The end of a round
abbrev pub round_end : Plan → Loop → Pc
round_end p l =
    at_select (record {
      buffer = l.buffer;
      set_reading = if p.clears then (λ fd. false) else l.set_reading;
    })

abbrev pub next_pc : Plan → Pc → Reply → Pc
next_pc p (at_select l) r =
    let ready = selected (asked p l) r in
    let l' = record l { set_reading = ready } in
    if ready p.first_fd
    then at_source first l'
    else if ready p.second_fd
    then at_source second l'
    else round_end p l'
next_pc p (at_source side l) r =
    let filled = overlay r.bytes l.buffer in
    let l' = record l { buffer = filled } in
    if is_pos r.ret then at_sink side (take (pos_part r.ret) filled) l' else round_end p l'
next_pc p (at_sink side bytes l) r = round_end p l
