-- ===== src/Host.antt =====
-- The two threads of a TCP host over the same pipes, interleaved call by call in any order: the main
-- thread in `MainLoop`, and the plugin's thread in the loop of tcp_plugin.c.
pub mod Main
pub mod Tcp
pub mod Order
pub mod Rounds
pub mod Settling
pub mod MainTurn
pub mod Turns
pub mod Effort
pub mod Fairness
pub mod Delivery
use multivpn.Os.{Os, Call}
use multivpn.Prelude.Int.{ℤ}
use multivpn.Prelude.{◌≢◌, ◌≡◌, List, ◌∷◌, length}
use multivpn.Threads.{Pc, at_select, call_of, next_pc, main_plan, tcp_plan}
use multivpn.TcpPlugin.{Loop}

-- The interface, the socket, and the two ends of `pipe_from_plugin` and of `pipe_to_plugin`.
pub record Fds : Type 0 where
  pub tun : ℤ
  pub sock : ℤ
  pub from_in : ℤ
  pub from_out : ℤ
  pub to_in : ℤ
  pub to_out : ℤ

-- Descriptors that are read are different ones, and so are those that are written.
pub record Apart (d : Fds) : Type 0 where
  pub tun_from : d.tun ≢ d.from_in
  pub tun_to : d.tun ≢ d.to_in
  pub from_to : d.from_in ≢ d.to_in
  pub tun_to_out : d.tun ≢ d.to_out
  pub tun_from_out : d.tun ≢ d.from_out
  pub to_from_out : d.to_out ≢ d.from_out

pub record Host : Type 0 where
  pub main : Pc
  pub plugin : Pc
  pub calls : List Call

-- The next call of the one thread, and of the other, answered by the system.
abbrev pub by_main : Os → Fds → Host → Host
by_main os d s =
    let p = main_plan d.tun d.from_in d.to_out in
    let c = call_of p s.main in
    record s { main = next_pc p s.main (os s.calls c); calls = c ∷ s.calls }

abbrev pub by_plugin : Os → Fds → Host → Host
by_plugin os d s =
    let p = tcp_plan d.sock d.to_in d.from_out in
    let c = call_of p s.plugin in
    record s { plugin = next_pc p s.plugin (os s.calls c); calls = c ∷ s.calls }

pub data Step (os : Os) (d : Fds) (s : Host) : Host → Type 0 where
  main_call : Step os d s (by_main os d s)
  plugin_call : Step os d s (by_plugin os d s)

-- Both threads start in front of `select`, with any local variables and after any calls.
pub data Reach (os : Os) (d : Fds) (h : List Call) (l m : Loop) : Host → Type 0 where
  start : Reach os d h l m (record { main = at_select l; plugin = at_select m; calls = h })
  later : {s t : Host} → Reach os d h l m s → Step os d s t → Reach os d h l m t
