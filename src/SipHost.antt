-- ===== src/SipHost.antt =====
-- The three threads of a SIP host over the same pipes, interleaved call by call in any order: the
-- main thread in `MainLoop`, and the two threads of sip_plugin.c.
pub mod Sending
pub mod Progress
pub mod Receiving
pub mod Callbacks
pub mod Foreign
pub mod Ledgers
pub mod Order
pub mod Lossy
pub mod Bytes
pub mod Turns
pub mod Effort
pub mod Leaving
pub mod Turning
pub mod Taking
pub mod Fairness
pub mod Delivery
use multivpn.Base64.{Malloc}
use multivpn.Host.{Fds}
use multivpn.Machine.{Machine}
use multivpn.Os.{Os}
use multivpn.Prelude.Int.{ℤ}
use multivpn.Prelude.{ℕ, ◌≡◌, List, [], ◌∷◌, ◌++◌, ok}
use multivpn.SipEvents.{Event}
use multivpn.SipThreads.{
  Sender, tun_select, sender_step, Receiver, rx_test, rx_handle, receiver_event, receiver_step,
}
use multivpn.TcpPlugin.{Loop}
use multivpn.Threads.{Plan, Pc, at_select, call_of, next_pc, main_plan}

-- The descriptors, as the program's variables name them.
abbrev pub fds_of : Machine → Fds
fds_of m = record {
  tun = m.tfd;
  sock = m.socket_connected;
  from_in = (m.globals.pipe_from_plugin).0;
  from_out = (m.globals.pipe_from_plugin).1;
  to_in = (m.globals.pipe_to_plugin).0;
  to_out = (m.globals.pipe_to_plugin).1;
}

-- The program's state, where each thread stands, and the callbacks that PJSIP has made.
pub record SipHost : Type 0 where
  pub machine : Machine
  pub main : Pc
  pub sender : Sender
  pub receiver : Receiver
  pub events : List Event

abbrev pub main_plan_of : Machine → Plan
main_plan_of m = main_plan m.tfd (m.globals.pipe_from_plugin).0 (m.globals.pipe_to_plugin).1

abbrev pub by_main : Os → SipHost → SipHost
by_main os s =
    let p = main_plan_of s.machine in
    let c = call_of p s.main in
    record s {
      main = next_pc p s.main (os s.machine.trace c);
      machine = record s.machine { trace = c ∷ s.machine.trace };
    }

-- The next step of a thread that does not fault; inside of `pjsip_endpt_handle_events` any callback
-- may be made.
pub data Step (malloc : Malloc) (junk : ℕ) (maxfd : ℤ) (os : Os) (s : SipHost)
    : SipHost → Type 0 where
  main_call : Step malloc junk maxfd os s (by_main os s)
  sender_call :
      (pc : Sender) (m : Machine)
      → sender_step malloc maxfd s.sender os s.machine ≡ ok (pc, m)
      → Step malloc junk maxfd os s (record s { sender = pc; machine = m })
  receiver_call :
      (pc : Receiver) (m : Machine)
      → receiver_step s.receiver os s.machine ≡ ok (pc, m)
      → Step malloc junk maxfd os s (record s { receiver = pc; machine = m })
  callback :
      (e : Event) (pc : Receiver) (m : Machine)
      → s.receiver ≡ rx_handle
      → receiver_event malloc junk e os s.machine ≡ ok (pc, m)
      → Step malloc junk maxfd os s
          (record s { receiver = pc; machine = m; events = s.events ++ e ∷ [] })

-- The threads start in front of their loops, with any local variables and after any calls.
abbrev pub begun : Machine → Loop → Loop → SipHost
begun m l k = record {
  machine = m;
  main = at_select l;
  sender = tun_select k;
  receiver = rx_test;
  events = [];
}

pub data Reach (malloc : Malloc) (junk : ℕ) (maxfd : ℤ) (os : Os) (m : Machine) (l k : Loop)
    : SipHost → Type 0 where
  start : Reach malloc junk maxfd os m l k (begun m l k)
  later :
      {s t : SipHost}
      → Reach malloc junk maxfd os m l k s
      → Step malloc junk maxfd os s t
      → Reach malloc junk maxfd os m l k t
