-- ===== src/SipHost/Turns.antt =====
-- Runs of a SIP host: its three threads make their steps in the order of a list of turns, while PJSIP
-- makes no callback.
use multivpn.Base64.{Malloc}
use multivpn.Os.{Os}
use multivpn.Prelude.Int.{ℤ}
use multivpn.Prelude.{ℕ, suc, List, [], ◌∷◌, Exec, ok, ◌>>=◌}
use multivpn.SipHost.{SipHost, by_main}
use multivpn.SipThreads.{sender_step, receiver_step}

pub data Turn : Type 0 where
  main_turn sender_turn receiver_turn : Turn

abbrev pub by_turn : Malloc → ℤ → Os → Turn → SipHost → Exec SipHost
by_turn malloc maxfd os main_turn s = ok (by_main os s)
by_turn malloc maxfd os sender_turn s = do
  (pc, m) ← sender_step malloc maxfd s.sender os s.machine
  ok (record s { sender = pc; machine = m })
by_turn malloc maxfd os receiver_turn s = do
  (pc, m) ← receiver_step s.receiver os s.machine
  ok (record s { receiver = pc; machine = m })

abbrev pub take_turns : Malloc → ℤ → Os → List Turn → SipHost → Exec SipHost
take_turns malloc maxfd os [] s = ok s
take_turns malloc maxfd os (x ∷ order) s = do
  t ← by_turn malloc maxfd os x s
  take_turns malloc maxfd os order t

-- How many turns each thread has.
abbrev pub main_turns : List Turn → ℕ
main_turns [] = 0
main_turns (main_turn ∷ order) = suc (main_turns order)
main_turns (_ ∷ order) = main_turns order

abbrev pub sender_turns : List Turn → ℕ
sender_turns [] = 0
sender_turns (sender_turn ∷ order) = suc (sender_turns order)
sender_turns (_ ∷ order) = sender_turns order

abbrev pub receiver_turns : List Turn → ℕ
receiver_turns [] = 0
receiver_turns (receiver_turn ∷ order) = suc (receiver_turns order)
receiver_turns (_ ∷ order) = receiver_turns order
