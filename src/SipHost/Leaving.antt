-- ===== src/SipHost/Leaving.antt =====
-- What a step of the thread of the SIP events leaves as it is.
use mathlib.Core.List.{append-nil}
use multivpn.Host.{Apart}
use multivpn.Machine.{Machine}
use multivpn.Os.{Os, Call}
use multivpn.Prelude.Int.{int_eq_ne}
use multivpn.Prelude.{
  ℕ, ◌-◌, ◌≡◌, refl, sym, ap, List, none, some, Bytes, length, arith, inl, inr, Bool-cases,
}
use multivpn.SipHost.Effort.{waits}
use multivpn.SipHost.Receiving.{receiver_next}
use multivpn.SipHost.{fds_of}
use multivpn.SipThreads.{Receiver, rx_test, rx_handle, rx_end, rx_write, rx_respond}
use multivpn.TcpPlugin.Streams.{fetched}
use multivpn.Threads.Draining.{Since, Since-cons}
use multivpn.Threads.Progress.{behind}
use multivpn.Threads.{Pc}

-- How many steps the thread of the SIP events is away from the end of a write.
abbrev pub before_written : Receiver → ℕ
before_written (rx_write frame n) = 1
before_written _ = 0

-- The thread of the SIP events leaves the pipe to the plugin alone, and the other one unless it is in
-- front of a write.
pub record Leaves (os : Os) (base : List Call) (pc : Receiver) (m : Machine) : Type 0 where
  pub since : Since base m.trace → Since base (receiver_next pc m).1.trace
  pub waits_same : waits os (receiver_next pc m).1 ≡ waits os m
  pub down_same :
      before_written pc ≡ 0
      → (q : Pc)
      → let d' = fds_of (receiver_next pc m).1 in
        behind os d'.from_in d'.from_out q (receiver_next pc m).1.trace
        ≡ behind os (fds_of m).from_in (fds_of m).from_out q m.trace
  pub written_soon : before_written (receiver_next pc m).0 ≡ 0

pub receiver_next-Leaves :
    (os : Os) (base : List Call) (pc : Receiver) (m : Machine)
    → Apart (fds_of m)
    → Leaves os base pc m
receiver_next-Leaves os base rx_test m a = record {
  since = λ b. b;
  waits_same = refl;
  down_same = λ c q. refl;
  written_soon = elim (Bool-cases m.g_complete) [ inl e ↦ rw e refl | inr e ↦ rw e refl ];
}
receiver_next-Leaves os base rx_handle m a = record {
  since = λ b. b;
  waits_same = refl;
  down_same = λ c q. refl;
  written_soon = refl;
}
receiver_next-Leaves os base rx_end m a = record {
  since = λ b. b;
  waits_same = refl;
  down_same = λ c q. refl;
  written_soon = refl;
}
receiver_next-Leaves os base (rx_write none n) m a = record {
  since = λ b. Since-cons _ b;
  waits_same = refl;
  down_same = λ c q. refl;
  written_soon = refl;
}
receiver_next-Leaves os base (rx_write (some bytes) n) m a = record {
  since = λ b. Since-cons _ b;
  waits_same =
      ap (λ (x : Bytes). length x - length (fetched os (fds_of m).to_in m.trace))
        (rw
          (int_eq_ne (fds_of m).from_out (fds_of m).to_out (λ e. a.to_from_out (sym e)), append-nil)
          refl);
  down_same = λ c q. absurd (omega (arith, c));
  written_soon = refl;
}
receiver_next-Leaves os base (rx_respond code text) m a = record {
  since = λ b. Since-cons _ b;
  waits_same = refl;
  down_same = λ c q. refl;
  written_soon = refl;
}
