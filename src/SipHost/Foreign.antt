-- ===== src/SipHost/Foreign.antt =====
-- No thread of a SIP host touches what another one counts.
use mathlib.Core.List.{append-nil}
use mathlib.Core.Path.{subst}
use multivpn.Host.Main.{MainLedger}
use multivpn.Host.{Apart}
use multivpn.Machine.{Machine}
use multivpn.Os.{Os}
use multivpn.Prelude.Int.{ℤ, int_eq_ne}
use multivpn.Prelude.{◌≡◌, ◌∙◌, refl, sym, ap, ◌∷◌, none, some}
use multivpn.SipHost.Receiving.{receiver_next}
use multivpn.SipHost.Sending.{SenderLedger, sender_call_of}
use multivpn.SipHost.{fds_of, main_plan_of}
use multivpn.SipPlugin.Frames.{frames, headers}
use multivpn.SipThreads.{
  Sender, tun_select, tun_read, tun_request, tun_uac, tun_send, Receiver, rx_test, rx_handle,
  rx_end, rx_write, rx_respond,
}
use multivpn.TcpPlugin.Streams.{written}
use multivpn.Threads.{Pc, first, second, at_select, at_source, at_sink, call_of}

-- The calls of another thread that do not touch what a thread counts.
module _ {os : Os} (m m' : Machine) where
  pub MainLedger-kept :
      (pc : Pc)
      → fds_of m' ≡ fds_of m
      → m'.trace ≡ m.trace
      → MainLedger os (fds_of m) pc m.trace
      → MainLedger os (fds_of m') pc m'.trace
  MainLedger-kept pc e f v =
      subst (λ d. MainLedger os d pc m'.trace) (sym e)
        (subst (λ h. MainLedger os (fds_of m) pc h) (sym f) v)

  pub SenderLedger-kept :
      (pc : Sender)
      → m'.globals ≡ m.globals
      → frames os (m.globals.pipe_to_plugin).0 m'.trace
        ≡ frames os (m.globals.pipe_to_plugin).0 m.trace
      → headers m'.trace ≡ headers m.trace
      → SenderLedger os pc m
      → SenderLedger os pc m'
  SenderLedger-kept pc g e f v = record {
    gone = v.gone;
    here = v.here;
    took = ap (λ x. frames os (x.pipe_to_plugin).0 m'.trace) g ∙ e ∙ v.took;
    sent = f ∙ v.sent;
    holding = v.holding;
    framed = v.framed;
    sized = v.sized;
  }

module _ (os : Os) (m : Machine) (apart : Apart (fds_of m)) where
  -- The main thread's calls.
  pub call_of-SenderLedger :
      (other : Pc) (pc : Sender)
      → SenderLedger os pc m
      → SenderLedger os pc (record m { trace = call_of (main_plan_of m) other ∷ m.trace })
  call_of-SenderLedger (at_select l) pc v = SenderLedger-kept m _ pc refl refl refl v
  call_of-SenderLedger (at_source first l) pc v =
      SenderLedger-kept m _ pc refl
        (rw (int_eq_ne (fds_of m).tun (fds_of m).to_in apart.tun_to, append-nil) refl) refl v
  call_of-SenderLedger (at_source second l) pc v =
      SenderLedger-kept m _ pc refl
        (rw (int_eq_ne (fds_of m).from_in (fds_of m).to_in apart.from_to, append-nil) refl) refl v
  call_of-SenderLedger (at_sink first bytes l) pc v = SenderLedger-kept m _ pc refl refl refl v
  call_of-SenderLedger (at_sink second bytes l) pc v = SenderLedger-kept m _ pc refl refl refl v

  pub call_of-written :
      (other : Pc)
      → written (fds_of m).from_out (call_of (main_plan_of m) other ∷ m.trace)
        ≡ written (fds_of m).from_out m.trace
  call_of-written (at_select l) = refl
  call_of-written (at_source first l) = refl
  call_of-written (at_source second l) = refl
  call_of-written (at_sink first bytes l) =
      rw (int_eq_ne (fds_of m).to_out (fds_of m).from_out apart.to_from_out, append-nil) refl
  call_of-written (at_sink second bytes l) =
      rw (int_eq_ne (fds_of m).tun (fds_of m).from_out apart.tun_from_out, append-nil) refl

  -- The sending thread's calls.
  pub sender_call_of-MainLedger :
      (maxfd : ℤ) (other : Sender) (pc : Pc)
      → MainLedger os (fds_of m) pc m.trace
      → MainLedger os (fds_of m) pc (sender_call_of maxfd m other ∷ m.trace)
  sender_call_of-MainLedger maxfd (tun_read l) pc v = record {
    up =
        rw (int_eq_ne (fds_of m).to_in (fds_of m).tun (λ e. apart.tun_to (sym e)), append-nil) v.up;
    down =
        rw (int_eq_ne (fds_of m).to_in (fds_of m).from_in (λ e. apart.from_to (sym e)), append-nil)
          v.down;
    sized = v.sized;
  }
  sender_call_of-MainLedger maxfd (tun_select l) pc v = record {
    up = v.up;
    down = v.down;
    sized = v.sized;
  }
  sender_call_of-MainLedger maxfd (tun_request e l) pc v = record {
    up = v.up;
    down = v.down;
    sized = v.sized;
  }
  sender_call_of-MainLedger maxfd (tun_uac e l) pc v = record {
    up = v.up;
    down = v.down;
    sized = v.sized;
  }
  sender_call_of-MainLedger maxfd (tun_send header l) pc v = record {
    up = v.up;
    down = v.down;
    sized = v.sized;
  }

  pub sender_call_of-written :
      (maxfd : ℤ) (other : Sender) (fd : ℤ)
      → written fd (sender_call_of maxfd m other ∷ m.trace) ≡ written fd m.trace
  sender_call_of-written maxfd (tun_read l) fd = refl
  sender_call_of-written maxfd (tun_select l) fd = refl
  sender_call_of-written maxfd (tun_request e l) fd = refl
  sender_call_of-written maxfd (tun_uac e l) fd = refl
  sender_call_of-written maxfd (tun_send header l) fd = refl

  -- The calls of the thread of the SIP events.
  pub receiver_next-MainLedger :
      (other : Receiver) (pc : Pc)
      → MainLedger os (fds_of m) pc m.trace
      → MainLedger os (fds_of (receiver_next other m).1) pc (receiver_next other m).1.trace
  receiver_next-MainLedger rx_test pc v = v
  receiver_next-MainLedger rx_handle pc v = v
  receiver_next-MainLedger rx_end pc v = v
  receiver_next-MainLedger (rx_write none n) pc v = record {
    up = v.up;
    down = v.down;
    sized = v.sized;
  }
  receiver_next-MainLedger (rx_write (some bytes) n) pc v = record {
    up =
        rw
          (
            int_eq_ne (fds_of m).from_out (fds_of m).to_out (λ e. apart.to_from_out (sym e)),
            append-nil,
          )
          v.up;
    down =
        rw
          (
            int_eq_ne (fds_of m).from_out (fds_of m).tun (λ e. apart.tun_from_out (sym e)),
            append-nil,
          )
          v.down;
    sized = v.sized;
  }
  receiver_next-MainLedger (rx_respond code text) pc v = record {
    up = v.up;
    down = v.down;
    sized = v.sized;
  }

  pub receiver_next-SenderLedger :
      (other : Receiver) (pc : Sender)
      → SenderLedger os pc m
      → SenderLedger os pc (receiver_next other m).1
  receiver_next-SenderLedger rx_test pc v = v
  receiver_next-SenderLedger rx_handle pc v = v
  receiver_next-SenderLedger rx_end pc v = v
  receiver_next-SenderLedger (rx_write none n) pc v = SenderLedger-kept m _ pc refl refl refl v
  receiver_next-SenderLedger (rx_write (some bytes) n) pc v =
      SenderLedger-kept m _ pc refl refl refl v
  receiver_next-SenderLedger (rx_respond code text) pc v = SenderLedger-kept m _ pc refl refl refl v

pub receiver_next-fds_of :
    (other : Receiver) (m : Machine) → fds_of (receiver_next other m).1 ≡ fds_of m
receiver_next-fds_of rx_test m = refl
receiver_next-fds_of rx_handle m = refl
receiver_next-fds_of rx_end m = refl
receiver_next-fds_of (rx_write none n) m = refl
receiver_next-fds_of (rx_write (some bytes) n) m = refl
receiver_next-fds_of (rx_respond code text) m = refl
