-- ===== src/SipHost/Ledgers.antt =====
-- What the three threads of a SIP host have carried, in every reachable state.
use mathlib.Core.List.{flatten}
use mathlib.Core.Path.{subst}
use multivpn.Base64.Encode.{IsBytes, rfc4648}
use multivpn.Base64.Lookup.{Supplies, IsUsable}
use multivpn.Base64.{Malloc}
use multivpn.Globals.{block_size}
use multivpn.Host.Main.{MainLedger, next_pc-MainLedger}
use multivpn.Host.Order.{IsPipe}
use multivpn.Host.{Apart, Fds}
use multivpn.Machine.{Machine}
use multivpn.Os.{Os, read}
use multivpn.Prelude.Int.{ℤ}
use multivpn.Prelude.{ℕ, ◌≡◌, ◌∙◌, refl, sym, ap, List, [], ◌∷◌, ◌++◌, map, Bytes, length, ok}
use multivpn.SipEvents.{Event}
use multivpn.SipHost.Receiving.{
  held, ReceiverLedger, receiver_next, receiver_step-next, receiver_next-ReceiverLedger,
}
use multivpn.SipHost.Callbacks.{receiver_event_quiet, receiver_event-ReceiverLedger}
use multivpn.SipHost.Sending.{SenderLedger, sender_call_of}
use multivpn.SipHost.Bytes.{ReadsBytes, pipe-IsBytes}
use multivpn.SipHost.Progress.{sender_step-Goes}
use multivpn.SipHost.{
  fds_of, SipHost, by_main, Step, main_call, sender_call, receiver_call, callback, Reach, start,
  later,
}
use multivpn.SipPlugin.Frames.{frames, headers}
use multivpn.SipPlugin.Tunnel.{Sends}
use multivpn.SipThreads.{sender_step, receiver_step, receiver_event, Sender, Receiver, rx_handle}
use multivpn.TcpPlugin.Relay.{IsPosix}
use multivpn.TcpPlugin.Streams.{fetched, written}
use multivpn.TcpPlugin.{Loop}
use multivpn.SipHost.Foreign.{
  MainLedger-kept, SenderLedger-kept, call_of-SenderLedger, call_of-written,
  sender_call_of-MainLedger, sender_call_of-written, receiver_next-MainLedger,
  receiver_next-SenderLedger, receiver_next-fds_of,
}

-- The three ledgers, over the descriptors that the host started with.
pub record HostLedger (os : Os) (m : Machine) (s : SipHost) : Type 0 where
  pub same_fds : fds_of s.machine ≡ fds_of m
  pub main_ledger : MainLedger os (fds_of s.machine) s.main s.machine.trace
  pub sender_ledger : SenderLedger os s.sender s.machine
  pub receiver_ledger : ReceiverLedger s.receiver s.machine s.events

-- A host as the threads find it: its descriptors are different ones, its pipes hand on what is
-- written to them, reads are answered as POSIX has it, the interface gives bytes, PJSIP takes requests,
-- the allocator does not fail, nothing was carried before, the decoding table is unset or was built, and the
-- buffers have their size.
pub record IsReady (malloc : Malloc) (os : Os) (m : Machine) (l k : Loop) : Type 0 where
  pub apart : Apart (fds_of m)
  pub posix : IsPosix os
  pub brings : ReadsBytes os (fds_of m).tun
  pub sends : Sends os
  pub supplies : Supplies malloc
  pub to_plugin : IsPipe os (fds_of m).to_in (fds_of m).to_out
  pub from_plugin : IsPipe os (fds_of m).from_in (fds_of m).from_out
  pub usable : IsUsable m.decoding_table
  pub fetched_tun : fetched os (fds_of m).tun m.trace ≡ []
  pub fetched_from : fetched os (fds_of m).from_in m.trace ≡ []
  pub frames_to : frames os (fds_of m).to_in m.trace ≡ []
  pub written_tun : written (fds_of m).tun m.trace ≡ []
  pub written_from : written (fds_of m).from_out m.trace ≡ []
  pub written_to : written (fds_of m).to_out m.trace ≡ []
  pub sent_headers : headers m.trace ≡ []
  pub main_buffer : length l.buffer ≡ block_size
  pub sender_buffer : length k.buffer ≡ block_size

none_arrived : (fs : List Bytes) → [] ≡ map rfc4648 fs → fs ≡ []
none_arrived [] e = refl
none_arrived (f ∷ fs) e = absurd (cc e)

module _ (malloc : Malloc) (junk : ℕ) (maxfd : ℤ) (os : Os) (m : Machine) (l k : Loop)
    (ready : IsReady malloc os m l k) where
  main_call-HostLedger : (s : SipHost) → HostLedger os m s → HostLedger os m (by_main os s)
  main_call-HostLedger s v =
      let apart = subst Apart (sym v.same_fds) ready.apart in
      record {
        same_fds = v.same_fds;
        main_ledger =
            next_pc-MainLedger os (fds_of s.machine) apart ready.posix s.main s.machine.trace
              v.main_ledger;
        sender_ledger = call_of-SenderLedger os s.machine apart s.main s.sender v.sender_ledger;
        receiver_ledger = λ fs framed e.
            let (w, u) = v.receiver_ledger fs framed e in
            (ap (λ b. b ++ held s.receiver) (call_of-written os s.machine apart s.main) ∙ w, u);
      }

  -- What the sending thread finds in its pipe are bytes.
  pub HostLedger-Comes :
      (s : SipHost)
      → HostLedger os m s
      → IsBytes (os s.machine.trace (read (fds_of s.machine).to_in 1504)).bytes
  HostLedger-Comes s v =
      pipe-IsBytes os (fds_of s.machine) s.main s.machine.trace ready.posix
        (subst (λ (x : Fds). ReadsBytes os x.tun) (sym v.same_fds) ready.brings)
        (subst (λ (x : Fds). IsPipe os x.to_in x.to_out) (sym v.same_fds) ready.to_plugin)
        v.main_ledger

  sender_call-HostLedger :
      (s : SipHost) (pc : Sender) (m' : Machine)
      → sender_step malloc maxfd s.sender os s.machine ≡ ok (pc, m')
      → HostLedger os m s
      → HostLedger os m (record s { sender = pc; machine = m' })
  sender_call-HostLedger s pc m' e v =
      let apart = subst Apart (sym v.same_fds) ready.apart in
      let (pc₁, ran, ledger) =
        sender_step-Goes malloc maxfd os ready.supplies ready.sends ready.posix s.sender s.machine
          (HostLedger-Comes s v) v.sender_ledger in
      let m₁ : Machine = record s.machine {
        trace = sender_call_of maxfd s.machine s.sender ∷ s.machine.trace;
      } in
      let same : ◌≡◌ {A = Sender × Machine} (pc₁, m₁) (pc, m') = cc (ran, e) in
      subst (λ (x : Sender × Machine). HostLedger os m (record s { sender = x.0; machine = x.1 }))
        same
        (record {
          same_fds = v.same_fds;
          main_ledger =
              sender_call_of-MainLedger os s.machine apart maxfd s.sender s.main v.main_ledger;
          sender_ledger = ledger;
          receiver_ledger = λ fs framed arr.
              let (w, u) = v.receiver_ledger fs framed arr in
              (
                ap (λ b. b ++ held s.receiver)
                      (sender_call_of-written os s.machine apart maxfd s.sender
                        (fds_of s.machine).from_out)
                    ∙ w,
                u,
              );
        })

  receiver_call-HostLedger :
      (s : SipHost) (pc : Receiver) (m' : Machine)
      → receiver_step s.receiver os s.machine ≡ ok (pc, m')
      → HostLedger os m s
      → HostLedger os m (record s { receiver = pc; machine = m' })
  receiver_call-HostLedger s pc m' e v =
      let apart = subst Apart (sym v.same_fds) ready.apart in
      let same : receiver_next s.receiver s.machine ≡ (pc, m') =
        cc (receiver_step-next s.receiver os s.machine, e) in
      subst
        (λ (x : Receiver × Machine). HostLedger os m (record s { receiver = x.0; machine = x.1 }))
        same
        (record {
          same_fds = receiver_next-fds_of s.receiver s.machine ∙ v.same_fds;
          main_ledger = receiver_next-MainLedger os s.machine apart s.receiver s.main v.main_ledger;
          sender_ledger =
              receiver_next-SenderLedger os s.machine apart s.receiver s.sender v.sender_ledger;
          receiver_ledger =
              receiver_next-ReceiverLedger s.receiver s.machine s.events v.receiver_ledger;
        })

  callback-HostLedger :
      (s : SipHost) (e : Event) (pc : Receiver) (m' : Machine)
      → s.receiver ≡ rx_handle
      → receiver_event malloc junk e os s.machine ≡ ok (pc, m')
      → HostLedger os m s
      → HostLedger os m (record s { receiver = pc; machine = m'; events = s.events ++ e ∷ [] })
  callback-HostLedger s e pc m' inside ran v =
      let (trace, globals, tfd, socket, quiet) =
        receiver_event_quiet malloc junk e os s.machine m' pc ran in
      let fds : fds_of m' ≡ fds_of s.machine = cc (globals, tfd, socket) in
      let pipe_in : ℤ = (s.machine.globals.pipe_to_plugin).0 in
      record {
        same_fds = fds ∙ v.same_fds;
        main_ledger = MainLedger-kept s.machine m' s.main fds trace v.main_ledger;
        sender_ledger =
            SenderLedger-kept s.machine m' s.sender globals (ap (frames os pipe_in) trace)
              (ap headers trace) v.sender_ledger;
        receiver_ledger =
            receiver_event-ReceiverLedger malloc junk e os s.machine m' pc s.events ready.supplies
              (subst (λ r. ReceiverLedger r s.machine s.events) inside v.receiver_ledger) ran;
      }

  Step-HostLedger :
      {s t : SipHost} → Step malloc junk maxfd os s t → HostLedger os m s → HostLedger os m t
  Step-HostLedger {s} main_call v = main_call-HostLedger s v
  Step-HostLedger {s} (sender_call pc m' e) v = sender_call-HostLedger s pc m' e v
  Step-HostLedger {s} (receiver_call pc m' e) v = receiver_call-HostLedger s pc m' e v
  Step-HostLedger {s} (callback e pc m' inside ran) v = callback-HostLedger s e pc m' inside ran v

  pub Reach-HostLedger : {s : SipHost} → Reach malloc junk maxfd os m l k s → HostLedger os m s
  unfolding flatten
  Reach-HostLedger start = record {
    same_fds = refl;
    main_ledger = record {
      up = rw (ready.fetched_tun, ready.written_to) refl;
      down = rw (ready.fetched_from, ready.written_tun) refl;
      sized = ready.main_buffer;
    };
    sender_ledger = record {
      gone = [];
      here = [];
      took = ready.frames_to;
      sent = ready.sent_headers;
      holding = refl;
      framed = tt;
      sized = ready.sender_buffer;
    };
    receiver_ledger =
        λ fs framed e. (rw (ready.written_from, none_arrived fs e) refl, ready.usable);
  }
  Reach-HostLedger (later r st) = Step-HostLedger st (Reach-HostLedger r)
