-- ===== src/Tests/Streams.antt =====
-- The loops of the threads at concrete inputs.
use multivpn.Globals.{zeroed}
use multivpn.Machine.{Machine}
use multivpn.Os.{Call, read, recv}
use multivpn.Prelude.Int.{ℤ, pos}
use multivpn.Prelude.{ℕ, ◌≡◌, refl, false, List, length, replicate, length-replicate, ok, arith}
use multivpn.Program.Streams.{Carried, main_loop-Carried}
use multivpn.Program.{main_loop}
use multivpn.SipPlugin.Frames.{BringsBytes, Forwards, sip_loop_tun_events-Forwards}
use multivpn.SipPlugin.Tunnel.{Sends}
use multivpn.SipPlugin.{sip_loop_tun_events}
use multivpn.TcpPlugin.Relay.{IsRead, IsPosix}
use multivpn.TcpPlugin.Streams.{Relays, tunnel_rounds-Relays}
use multivpn.TcpPlugin.{Loop, tunnel_rounds}
use multivpn.Tests.Setup.{give, give-Supplies, chatty, idle}

chatty-reads : (h : List Call) (fd : ℤ) (size : ℕ) → IsRead size (chatty h (read fd size))
chatty-reads h fd ℕ.zero = record { counted = refl; bounded = omega arith }
chatty-reads h fd (ℕ.suc ℕ.zero) = record { counted = refl; bounded = omega arith }
chatty-reads h fd (ℕ.suc (ℕ.suc n)) = record { counted = refl; bounded = omega arith }

chatty-recvs : (h : List Call) (fd : ℤ) (size : ℕ) → IsRead size (chatty h (recv fd size))
chatty-recvs h fd ℕ.zero = record { counted = refl; bounded = omega arith }
chatty-recvs h fd (ℕ.suc ℕ.zero) = record { counted = refl; bounded = omega arith }
chatty-recvs h fd (ℕ.suc (ℕ.suc n)) = record { counted = refl; bounded = omega arith }

pub chatty-IsPosix : IsPosix chatty
chatty-IsPosix = record { reads = chatty-reads; recvs = chatty-recvs }

tunnel_rounds-Relays_example :
    (l' : Loop) × (t : List Call) × (tunnel_rounds 3
        (pos 4)
        (pos 9)
        (record { buffer = replicate 1505 0; set_reading = λ fd. false })
        chatty
        idle
      ≡ ok (l', record idle { trace = t }))
    × Relays chatty
        (pos 4)
        (idle.globals.pipe_to_plugin).0
        (idle.globals.pipe_from_plugin).1
        idle.trace
        t
    × (length l'.buffer ≡ 1505)
tunnel_rounds-Relays_example =
    tunnel_rounds-Relays 3 (pos 4) (pos 9)
      (record { buffer = replicate 1505 0; set_reading = λ fd. false }) chatty idle chatty-IsPosix
      (length-replicate {A = ℕ} 1505 0)

pub chatty-Sends : Sends chatty
chatty-Sends = record { creates = λ h t f. refl; creates_uac = λ h. refl; sends = λ h x. refl }

pub chatty-BringsBytes : BringsBytes chatty
chatty-BringsBytes h fd ℕ.zero = tt
chatty-BringsBytes h fd (ℕ.suc ℕ.zero) = tt
chatty-BringsBytes h fd (ℕ.suc (ℕ.suc n)) = (omega arith, (omega arith, tt))

abbrev pub fresh_loop : Loop
fresh_loop = record { buffer = replicate 1505 0; set_reading = λ fd. false }

sip_loop_tun_events-Forwards_example :
    (l' : Loop) × (t : List Call) × (sip_loop_tun_events give 3 (pos 9) fresh_loop chatty idle
      ≡ ok (l', record idle { trace = t }))
    × Forwards chatty (idle.globals.pipe_to_plugin).0 idle.trace t
sip_loop_tun_events-Forwards_example =
    sip_loop_tun_events-Forwards give 3 (pos 9) fresh_loop chatty idle give-Supplies chatty-Sends
      chatty-IsPosix chatty-BringsBytes (length-replicate {A = ℕ} 1505 0)

-- The interface is open beside the pipes' descriptors 0.
abbrev opened : Machine
opened = record idle { tfd = pos 3 }

main_loop-Carried_example :
    (l' : Loop) × (t : List Call) × (main_loop 3 fresh_loop chatty opened
      ≡ ok (l', record opened { trace = t }))
    × Carried chatty
        (pos 3)
        (opened.globals.pipe_from_plugin).0
        (opened.globals.pipe_to_plugin).1
        opened.trace
        t
unfolding idle zeroed
main_loop-Carried_example =
    main_loop-Carried 3 fresh_loop chatty opened chatty-IsPosix (length-replicate {A = ℕ} 1505 0)
      (λ e. cc e) (λ e. cc e)
