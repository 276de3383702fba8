-- ===== src/Tests/SipQuiet.antt =====
-- SIP hosts that become quiet.
use multivpn.Base64.Encode.{IsBytes}
use multivpn.Prelude.Int.{pos}
use multivpn.Prelude.{refl, [], ◌∷◌, Bytes, codes, take, length-replicate, ℕ}
use multivpn.SipEvents.Stream.{arrival}
use multivpn.SipHost.Bytes.{ReadsBytes}
use multivpn.SipHost.Ledgers.{IsReady}
use multivpn.Tests.Quiet.{turning, turning-IsPosix, turning_to, turning_from}
use multivpn.Tests.Setup.{give, give-Supplies, idle}
use multivpn.Tests.SipHosts.{wired, wired-IsReady, fresh_loop, Run, main, receiver, event, run}

-- The interface of the one host brings three bytes, and that of the other two.
abbrev pub up : Bytes
up = 1 ∷ 2 ∷ 3 ∷ []

abbrev pub down : Bytes
down = 9 ∷ 8 ∷ []

pub IsBytes-take : (n : ℕ) (xs : Bytes) → IsBytes xs → IsBytes (take n xs)
IsBytes-take ℕ.zero xs h = tt
IsBytes-take (ℕ.suc n) [] h = tt
IsBytes-take (ℕ.suc n) (x ∷ xs) h = (h.0, IsBytes-take n xs h.1)

module _ (came other : Bytes) (bytes : IsBytes came) where
  turning-ReadsBytes : ReadsBytes (turning came other) (pos 3)
  turning-ReadsBytes h n = IsBytes-take n came bytes

  pub turned-IsReady : IsReady give (turning came other) wired fresh_loop fresh_loop
  unfolding idle
  turned-IsReady = record {
    apart = (wired-IsReady (pos 3) (pos 7)).apart;
    posix = turning-IsPosix came other;
    brings = turning-ReadsBytes;
    sends = record { creates = λ h t f. refl; creates_uac = λ h. refl; sends = λ h x. refl };
    supplies = give-Supplies;
    to_plugin = turning_to came other;
    from_plugin = turning_from came other;
    usable = tt;
    fetched_tun = refl;
    fetched_from = refl;
    frames_to = refl;
    written_tun = refl;
    written_from = refl;
    written_to = refl;
    sent_headers = refl;
    main_buffer = length-replicate {A = ℕ} 1505 0;
    sender_buffer = length-replicate {A = ℕ} 1505 0;
  }

-- The main thread has read a frame and holds it, and a request with a frame has been taken.
abbrev pub host : Run (turning up down)
host = run (turning up down) (receiver ∷ main ∷ main ∷ event (arrival (codes "CQg=")) ∷ [])

abbrev pub peer : Run (turning down up)
peer = run (turning down up) (receiver ∷ main ∷ main ∷ event (arrival (codes "AQID")) ∷ [])
