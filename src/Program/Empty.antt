-- ===== src/Program/Empty.antt =====
-- Calls of which none carries bytes.
use multivpn.Os.{Os, send_msg, Call, read, recv, write, send}
use multivpn.Prelude.Int.{ℤ}
use multivpn.Prelude.{◌≡◌, refl, List, [], ◌∷◌, arith}
use multivpn.Program.Keeps.{transfers}
use multivpn.TcpPlugin.Streams.{fetched, received, written, sent}
use multivpn.SipPlugin.Frames.{frames, headers}

module _ (os : Os) (fd : ℤ) where
  pub none_fetched : (h : List Call) → transfers h ≡ 0 → fetched os fd h ≡ []
  none_fetched [] e = refl
  none_fetched (read x n ∷ h) e = absurd (omega (arith, e))
  none_fetched (c ∷ h) e = none_fetched h (ground (arith, e))

  pub none_received : (h : List Call) → transfers h ≡ 0 → received os fd h ≡ []
  none_received [] e = refl
  none_received (recv x n ∷ h) e = absurd (omega (arith, e))
  none_received (c ∷ h) e = none_received h (ground (arith, e))

  pub none_written : (h : List Call) → transfers h ≡ 0 → written fd h ≡ []
  none_written [] e = refl
  none_written (write x bytes ∷ h) e = absurd (omega (arith, e))
  none_written (c ∷ h) e = none_written h (ground (arith, e))

  pub none_sent : (h : List Call) → transfers h ≡ 0 → sent fd h ≡ []
  none_sent [] e = refl
  none_sent (send x bytes ∷ h) e = absurd (omega (arith, e))
  none_sent (c ∷ h) e = none_sent h (ground (arith, e))

  pub none_framed : (h : List Call) → transfers h ≡ 0 → frames os fd h ≡ []
  none_framed [] e = refl
  none_framed (read x n ∷ h) e = absurd (omega (arith, e))
  none_framed (c ∷ h) e = none_framed h (ground (arith, e))

pub none_headed : (h : List Call) → transfers h ≡ 0 → headers h ≡ []
none_headed [] e = refl
none_headed (send_msg header ∷ h) e = absurd (omega (arith, e))
none_headed (c ∷ h) e = none_headed h (ground (arith, e))
