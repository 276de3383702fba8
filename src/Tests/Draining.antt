-- ===== src/Tests/Draining.antt =====
-- Helpers for the tests on pipes that are emptied.
use multivpn.Prelude.Int.{pos, is_pos}
use multivpn.Prelude.{
  ℕ, suc, ◌<◌, ◌≡◌, true, false, ap, take, [], ◌∷◌, ◌++◌, Bytes, length, length-append, replicate,
  arith,
}
use multivpn.TcpPlugin.{Loop}

-- A read of the pipe brings a byte where one waits.
pub some_come :
    (n : ℕ) (xs : Bytes) → 0 < length xs → is_pos (pos (length (take (suc n) xs))) ≡ true
some_come n [] h = absurd (omega (arith, h))
some_come n (x ∷ xs) h = ground arith

pub fewer : (xs ys zs : Bytes) → xs ++ ys ≡ zs → length xs < length zs → 0 < length ys
fewer xs ys zs e h = omega (arith, h, length-append xs ys, ap {B = ℕ} length e)

abbrev pub fresh_loop : Loop
fresh_loop = record { buffer = replicate 1505 0; set_reading = λ fd. false }
