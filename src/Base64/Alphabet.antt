-- ===== src/Base64/Alphabet.antt =====
-- The alphabet of RFC 4648, and that the table of base64.c holds it.
use multivpn.Prelude.{
  ℕ, ◌+◌, ◌-◌, ◌<◌, ◌≡◌, ◌∙◌, refl, sym, ap, true, false, ◌==◌, ==_iff, ltb, if◌then◌else◌,
  every_below, every_below_elim, ok, arith, Bytes,
}
use multivpn.Base64.Lookup.{Inverts, digit_bounds, digit-ne-pad, sextet-digit}
use multivpn.Base64.{digit, sextet, built}

-- Table 1 of RFC 4648: the upper-case letters, the lower-case letters, the digits, '+' and '/'.
unfoldable pub letter : ℕ → ℕ
letter i =
    if ltb i 26
    then b'A' + i
    else if ltb i 52
    then b'a' + (i - 26)
    else if ltb i 62
    then b'0' + (i - 52)
    else if i == 62
    then b'+'
    else b'/'

same_alphabet : every_below (λ i. digit i == letter i) 64 ≡ true
unfolding every_below digit letter
same_alphabet = refl

pub digit-letter : (i : ℕ) → i < 64 → digit i ≡ letter i
digit-letter i h = (==_iff (digit i) (letter i)).0 (every_below_elim _ 64 i same_alphabet h)

pub letter_bounds : (i : ℕ) → i < 64 → (0 < letter i) × (letter i < 128)
letter_bounds i h =
    let e = digit-letter i h in
    let b = digit_bounds i h in (omega (arith, e, b), omega (arith, e, b))

pub letter-ne-pad : (i : ℕ) → i < 64 → (letter i == b'=') ≡ false
letter-ne-pad i h = ap (λ c. c == b'=') (sym (digit-letter i h)) ∙ digit-ne-pad i h

pub sextet-letter :
    (table : Bytes) (i : ℕ) → Inverts table → i < 64 → sextet (built table) (letter i) ≡ ok i
sextet-letter table i inv h =
    ap (sextet (built table)) (sym (digit-letter i h)) ∙ sextet-digit table i inv h
