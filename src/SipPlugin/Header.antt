-- ===== src/SipPlugin/Header.antt =====
-- The header value of a frame, as the receiver of a request copies it out.
use multivpn.Base64.Alphabet.{letter_bounds}
use multivpn.Base64.Encode.{IsBytes, rfc4648}
use multivpn.CString.Laws.{NonZero, c_str-strncpy}
use multivpn.CString.{c_str, contains, strncpy}
use multivpn.Machine.{Machine}
use multivpn.Os.{Os}
use multivpn.Prelude.{
  ℕ, zero, suc, ◌+◌, ◌*◌, ◌/◌, ◌%◌, ◌<◌, ◌≡◌, refl, ◌∙◌, true, false, [], ◌∷◌, Bytes, All, length,
  drop, take_all, length-replicate, ok, fault, out_of_bounds, arith, ◌==◌, if◌then◌else◌, ltb,
  lt→ltb,
}
use multivpn.SipPlugin.{copy_payload, zeros}

-- No character of the text is a NUL.
pub rfc4648-nonzero : (input : Bytes) → IsBytes input → All NonZero (rfc4648 input)
unfolding rfc4648
rfc4648-nonzero [] h = tt
rfc4648-nonzero (a ∷ []) h =
    omega (arith, letter_bounds (a / 4) (omega arith), letter_bounds (a % 4 * 16) (omega arith))
rfc4648-nonzero (a ∷ b ∷ []) h = omega (
  arith,
  letter_bounds (a / 4) (omega arith),
  letter_bounds (a % 4 * 16 + b / 16) (omega arith),
  letter_bounds (b % 16 * 4) (omega arith),
)
rfc4648-nonzero (a ∷ b ∷ c ∷ rest) h =
    let ha = letter_bounds (a / 4) (omega arith) in
    let hb = letter_bounds (a % 4 * 16 + b / 16) (omega arith) in
    let hc = letter_bounds (b % 16 * 4 + c / 64) (omega arith) in
    let hd = letter_bounds (c % 64) (omega arith) in
    (omega arith, (omega arith, (omega arith, (omega arith, rfc4648-nonzero rest h.1.1.1))))

c_str-zeros : (n k : ℕ) → c_str (drop n (zeros k)) ≡ []
unfolding c_str zeros
c_str-zeros zero zero = refl
c_str-zeros zero (suc k) = refl
c_str-zeros (suc n) zero = refl
c_str-zeros (suc n) (suc k) = c_str-zeros n k

length-zeros : (k : ℕ) → length (zeros k) ≡ k
unfolding zeros
length-zeros k = length-replicate k 0

contains-strncpy : (n k : ℕ) (src : Bytes) → n < k → contains 0 (strncpy (zeros k) src n) ≡ true
unfolding contains strncpy zeros
contains-strncpy zero zero src h = elim h [ ]
contains-strncpy zero (suc k) src h = refl
contains-strncpy (suc n) zero src h = elim h [ ]
contains-strncpy (suc n) (suc k) [] h = refl
contains-strncpy (suc n) (suc k) (c ∷ src) h =
    ground (arith, contains-strncpy n k (if c == 0 then [] else src) (omega arith))

c_str-strncpy-zeros :
    (k : ℕ) (value : Bytes)
    → All NonZero value
    → length value < k
    → c_str (strncpy (zeros k) value (length value)) ≡ value
c_str-strncpy-zeros k value h lt =
    c_str-strncpy (zeros k) value (length value) (omega (arith, length-zeros k))
      (c_str-zeros (length value) k) h
    ∙ take_all (length value) value (omega arith)

-- A header value without NULs that is shorter than the buffer is copied out whole; one that is
-- longer than the buffer is written behind its end.
pub copy_payload_lem :
    (value : Bytes) (os : Os) (s : Machine)
    → (All NonZero value → length value < 2048 → copy_payload value os s ≡ ok (value, s))
      × (2048 < length value → copy_payload value os s ≡ fault out_of_bounds)
unfolding copy_payload
copy_payload_lem value os s = (
  (λ h lt.
      let short : ltb 2048 (length value) ≡ false = ground arith in
      rw (
        short,
        contains-strncpy (length value) 2048 value lt,
        c_str-strncpy-zeros 2048 value h lt,
      )),
  λ h. rw (lt→ltb 2048 (length value) h),
)
