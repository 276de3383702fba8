-- ===== src/CString/Decimal.antt =====
-- Numbers written in decimal, and `atoi` of what was written.
use multivpn.CString.Laws.{IsPlain}
use multivpn.CString.{is_digit, leading_digits, is_space, to_int, atoi}
use multivpn.Prelude.Int.{to_unsigned}
use multivpn.Prelude.{
  ℕ, zero, suc, ◌+◌, ◌-◌, ◌*◌, ◌/◌, ◌%◌, ◌^◌, ◌<◌, ◌≤◌, ◌≡◌, ◌≢◌, refl, false, [], ◌∷◌, ◌++◌, Bytes,
  All, length, length-append, ltb, if◌then◌else◌, arith, inl, inr, Bool-cases,
}

-- The digits of a number, with fuel for more digits than it has.
unfoldable pub digits : ℕ → ℕ → Bytes
digits zero n = []
digits (suc fuel) n =
    let front = digits fuel (n / 10) in
    if ltb n 10 then (48 + n) ∷ [] else front ++ (48 + n % 10) ∷ []

unfoldable pub decimal : ℕ → Bytes
unfolding digits
decimal n = digits (suc n) n

-- A character from '0' to '9'.
abbrev pub IsDigit : ℕ → Type 0
IsDigit c = (48 ≤ c) × (c < 58)

IsDigit-append : (xs ys : Bytes) → All IsDigit xs → All IsDigit ys → All IsDigit (xs ++ ys)
IsDigit-append [] ys h k = k
IsDigit-append (x ∷ xs) ys h k = (h.0, IsDigit-append xs ys h.1 k)

pub digits-IsDigit : (fuel n : ℕ) → All IsDigit (digits fuel n)
unfolding digits
digits-IsDigit zero n = tt
digits-IsDigit (suc fuel) n = elim (Bool-cases (ltb n 10)) [
  | inl e ↦ rw e ((omega arith, ground arith), tt)
  | inr e ↦ rw e (
      IsDigit-append (digits fuel (n / 10)) ((48 + n % 10) ∷ []) (digits-IsDigit fuel (n / 10))
        ((omega arith, omega arith), tt))
]

leading_digits-append :
    (xs : Bytes) (acc c : ℕ)
    → All IsDigit xs
    → IsDigit c
    → leading_digits acc (xs ++ c ∷ []) ≡ leading_digits acc xs * 10 + (c - 48)
unfolding leading_digits is_digit
leading_digits-append [] acc c h d = ground arith
leading_digits-append (x ∷ xs) acc c h d =
    ground (arith, leading_digits-append xs (acc * 10 + (x - 48)) c h.1 d)

leading_digits-digits : (fuel n : ℕ) → n < fuel → leading_digits 0 (digits fuel n) ≡ n
unfolding digits
leading_digits-digits zero n h = absurd (omega arith)
leading_digits-digits (suc fuel) n h = elim (Bool-cases (ltb n 10)) [
  | inl e ↦ rw e (unfold leading_digits is_digit in ground arith)
  | inr e ↦
      rw
        (
          e,
          leading_digits-append (digits fuel (n / 10)) 0 (48 + n % 10)
              (digits-IsDigit fuel (n / 10)) (omega arith, omega arith),
          leading_digits-digits fuel (n / 10) (ground arith),
        )
        (omega arith)
]

atoi_digit :
    (c : ℕ) (cs : Bytes) → IsDigit c → atoi (c ∷ cs) ≡ to_int false (leading_digits 0 (c ∷ cs))
unfolding atoi is_space
atoi_digit c cs d = ground arith

append-ne-nil : (xs : Bytes) (c : ℕ) → xs ++ c ∷ [] ≢ []
append-ne-nil [] c = λ e. cc e
append-ne-nil (x ∷ xs) c = λ e. cc e

pub decimal-ne-nil : (n : ℕ) → decimal n ≢ []
unfolding decimal digits
decimal-ne-nil n = elim (Bool-cases (ltb n 10)) [
  | inl e ↦ rw e (λ f. cc f)
  | inr e ↦ rw e (append-ne-nil (digits n (n / 10)) (48 + n % 10))
]

atoi_digits : (xs : Bytes) → All IsDigit xs → xs ≢ [] → atoi xs ≡ to_int false (leading_digits 0 xs)
atoi_digits [] h ne = absurd (ne refl)
atoi_digits (c ∷ cs) h ne = atoi_digit c cs h.0

to_int_unsigned : (n : ℕ) → n < 2 ^ 32 → to_unsigned (to_int false n) ≡ n
unfolding to_int
to_int_unsigned n h = ground arith

-- A number below 2 ^ 32, read by `atoi` from its decimal text and stored as an `unsigned int`.
pub atoi-decimal : (n : ℕ) → n < 2 ^ 32 → to_unsigned (atoi (decimal n)) ≡ n
unfolding decimal
atoi-decimal n h =
    rw
      (
        atoi_digits (digits (suc n) n) (digits-IsDigit (suc n) n) (decimal-ne-nil n),
        leading_digits-digits (suc n) n (omega arith),
      )
      (to_int_unsigned n h)

IsDigit-IsPlain : (xs : Bytes) → All IsDigit xs → All IsPlain xs
IsDigit-IsPlain [] h = tt
IsDigit-IsPlain (c ∷ cs) h = (ground arith, IsDigit-IsPlain cs h.1)

pub decimal-IsPlain : (n : ℕ) → All IsPlain (decimal n)
unfolding decimal
decimal-IsPlain n = IsDigit-IsPlain _ (digits-IsDigit (suc n) n)

-- A number below 10 ^ k has at most k digits.
length-digits : (fuel k n : ℕ) → n < 10 ^ suc k → length (digits fuel n) ≤ suc k
unfolding digits
length-digits zero k n h = omega arith
length-digits (suc fuel) zero n h = ground arith
length-digits (suc fuel) (suc k) n h = elim (Bool-cases (ltb n 10)) [
  | inl e ↦ rw e (omega arith)
  | inr e ↦ rw e (
      omega (
        arith,
        length-append (digits fuel (n / 10)) ((48 + n % 10) ∷ []),
        length-digits fuel k (n / 10) (omega (arith, h)),
      ))
]

pub length-decimal : (n : ℕ) → n < 2 ^ 32 → length (decimal n) ≤ 10
unfolding decimal
length-decimal n h = length-digits (suc n) 9 n (omega (arith, h))
