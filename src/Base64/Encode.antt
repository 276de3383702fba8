-- ===== src/Base64/Encode.antt =====
-- What `base64_encode` of base64.c computes: the base64 text of RFC 4648.
use mathlib.Core.Option
use multivpn.Prelude.{
  ℕ, zero, suc, ◌+◌, ◌-◌, ◌*◌, ◌/◌, ◌%◌, ◌^◌, ◌<◌, ◌≤◌, ◌≡◌, refl, sym, ◌∙◌, [], ◌∷◌, some, Bytes,
  All, length, get_or, set, ok, arith, inl, inr, Option-cases,
}
use multivpn.Base64.Alphabet.{letter, digit-letter}
use multivpn.Base64.Lookup.{Supplies}
use multivpn.Base64.{
  Malloc, mod_table, digit, encoded_length, encode_group, encode_loop, fill, pad, base64_encode,
}

abbrev pub IsBytes : Bytes → Type 0
IsBytes = All (λ b. b < 256)

-- The text of RFC 4648 in the RFC's alphabet, by the bits of each octet: six at a time, and '=' up to
-- a group of four.
unfoldable pub rfc4648 : Bytes → Bytes
rfc4648 [] = []
rfc4648 (a ∷ []) = letter (a / 4) ∷ letter (a % 4 * 16) ∷ b'=' ∷ b'=' ∷ []
rfc4648 (a ∷ b ∷ []) =
    letter (a / 4) ∷ letter (a % 4 * 16 + b / 16) ∷ letter (b % 16 * 4) ∷ b'=' ∷ []
rfc4648 (a ∷ b ∷ c ∷ rest) =
    letter (a / 4)
    ∷ letter (a % 4 * 16 + b / 16)
    ∷ letter (b % 16 * 4 + c / 64)
    ∷ letter (c % 64)
    ∷ rfc4648 rest

pub length-rfc4648 : (input : Bytes) → length (rfc4648 input) ≡ 4 * ((length input + 2) / 3)
unfolding rfc4648
length-rfc4648 [] = refl
length-rfc4648 (a ∷ []) = refl
length-rfc4648 (a ∷ b ∷ []) = refl
length-rfc4648 (a ∷ b ∷ c ∷ rest) = omega (arith, length-rfc4648 rest)

length-encode_loop : (input : Bytes) → length (encode_loop input) ≡ 4 * ((length input + 2) / 3)
unfolding encode_loop encode_group
length-encode_loop [] = refl
length-encode_loop (a ∷ []) = refl
length-encode_loop (a ∷ b ∷ []) = refl
length-encode_loop (a ∷ b ∷ c ∷ rest) = omega (arith, length-encode_loop rest)

-- The groups of the loop, by the bits of each octet.
encode_group_digits :
    (a b c : ℕ)
    → a < 256
    → b < 256
    → c < 256
    → encode_group a b c
      ≡ digit (a / 4)
        ∷ digit (a % 4 * 16 + b / 16)
        ∷ digit (b % 16 * 4 + c / 64)
        ∷ digit (c % 64)
        ∷ []
unfolding encode_group
encode_group_digits a b c ha hb hc = ground (arith)

encode_group_bits :
    (a b c : ℕ)
    → a < 256
    → b < 256
    → c < 256
    → encode_group a b c
      ≡ letter (a / 4)
        ∷ letter (a % 4 * 16 + b / 16)
        ∷ letter (b % 16 * 4 + c / 64)
        ∷ letter (c % 64)
        ∷ []
encode_group_bits a b c ha hb hc =
    encode_group_digits a b c ha hb hc
    ∙ rw
        (
          digit-letter (a / 4) (omega arith),
          digit-letter (a % 4 * 16 + b / 16) (omega arith),
          digit-letter (b % 16 * 4 + c / 64) (omega arith),
          digit-letter (c % 64) (omega arith),
        )
        refl

-- Writing the '=' leaves a group in front alone.
pad-cons :
    (k i m w x y z : ℕ) (rest : Bytes)
    → i + k ≤ m
    → pad k i (m + 4) (w ∷ x ∷ y ∷ z ∷ rest) ≡ w ∷ x ∷ y ∷ z ∷ pad k i m rest
unfolding pad
pad-cons zero i m w x y z rest h = refl
pad-cons (suc k) i m w x y z rest h =
    let e : m + 4 - 1 - i ≡ suc (suc (suc (suc (m - 1 - i)))) = omega arith in
    rw e (pad-cons k (i + 1) m w x y z (set rest (m - 1 - i) b'=') (omega arith))

abbrev pads : ℕ → ℕ
pads n = get_or mod_table (n % 3) 0

pads_cycle : (n : ℕ) → pads (suc (suc (suc n))) ≡ pads n
pads_cycle n = let e : suc (suc (suc n)) % 3 ≡ n % 3 = omega arith in rw e

pads-le : (n r : ℕ) → r ≡ n % 3 → get_or mod_table r 0 ≤ 4 * ((n + 2) / 3)
pads-le n zero e = omega arith
pads-le n (suc zero) e = omega arith
pads-le n (suc (suc zero)) e = omega arith
pads-le n (suc (suc (suc r))) e = absurd (omega arith)

pad-encode_loop :
    (input : Bytes)
    → IsBytes input
    → pad (pads (length input)) 0 (4 * ((length input + 2) / 3)) (encode_loop input) ≡ rfc4648 input
unfolding rfc4648 encode_loop
pad-encode_loop [] h = unfold pad in refl
pad-encode_loop (a ∷ []) h =
    rw (encode_group_bits a 0 0 h.0 (omega arith) (omega arith)) (unfold pad in ground arith)
pad-encode_loop (a ∷ b ∷ []) h =
    rw (encode_group_bits a b 0 h.0 h.1.0 (omega arith)) (unfold pad in ground arith)
pad-encode_loop (a ∷ b ∷ c ∷ rest) h =
    let m : ℕ = 4 * ((length rest + 2) / 3) in
    let e : 4 * ((length (a ∷ b ∷ c ∷ rest) + 2) / 3) ≡ m + 4 = omega arith in
    rw (encode_group_bits a b c h.0 h.1.0 h.1.1.0, e, pads_cycle (length rest))
      (pad-cons (pads (length rest)) 0 m _ _ _ _ (encode_loop rest)
          (omega (arith, pads-le (length rest) (length rest % 3) refl))
        ∙ rw (pad-encode_loop rest h.1.1.1))

pub fill-same_length : (xs block : Bytes) → length xs ≡ length block → fill xs block ≡ ok xs
unfolding fill
fill-same_length [] [] h = refl
fill-same_length [] (b ∷ block) h = absurd (omega arith)
fill-same_length (x ∷ xs) [] h = absurd (omega arith)
fill-same_length (x ∷ xs) (b ∷ block) h = rw (fill-same_length xs block (omega arith))

-- Every block that the allocator hands out has the size asked for.
abbrev pub Sized : Malloc → Type 0
Sized malloc = (n : ℕ) (block : Bytes) → malloc n ≡ some block → length block ≡ n

pub Supplies-Sized : (malloc : Malloc) → Supplies malloc → Sized malloc
Supplies-Sized malloc s n block e = ground (arith, s.succeeds n, s.sized n)

pub encoded_length_bound : (n : ℕ) → n < 2 ^ 31 → encoded_length n ≡ 4 * ((n + 2) / 3)
unfolding encoded_length
encoded_length_bound n h = omega arith

-- For fewer than 2 ^ 31 bytes the encoder's block holds exactly their RFC 4648 text, whatever the
-- block held before, and no write leaves the block; `*output_length` is the length of that text,
-- also where `malloc` fails and NULL is returned. A block has the size that was asked for.
pub base64_encode-rfc4648 :
    (malloc : Malloc) (input : Bytes)
    → Sized malloc
    → IsBytes input
    → length input < 2 ^ 31
    → base64_encode malloc input
      ≡ ok (record {
        output_length = length (rfc4648 input);
        encoded_data = Option.map (λ _. rfc4648 input) (malloc (length (rfc4648 input)));
      })
unfolding base64_encode
base64_encode-rfc4648 malloc input sized bytes h =
    let bound = encoded_length_bound (length input) h in
    rw (length-rfc4648 input ∙ sym bound)
      (elim (Option-cases (malloc (encoded_length (length input)))) [
        | inl e ↦ rw (e, base64_encode)
        | inr (block, e) ↦
            let room = length-encode_loop input ∙ sym bound ∙ sym (sized _ block e) in
            rw (
              e,
              base64_encode,
              fill-same_length (encode_loop input) block room,
              bound,
              pad-encode_loop input bytes,
            )
      ])
