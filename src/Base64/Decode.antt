-- ===== src/Base64/Decode.antt =====
-- `base64_decode` of base64.c, on the texts of the encoder and on the texts that it refuses.
use multivpn.Prelude.{
  ℕ, suc, ◌+◌, ◌-◌, ◌*◌, ◌/◌, ◌%◌, ◌^◌, ◌<◌, ◌≤◌, ◌≡◌, refl, sym, ap, ◌∙◌, [], ◌∷◌, some, Bytes,
  length, take_all, true, deref, ◌>>=◌, ok, arith, ◌==◌, ==_iff,
}
use multivpn.Base64.Alphabet.{sextet-letter, letter-ne-pad}
use multivpn.Base64.Encode.{
  IsBytes, rfc4648, Supplies-Sized, fill-same_length, length-rfc4648, base64_encode-rfc4648,
}
use multivpn.Base64.Lookup.{Inverts, Supplies, IsUsable, ensure_table-Inverts}
use multivpn.Base64.{
  Malloc, Table, built, sextet, decode_group, decode_loop, decoded_length, base64_encode,
  base64_decode,
}

decode_group_bits :
    (a b c : ℕ)
    → a < 256
    → b < 256
    → c < 256
    → decode_group (a / 4) (a % 4 * 16 + b / 16) (b % 16 * 4 + c / 64) (c % 64) ≡ a ∷ b ∷ c ∷ []
unfolding decode_group
decode_group_bits a b c ha hb hc = ground arith

module _ (table : Bytes) (inv : Inverts table) where
  sextet_pad : sextet (built table) b'=' ≡ ok 0
  unfolding sextet
  sextet_pad = refl

  decode_loop-rfc4648 :
      (input : Bytes)
      → IsBytes input
      → decode_loop (built table) (length input) (rfc4648 input) ≡ ok input
  unfolding decode_loop rfc4648
  decode_loop-rfc4648 [] h = refl
  decode_loop-rfc4648 (a ∷ []) h =
      rw
        (
          sextet-letter table (a / 4) inv (omega arith),
          sextet-letter table (a % 4 * 16) inv (omega arith),
          sextet_pad,
        )
        (unfold decode_group in ground arith)
  decode_loop-rfc4648 (a ∷ b ∷ []) h =
      rw
        (
          sextet-letter table (a / 4) inv (omega arith),
          sextet-letter table (a % 4 * 16 + b / 16) inv (omega arith),
          sextet-letter table (b % 16 * 4) inv (omega arith),
          sextet_pad,
        )
        (unfold decode_group in ground arith)
  decode_loop-rfc4648 (a ∷ b ∷ c ∷ rest) h =
      let e : suc (suc (suc (length rest))) - 3 ≡ length rest = omega arith in
      rw
        (
          sextet-letter table (a / 4) inv (omega arith),
          sextet-letter table (a % 4 * 16 + b / 16) inv (omega arith),
          sextet-letter table (b % 16 * 4 + c / 64) inv (omega arith),
          sextet-letter table (c % 64) inv (omega arith),
          e,
          decode_loop-rfc4648 rest h.1.1.1,
          decode_group_bits a b c h.0 h.1.0 h.1.1.0,
        )
        (rw (take_all {A = ℕ} (length rest) [] (omega arith)))

decoded_length-cons :
    (w x y z e f : ℕ) (rest : Bytes) {n : ℕ}
    → decoded_length (e ∷ f ∷ rest) ≡ ok n
    → 2 ≤ length rest
    → decoded_length (w ∷ x ∷ y ∷ z ∷ e ∷ f ∷ rest) ≡ ok (n + 3)
unfolding decoded_length
decoded_length-cons w x y z e f rest h p = ground arith

pub decoded_length-rfc4648 :
    (a : ℕ) (input : Bytes)
    → IsBytes (a ∷ input)
    → decoded_length (rfc4648 (a ∷ input)) ≡ ok (length (a ∷ input))
unfolding rfc4648
decoded_length-rfc4648 a [] h = unfold decoded_length in refl
decoded_length-rfc4648 a (b ∷ []) h =
    unfold decoded_length in ground (arith, letter-ne-pad (b % 16 * 4) (omega arith))
decoded_length-rfc4648 a (b ∷ c ∷ []) h =
    unfold decoded_length in
    ground (
      arith,
      letter-ne-pad (b % 16 * 4 + c / 64) (omega arith),
      letter-ne-pad (c % 64) (omega arith),
    )
decoded_length-rfc4648 a (b ∷ c ∷ d ∷ []) h =
    decoded_length-cons _ _ _ _ _ _ _ (decoded_length-rfc4648 d [] h.1.1.1) (omega arith)
decoded_length-rfc4648 a (b ∷ c ∷ d ∷ e ∷ []) h =
    decoded_length-cons _ _ _ _ _ _ _ (decoded_length-rfc4648 d (e ∷ []) h.1.1.1) (omega arith)
decoded_length-rfc4648 a (b ∷ c ∷ d ∷ e ∷ f ∷ rest) h =
    decoded_length-cons _ _ _ _ _ _ _ (decoded_length-rfc4648 d (e ∷ f ∷ rest) h.1.1.1)
      (omega arith)
    ∙ ap ok (omega arith)

-- With a table that inverts the alphabet, the decoder gives back the bytes behind an RFC 4648 text.
pub base64_decode-rfc4648 :
    (malloc : Malloc) (state : Table) (out_len a : ℕ) (input : Bytes)
    → Supplies malloc
    → IsUsable state
    → IsBytes (a ∷ input)
    → (table : Bytes) × (base64_decode malloc state out_len (rfc4648 (a ∷ input))
        ≡ ok (record {
          table = built table;
          output_length = length (a ∷ input);
          decoded_data = some (a ∷ input);
        }))
      × Inverts table
unfolding base64_decode
base64_decode-rfc4648 malloc state out_len a input s u bytes =
    let (table, e, inv) = ensure_table-Inverts malloc state s u in
    let data' : Bytes = a ∷ input in
    let fours : (length (rfc4648 data') % 4 == 0) ≡ true =
      (==_iff _ 0).1 (omega (arith, length-rfc4648 data')) in
    (
      table,
      rw (
        e,
        fours,
        decoded_length-rfc4648 a input bytes,
        s.succeeds (length data'),
        decode_loop-rfc4648 table inv data' bytes,
        fill-same_length data' (s.block (length data')) (sym (s.sized (length data'))),
      ),
      inv,
    )

-- Encoding any bytes, at least one and fewer than 2 ^ 31, and decoding the text gives the bytes
-- back, with their number in `*output_length`, whatever the allocator's blocks hold and whether or
-- not the decoding table was built before; the table that is left behind can be used again. The
-- allocator does not fail.
pub base64_decode-base64_encode :
    (malloc : Malloc) (state : Table) (out_len a : ℕ) (input : Bytes)
    → Supplies malloc
    → IsUsable state
    → IsBytes (a ∷ input)
    → length (a ∷ input) < 2 ^ 31
    → (table : Bytes) × ((do
      e ← base64_encode malloc (a ∷ input)
      text ← deref e.encoded_data
      base64_decode malloc state out_len text)
        ≡ ok (record {
          table = built table;
          output_length = length (a ∷ input);
          decoded_data = some (a ∷ input);
        }))
      × IsUsable (built table)
base64_decode-base64_encode malloc state out_len a input s u bytes h =
    let (table, e, inv) = base64_decode-rfc4648 malloc state out_len a input s u bytes in
    (
      table,
      rw
          (
            base64_encode-rfc4648 malloc (a ∷ input) (Supplies-Sized malloc s) bytes h,
            s.succeeds (length (rfc4648 (a ∷ input))),
          )
          e,
      inv,
    )
