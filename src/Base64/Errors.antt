-- ===== src/Base64/Errors.antt =====
-- `base64_decode` of base64.c on what it refuses, and after `base64_cleanup`.
use multivpn.Prelude.{
  ℕ, ◌%◌, ◌≡◌, ◌≢◌, refl, [], none, Bytes, length, ok, fault, arith, use_after_free, double_free,
  out_of_bounds, ◌==◌, ==_iff, true, false, ◌∷◌, ◌/◌, ◌<◌, ◌>>=◌,
}
use multivpn.Base64.Alphabet.{letter, letter-ne-pad}
use multivpn.Base64.Decode.{decoded_length-rfc4648}
use multivpn.Base64.Encode.{IsBytes, rfc4648, length-rfc4648}
use multivpn.Base64.Lookup.{Supplies, IsUsable, ensure_table-Inverts}
use multivpn.Base64.{
  Malloc, Table, built, freed, sextet, decode_loop, ensure_table, base64_decode, base64_cleanup,
  decoded_length,
}

pub base64_decode_odd :
    (malloc : Malloc) (state : Table) (out_len : ℕ) (text : Bytes)
    → Supplies malloc
    → IsUsable state
    → length text % 4 ≢ 0
    → (table : Bytes) × (base64_decode malloc state out_len text
        ≡ ok (record { table = built table; output_length = out_len; decoded_data = none }))
unfolding base64_decode
base64_decode_odd malloc state out_len text s u ne =
    let (table, e, inv) = ensure_table-Inverts malloc state s u in
    let no_fours : (length text % 4 == 0) ≡ false = ground arith in (table, rw (e, no_fours))

-- With a table that is unset or was built, a text whose length is no multiple of four gives NULL
-- and leaves `*output_length` as it was, and an empty text makes the decoder read in front of it.
pub base64_decode_refused :
    (malloc : Malloc) (state : Table) (out_len : ℕ) (text : Bytes)
    → Supplies malloc
    → IsUsable state
    → length text % 4 ≢ 0
    → (table : Bytes) × (base64_decode malloc state out_len text
        ≡ ok (record { table = built table; output_length = out_len; decoded_data = none }))
      × (base64_decode malloc state out_len [] ≡ fault out_of_bounds)
unfolding base64_decode decoded_length
base64_decode_refused malloc state out_len text s u ne =
    let (table, e, inv) = ensure_table-Inverts malloc state s u in
    let (table', odd) = base64_decode_odd malloc state out_len text s u ne in (table', odd, rw e)

sextet-freed : (i : ℕ) → i < 64 → sextet freed (letter i) ≡ fault use_after_free
unfolding sextet
sextet-freed i h = ground (arith, letter-ne-pad i h)

decode_loop-freed :
    (room a : ℕ) (input : Bytes)
    → IsBytes (a ∷ input)
    → decode_loop freed room (rfc4648 (a ∷ input)) ≡ fault use_after_free
unfolding decode_loop rfc4648
decode_loop-freed room a [] h = rw (sextet-freed (a / 4) (omega arith))
decode_loop-freed room a (b ∷ []) h = rw (sextet-freed (a / 4) (omega arith))
decode_loop-freed room a (b ∷ c ∷ rest) h = rw (sextet-freed (a / 4) (omega arith))

-- `base64_cleanup` leaves the pointer to the freed table in place: decoding a text of the encoder
-- after it reads freed memory, and a second cleanup frees the table again. The allocator does not
-- fail, and the text is of at least one byte.
pub base64_decode-base64_cleanup :
    (malloc : Malloc) (table : Bytes) (out_len a : ℕ) (input : Bytes)
    → Supplies malloc
    → IsBytes (a ∷ input)
    → ((do
      state ← base64_cleanup (built table)
      base64_decode malloc state out_len (rfc4648 (a ∷ input)))
        ≡ fault use_after_free)
      × ((do state ← base64_cleanup (built table); base64_cleanup state) ≡ fault double_free)
unfolding base64_decode base64_cleanup ensure_table
base64_decode-base64_cleanup malloc table out_len a input s bytes =
    let fours : (length (rfc4648 (a ∷ input)) % 4 == 0) ≡ true =
      (==_iff _ 0).1 (omega (arith, length-rfc4648 (a ∷ input))) in
    (
      rw (
        fours,
        decoded_length-rfc4648 a input bytes,
        s.succeeds (length (a ∷ input)),
        decode_loop-freed (length (a ∷ input)) a input bytes,
      ),
      refl,
    )
