-- ===== src/Tests/Codec.antt =====
-- base64.c at concrete inputs.
use mathlib.Core.Option
use multivpn.Base64.Decode.{base64_decode-base64_encode}
use multivpn.Base64.Encode.{rfc4648, base64_encode-rfc4648, Supplies-Sized}
use multivpn.Base64.Errors.{base64_decode_refused, base64_decode-base64_cleanup}
use multivpn.Base64.Lookup.{IsUsable}
use multivpn.Base64.{
  unset, built, base64_encode, base64_decode, base64_cleanup, decode_loop, encode_loop,
  encode_group, digit, encoded_length, fill, pad, ensure_table, build_decoding_table,
  decoded_length, sextet, decode_group,
}
use multivpn.Prelude.{
  length, ◌≡◌, refl, [], ◌∷◌, Bytes, none, some, codes, ok, fault, out_of_bounds, use_after_free,
  double_free, arith, deref, ◌>>=◌,
}
use multivpn.Tests.Setup.{give, give-Supplies}

abbrev hello : Bytes
hello = codes "hello"

base64_encode-hello :
    base64_encode give hello
    ≡ ok (record { output_length = 8; encoded_data = some (codes "aGVsbG8=") })
unfolding base64_encode give encoded_length fill encode_loop encode_group digit pad
base64_encode-hello = refl

base64_decode-hello :
    (do d ← base64_decode give unset 99 (codes "aGVsbG8="); ok d.decoded_data) ≡ ok (some hello)
unfolding base64_decode give ensure_table build_decoding_table decoded_length decode_loop sextet
    decode_group fill
base64_decode-hello = refl

base64_encode-rfc4648_example :
    base64_encode give hello
    ≡ ok (record {
      output_length = length (rfc4648 hello);
      encoded_data = Option.map (λ _. rfc4648 hello) (give (length (rfc4648 hello)));
    })
base64_encode-rfc4648_example =
    base64_encode-rfc4648 give hello (Supplies-Sized give give-Supplies) (omega arith) (omega arith)

base64_decode-base64_encode_example :
    (table : Bytes) × ((do
      e ← base64_encode give hello
      text ← deref e.encoded_data
      base64_decode give unset 99 text)
      ≡ ok (record { table = built table; output_length = 5; decoded_data = some hello }))
    × IsUsable (built table)
base64_decode-base64_encode_example =
    base64_decode-base64_encode give unset 99 b'h' (codes "ello") give-Supplies tt (omega arith)
      (omega arith)

base64_decode_refused_test :
    (table : Bytes) × (base64_decode give unset 99 (codes "aGVsb")
      ≡ ok (record { table = built table; output_length = 99; decoded_data = none }))
    × (base64_decode give unset 99 [] ≡ fault out_of_bounds)
base64_decode_refused_test =
    base64_decode_refused give unset 99 (codes "aGVsb") give-Supplies tt (omega arith)

base64_decode-base64_cleanup_example :
    ((do state ← base64_cleanup (built (1 ∷ 2 ∷ [])); base64_decode give state 99 (rfc4648 hello))
      ≡ fault use_after_free)
    × ((do state ← base64_cleanup (built (1 ∷ 2 ∷ [])); base64_cleanup state) ≡ fault double_free)
base64_decode-base64_cleanup_example =
    base64_decode-base64_cleanup give (1 ∷ 2 ∷ []) 99 b'h' (codes "ello") give-Supplies
      (omega arith)
