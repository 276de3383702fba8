-- ===== src/Base64.antt =====
-- base64.c: the codec of the SIP plugin's payload.
-- `malloc` is the C library's allocator: the contents of the block it hands out, or NULL (`none`).
pub mod Lookup
pub mod Alphabet
pub mod Encode
pub mod Decode
pub mod Errors
pub mod Total
use multivpn.Prelude.{
  ℕ, zero, suc, ◌+◌, ◌-◌, ◌*◌, ◌/◌, ◌%◌, ◌^◌, Bool, List, [], ◌∷◌, ◌++◌, Option, none, some, Bytes,
  codes, length, get_elem?, get_or, set, take, drop, ltb, ◌==◌, if◌then◌else◌, Exec, ok, fault,
  out_of_bounds, null_pointer, use_after_free, double_free, ◌>>=◌, at, deref,
}

abbrev pub Malloc : Type 0
Malloc = ℕ → Option Bytes

abbrev pub encoding_table : Bytes
encoding_table = codes "ABCDEFGHIJKLMNOPQRSTUVWXYZabcdefghijklmnopqrstuvwxyz0123456789+/"

abbrev pub mod_table : List ℕ
mod_table = 0 ∷ 2 ∷ 1 ∷ []

-- `encoding_table[i]`, for i below 64
unfoldable pub digit : ℕ → ℕ
digit i = get_or encoding_table i 0

-- `*output_length` of the encoder, a 64-bit `size_t`
unfoldable pub encoded_length : ℕ → ℕ
encoded_length n = 4 * ((n + 2) % 2 ^ 64 / 3) % 2 ^ 64

-- What one round of the encoder's loop writes.
unfoldable pub encode_group : ℕ → ℕ → ℕ → Bytes
encode_group octet_a octet_b octet_c =
    let triple = (octet_a * 2 ^ 16 + octet_b * 2 ^ 8 + octet_c) % 2 ^ 32 in
    digit (triple / 2 ^ 18 % 64)
    ∷ digit (triple / 2 ^ 12 % 64)
    ∷ digit (triple / 2 ^ 6 % 64)
    ∷ digit (triple % 64)
    ∷ []

-- The encoder's loop, by the characters that it writes: an octet past the end is 0.
unfoldable pub encode_loop : Bytes → Bytes
encode_loop [] = []
encode_loop (a ∷ []) = encode_group a 0 0
encode_loop (a ∷ b ∷ []) = encode_group a b 0
encode_loop (a ∷ b ∷ c ∷ rest) = encode_group a b c ++ encode_loop rest

-- Writes `bytes` one after another from the block's first place on.
unfoldable pub fill : Bytes → Bytes → Exec Bytes
fill [] block = ok block
fill (b ∷ bytes) [] = fault out_of_bounds
fill (b ∷ bytes) (x ∷ block) = do r ← fill bytes block; ok (b ∷ r)

-- `for (i = 0; i < k; i++) encoded_data[*output_length - 1 - i] = '=';` with `left` rounds to go
unfoldable pub pad : ℕ → ℕ → ℕ → Bytes → Bytes
pad zero i out_len block = block
pad (suc left) i out_len block = pad left (i + 1) out_len (set block (out_len - 1 - i) b'=')

-- `*output_length`, and the block, or NULL.
pub record Encoded : Type 0 where
  pub output_length : ℕ
  pub encoded_data : Option Bytes

unfoldable pub base64_encode : Malloc → Bytes → Exec Encoded
base64_encode malloc input =
    let n = length input in
    let out_len = encoded_length n in
    elim (malloc out_len) [
      | none ↦ ok (record { output_length = out_len; encoded_data = none })
      | some block ↦ do
        written ← fill (encode_loop input) block
        let padded = pad (get_or mod_table (n % 3) 0) 0 out_len written
        ok (record { output_length = out_len; encoded_data = some padded })
    ]

-- The static pointer `decoding_table`.
pub data Table : Type 0 where
  unset : Table
  built : Bytes → Table
  freed : Table

-- `decoding_table[encoding_table[i]] = i` for the characters that are left, from index `i` on
unfoldable pub fill_table : ℕ → Bytes → Bytes → Bytes
fill_table i [] block = block
fill_table i (c ∷ cs) block = fill_table (i + 1) cs (set block c i)

-- The block is not cleared, and a failed `malloc` is not noticed.
unfoldable pub build_decoding_table : Malloc → Exec Bytes
unfolding fill_table
build_decoding_table malloc = do block ← deref (malloc 256); ok (fill_table 0 encoding_table block)

-- `if (decoding_table == NULL) build_decoding_table();`
unfoldable pub ensure_table : Malloc → Table → Exec Table
ensure_table malloc unset = do table ← build_decoding_table malloc; ok (built table)
ensure_table malloc (built table) = ok (built table)
ensure_table malloc freed = ok freed

-- `free(decoding_table)`: the pointer stays as it is.
unfoldable pub base64_cleanup : Table → Exec Table
base64_cleanup unset = ok unset
base64_cleanup (built table) = ok freed
base64_cleanup freed = fault double_free

-- `decoding_table[(int)c]` as a `uint32_t`: both `char`s are signed.
unfoldable pub table_entry : Table → ℕ → Exec ℕ
table_entry unset c = fault null_pointer
table_entry freed c = fault use_after_free
table_entry (built table) c =
    if ltb c 128
    then (do v ← at (get_elem? table c); ok (if ltb v 128 then v else v + 2 ^ 32 - 256))
    else fault out_of_bounds

-- `data[i] == '=' ? 0 & i++ : decoding_table[(int)data[i++]]`
unfoldable pub sextet : Table → ℕ → Exec ℕ
unfolding table_entry
sextet table c = if c == b'=' then ok 0 else table_entry table c

-- The three bytes of one round.
unfoldable pub decode_group : ℕ → ℕ → ℕ → ℕ → Bytes
decode_group sextet_a sextet_b sextet_c sextet_d =
    let triple = (sextet_a * 2 ^ 18 + sextet_b * 2 ^ 12 + sextet_c * 2 ^ 6 + sextet_d) % 2 ^ 32 in
    triple / 2 ^ 16 % 256 ∷ triple / 2 ^ 8 % 256 ∷ triple % 256 ∷ []

-- The decoder's loop, by the bytes that it stores while `j < *output_length`; `room` is
-- `*output_length - j`. A group cut short reads behind the input.
unfoldable pub decode_loop : Table → ℕ → Bytes → Exec Bytes
decode_loop table room [] = ok []
decode_loop table room (a ∷ b ∷ c ∷ d ∷ rest) = do
  sextet_a ← sextet table a
  sextet_b ← sextet table b
  sextet_c ← sextet table c
  sextet_d ← sextet table d
  stored ← decode_loop table (room - 3) rest
  ok (take room (decode_group sextet_a sextet_b sextet_c sextet_d) ++ stored)
decode_loop table room _ = fault out_of_bounds

-- `*output_length` of the decoder: three quarters of the input, less one for each '=' in the last
-- two places.
unfoldable pub decoded_length : Bytes → Exec ℕ
decoded_length input = elim (length input) [
  | zero ↦ fault out_of_bounds
  | suc last ↦ do
    x ← at (get_elem? input last)
    y ← at (get_elem? input (last - 1))
    let len = suc last / 4 * 3
    let len' = if x == b'=' then len - 1 else len
    ok (if y == b'=' then len' - 1 else len')
]

-- The table left behind, `*output_length`, and the block, or NULL.
pub record Decoded : Type 0 where
  pub table : Table
  pub output_length : ℕ
  pub decoded_data : Option Bytes

-- `out_len` is what `*output_length` held before the call.
unfoldable pub base64_decode : Malloc → Table → ℕ → Bytes → Exec Decoded
base64_decode malloc state out_len input = do
  table ← ensure_table malloc state
  if length input % 4 == 0
      then (do
        len ← decoded_length input
        elim (malloc len) [
          | none ↦ ok (record { table = table; output_length = len; decoded_data = none })
          | some block ↦ do
            stored ← decode_loop table len input
            written ← fill stored block
            ok (record { table = table; output_length = len; decoded_data = some written })
        ])
      else ok (record { table = table; output_length = out_len; decoded_data = none })
