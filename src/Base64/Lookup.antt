-- ===== src/Base64/Lookup.antt =====
-- The decoding table of base64.c inverts the encoding table.
use mathlib.Core.Logic.{◌≢◌}
use multivpn.Prelude.{
  ℕ, ◌+◌, ◌<◌, ◌≡◌, refl, Bool, true, false, ap, ◌∙◌, not, ◌&&◌, [], ◌∷◌, Option, none, some, Bytes,
  length, get_elem?, set, length-set, get_elem?-set_self, get_elem?-set_ne, ltb, ◌==◌, ==_iff,
  if◌then◌else◌, Bool-cases, every_below, every_below_elim, ok, arith, inl, inr,
}
use multivpn.Base64.{
  Malloc, encoding_table, digit, fill_table, build_decoding_table, sextet, Table, unset, built,
  freed, ensure_table,
}

-- The index of the last `d` in `cs`, counted from `i`; `o` where there is none.
last_index : ℕ → ℕ → Bytes → Option ℕ → Option ℕ
last_index d i [] o = o
last_index d i (c ∷ cs) o = last_index d (i + 1) cs (if c == d then some i else o)

get_elem?-fill_table :
    (i d : ℕ) (cs block : Bytes)
    → d < length block
    → get_elem? (fill_table i cs block) d ≡ last_index d i cs (get_elem? block d)
unfolding fill_table last_index
get_elem?-fill_table i d [] block h = refl
get_elem?-fill_table i d (c ∷ cs) block h = elim (Bool-cases (c == d)) [
  | inl hit ↦
      let e : c ≡ d = (==_iff c d).0 hit in
      rw (hit, e)
        (get_elem?-fill_table (i + 1) d cs (set block d i) (omega (arith, length-set block d i))
          ∙ rw (get_elem?-set_self block d i h))
  | inr miss ↦
      let ne : c ≢ d = λ e. ground (arith, miss, (==_iff c d).1 e) in
      rw miss (
        get_elem?-fill_table (i + 1) d cs (set block c i) (omega (arith, length-set block c i))
        ∙ rw (get_elem?-set_ne block c d i ne))
]

length-fill_table : (i : ℕ) (cs block : Bytes) → length (fill_table i cs block) ≡ length block
unfolding fill_table
length-fill_table i [] block = refl
length-fill_table i (c ∷ cs) block =
    omega (arith, length-fill_table (i + 1) cs (set block c i), length-set block c i)

last_index_found :
    (d i : ℕ) (cs : Bytes) (o : Option ℕ) {v : ℕ}
    → last_index d i cs none ≡ some v
    → last_index d i cs o ≡ some v
unfolding last_index
last_index_found d i [] o h = cc
last_index_found d i (c ∷ cs) o h = elim (Bool-cases (c == d)) [
  | inl hit ↦ rw hit (rw hit at h)
  | inr miss ↦ rw miss (last_index_found d (i + 1) cs o (rw miss at h))
]

is_at : ℕ → Option ℕ → Bool
is_at i none = false
is_at i (some v) = v == i

is_at_sound : (i : ℕ) (o : Option ℕ) → is_at i o ≡ true → o ≡ some i
unfolding is_at
is_at_sound i none h = cc
is_at_sound i (some v) h = ap some ((==_iff v i).0 h)

digit_table :
    every_below
      (λ i.
        is_at i (last_index (digit i) 0 encoding_table none)
        && (ltb 0 (digit i) && ltb (digit i) 128)
        && not (digit i == b'='))
      64
    ≡ true
unfolding every_below last_index digit is_at
digit_table = refl

three_tests : (a b c : Bool) → (a && b && not c) ≡ true → (a ≡ true) × (b ≡ true) × (c ≡ false)
three_tests a b c e = ground arith

digit_facts :
    (i : ℕ)
    → i < 64
    → (is_at i (last_index (digit i) 0 encoding_table none) ≡ true)
      × ((ltb 0 (digit i) && ltb (digit i) 128) ≡ true)
      × ((digit i == b'=') ≡ false)
digit_facts i h = three_tests _ _ _ (every_below_elim _ 64 i digit_table h)

pub digit_bounds : (i : ℕ) → i < 64 → (0 < digit i) × (digit i < 128)
digit_bounds i h = let e = (digit_facts i h).1 in ground arith

pub digit-ne-pad : (i : ℕ) → i < 64 → (digit i == b'=') ≡ false
digit-ne-pad i h = (digit_facts i h).2

-- The table gives back the index of each character of the alphabet.
abbrev pub Inverts : Bytes → Type 0
Inverts table = (i : ℕ) → i < 64 → get_elem? table (digit i) ≡ some i

fill_table-Inverts :
    (block : Bytes) → length block ≡ 256 → Inverts (fill_table 0 encoding_table block)
fill_table-Inverts block h i lt =
    get_elem?-fill_table 0 (digit i) encoding_table block (omega (arith, digit_bounds i lt))
    ∙ last_index_found (digit i) 0 encoding_table (get_elem? block (digit i))
        (is_at_sound i _ (digit_facts i lt).0)

-- The allocator never fails, and hands out blocks of the size asked for.
pub record Supplies (malloc : Malloc) : Type 0 where
  pub block : ℕ → Bytes
  pub succeeds : (n : ℕ) → malloc n ≡ some (block n)
  pub sized : (n : ℕ) → length (block n) ≡ n

-- The static table pointer is NULL, or was set by `build_decoding_table`.
abbrev pub IsUsable : Table → Type 0
IsUsable unset = Unit
IsUsable (built table) = Inverts table
IsUsable freed = ⊥

-- Whatever the fresh block held, the table that the decoder uses inverts the alphabet.
pub ensure_table-Inverts :
    (malloc : Malloc) (state : Table)
    → Supplies malloc
    → IsUsable state
    → (table : Bytes) × (ensure_table malloc state ≡ ok (built table)) × Inverts table
unfolding ensure_table build_decoding_table
ensure_table-Inverts malloc unset s u = (
  fill_table 0 encoding_table (s.block 256),
  rw (s.succeeds 256) refl,
  fill_table-Inverts (s.block 256) (s.sized 256),
)
ensure_table-Inverts malloc (built table) s u = (table, refl, u)
ensure_table-Inverts malloc freed s u = absurd u

-- A character of the alphabet gives its index.
pub sextet-digit :
    (table : Bytes) (i : ℕ) → Inverts table → i < 64 → sextet (built table) (digit i) ≡ ok i
unfolding sextet
sextet-digit table i inv h =
    let (_, small, not_pad) = digit_facts i h in ground (arith, inv i h, small, not_pad)
