-- ===== src/Parser/File.antt =====
-- `ParseConfigFile` of parser.c over a whole file.
use multivpn.CString.{fgets_line, fgets, chomp, c_str}
use multivpn.Globals.{GlobalV}
use multivpn.Parser.Invariant.{AllText, Kept, returns, faults, parse_option-AllText}
use multivpn.Parser.{next_line, parse_lines, parse_config_file}
use multivpn.Prelude.Int.{ℤ, minus_one, is_true}
use multivpn.Prelude.{
  ℕ, zero, suc, ◌<◌, ◌≤◌, ◌≡◌, refl, [], ◌∷◌, Option, none, some, Bytes, length, Exec, ok, fault,
  arith, inl, inr, Bool-cases,
}

length-fgets_line-le : (n : ℕ) (file : Bytes) → length (fgets_line n file).1 ≤ length file
unfolding fgets_line
length-fgets_line-le zero file = omega arith
length-fgets_line-le (suc n) [] = omega arith
length-fgets_line-le (suc n) (c ∷ file) = ground (arith, length-fgets_line-le n file)

-- A read takes at least one byte.
length-fgets_line-lt :
    (n c : ℕ) (file : Bytes) (fuel : ℕ)
    → length (c ∷ file) < suc fuel
    → length (fgets_line (suc n) (c ∷ file)).1 < fuel
unfolding fgets_line
length-fgets_line-lt n c file fuel h = ground (arith, length-fgets_line-le n file)

next_line-Kept :
    (m : Exec (ℤ × GlobalV)) (more : GlobalV → Option (Exec (ℤ × GlobalV)))
    → Kept m
    → ((g : GlobalV) → AllText g → (r : Exec (ℤ × GlobalV)) × (more g ≡ some r) × Kept r)
    → (r : Exec (ℤ × GlobalV)) × (next_line m more ≡ some r) × Kept r
unfolding next_line
next_line-Kept m more (returns r g e t) k = elim (Bool-cases (is_true r)) [
  | inl b ↦ (ok (minus_one, g), rw (e, next_line, b), returns _ g refl t)
  | inr b ↦ rw (e, next_line, b) (k g t)
]
next_line-Kept m more (faults f e) k = (fault f, rw (e, next_line), faults f refl)

parse_lines-Kept :
    (fuel : ℕ) (file : Bytes) (g : GlobalV)
    → length file < fuel
    → AllText g
    → (r : Exec (ℤ × GlobalV)) × (parse_lines fuel file g ≡ some r) × Kept r
unfolding parse_lines fgets
parse_lines-Kept zero file g h t = absurd (omega arith)
parse_lines-Kept (suc fuel) [] g h t = (_, refl, returns _ _ refl t)
parse_lines-Kept (suc fuel) (c ∷ cs) g h t =
    next_line-Kept _ _ (parse_option-AllText (chomp (c_str (fgets_line 4095 (c ∷ cs)).0)) g t)
      λ g' t'.
        parse_lines-Kept fuel (fgets_line 4095 (c ∷ cs)).1 g'
          (length-fgets_line-lt 4094 c cs fuel h) t'

-- Reading any configuration file ends, and where it does not fault it leaves every text field
-- terminated inside its 256 bytes, as they were before.
pub parse_config_file-Kept :
    (file : Option Bytes) (g : GlobalV)
    → AllText g
    → (r : Exec (ℤ × GlobalV)) × (parse_config_file file g ≡ some r) × Kept r
unfolding parse_config_file
parse_config_file-Kept none g t = (_, refl, returns _ _ refl t)
parse_config_file-Kept (some file) g t = parse_lines-Kept (suc (length file)) file g (omega arith) t
