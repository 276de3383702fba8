-- ===== src/CString.antt =====
-- The C library's string functions, as far as parser.c, globals.c, plugin.c and the plugins use
-- them. A string is the list of its bytes in front of the NUL; a buffer is the list of all its bytes.
pub mod Laws
pub mod Decimal
use multivpn.Prelude.{
  ℕ, zero, suc, ◌+◌, ◌-◌, ◌*◌, ◌/◌, ◌%◌, ◌^◌, Bool, true, false, not, ◌&&◌, ◌||◌, List, [], ◌∷◌,
  ◌++◌, Option, none, some, Bytes, ltb, leb, ◌==◌, if◌then◌else◌,
}
use multivpn.Prelude.Int.{ℤ, pos, negsuc, to_signed}

-- The string that starts a buffer.
unfoldable pub c_str : Bytes → Bytes
c_str [] = []
c_str (c ∷ cs) = let rest = c_str cs in if c == 0 then [] else c ∷ rest

-- `strncpy(dst, src, n)`: `src` up to its NUL, then NULs, n bytes in all.
unfoldable pub strncpy : Bytes → Bytes → ℕ → Bytes
strncpy dst src zero = dst
strncpy [] src (suc n) = []
strncpy (d ∷ dst) [] (suc n) = 0 ∷ strncpy dst [] n
strncpy (d ∷ dst) (c ∷ src) (suc n) = c ∷ strncpy dst (if c == 0 then [] else src) n

-- `!strncmp(s, t, n)`
unfoldable pub strncmp_eq : Bytes → Bytes → ℕ → Bool
strncmp_eq s t zero = true
strncmp_eq [] [] (suc n) = true
strncmp_eq [] (b ∷ t) (suc n) = false
strncmp_eq (a ∷ s) [] (suc n) = false
strncmp_eq (a ∷ s) (b ∷ t) (suc n) = a == b && strncmp_eq s t n

-- `strchr(s, c) != NULL`; `strstr` of a text of one character is the same.
unfoldable pub contains : ℕ → Bytes → Bool
contains c [] = false
contains c (x ∷ s) = x == c || contains c s

unfoldable pub skip_spaces : Bytes → Bytes
skip_spaces [] = []
skip_spaces (c ∷ s) = let rest = skip_spaces s in if c == b' ' then rest else c ∷ s

-- A string up to the first space, and what is behind that space.
unfoldable pub until_space : Bytes → Bytes × Bytes
until_space [] = ([], [])
until_space (c ∷ s) =
    let (token, rest) = until_space s in if c == b' ' then ([], s) else (c ∷ token, rest)

-- `strtok(s, " ")`: the token and the place from which `strtok(NULL, " ")` goes on; none is NULL.
unfoldable pub strtok : Bytes → Option (Bytes × Bytes)
unfolding skip_spaces until_space
strtok s = elim (skip_spaces s) [ [] ↦ none | c ∷ cs ↦ some (until_space (c ∷ cs)) ]

unfoldable pub is_digit : ℕ → Bool
is_digit c = leb b'0' c && leb c b'9'

-- The number that the leading digits spell, behind those read as `acc`.
unfoldable pub leading_digits : ℕ → Bytes → ℕ
unfolding is_digit
leading_digits acc [] = acc
leading_digits acc (c ∷ s) =
    let more = leading_digits (acc * 10 + (c - b'0')) s in if is_digit c then more else acc

unfoldable pub is_space : ℕ → Bool
is_space c = c == b' ' || leb 9 c && leb c 13

-- `strtol` stops at the ends of a 64-bit `long`; `atoi` then keeps the low 32 bits.
unfoldable pub to_int : Bool → ℕ → ℤ
to_int negative n =
    let clipped =
      if negative
      then (if ltb (2 ^ 63) n then 2 ^ 63 else n)
      else (if ltb (2 ^ 63 - 1) n then 2 ^ 63 - 1 else n) in
    to_signed ((if negative then 2 ^ 64 - clipped else clipped) % 2 ^ 32)

unfoldable pub atoi : Bytes → ℤ
unfolding leading_digits is_space to_int
atoi [] = pos 0
atoi (c ∷ s) =
    let rest = atoi s in
    if is_space c
    then rest
    else if c == b'-'
    then to_int true (leading_digits 0 s)
    else if c == b'+'
    then to_int false (leading_digits 0 s)
    else to_int false (leading_digits 0 (c ∷ s))

-- `fgets(line, n + 1, file)`: at most n bytes, up to and with a newline; none at the end of the file.
unfoldable pub fgets_line : ℕ → Bytes → Bytes × Bytes
fgets_line zero file = ([], file)
fgets_line (suc n) [] = ([], [])
fgets_line (suc n) (c ∷ file) =
    let (line, rest) = fgets_line n file in if c == b'\n' then (c ∷ [], file) else (c ∷ line, rest)

unfoldable pub fgets : ℕ → Bytes → Option (Bytes × Bytes)
unfolding fgets_line
fgets n [] = none
fgets n (c ∷ file) = some (fgets_line (n - 1) (c ∷ file))

-- A buffer after `*strchr(line, '\n') = '\0'`, where there is a newline, as a string.
unfoldable pub chomp : Bytes → Bytes
chomp [] = []
chomp (c ∷ s) = let rest = chomp s in if c == b'\n' then [] else c ∷ rest
