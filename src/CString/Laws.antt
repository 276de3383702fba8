-- ===== src/CString/Laws.antt =====
-- Laws of the string functions: tokens, and buffers that `strncpy` writes.
use multivpn.CString.{c_str, strncpy, contains, until_space, strtok, chomp, fgets_line, fgets}
use multivpn.Prelude.{
  ℕ, zero, suc, ◌-◌, ◌<◌, ◌≤◌, ◌≡◌, ◌≢◌, refl, ap, ◌∙◌, false, [], ◌∷◌, ◌++◌, some, Bytes, All,
  length, take, drop, replicate, ◌==◌, if◌then◌else◌, arith, get_elem?,
}

-- A byte that neither ends nor separates anything in a configuration file.
abbrev pub IsPlain : ℕ → Type 0
IsPlain c = (c ≢ 0) × (c ≢ b' ') × (c ≢ b'#') × (c ≢ b'\n')

abbrev pub NonZero : ℕ → Type 0
NonZero c = c ≢ 0

pub plain-nonzero : (s : Bytes) → All IsPlain s → All NonZero s
plain-nonzero [] h = tt
plain-nonzero (c ∷ s) h = (h.0.0, plain-nonzero s h.1)

until_space_plain : (s : Bytes) → All IsPlain s → until_space s ≡ (s, [])
unfolding until_space
until_space_plain [] h = refl
until_space_plain (c ∷ s) h = ground (arith, until_space_plain s h.1)

-- A word of plain bytes is one token, with nothing behind it.
pub strtok_plain :
    (c : ℕ) (s : Bytes) → IsPlain c → All IsPlain s → strtok (c ∷ s) ≡ some (c ∷ s, [])
unfolding strtok
strtok_plain c s h hs = ground (arith, until_space_plain s hs)

pub contains_plain : (s : Bytes) → All IsPlain s → contains b'#' s ≡ false
unfolding contains
contains_plain [] h = refl
contains_plain (c ∷ s) h = ground (arith, contains_plain s h.1)

pub contains-append :
    (c : ℕ) (s t : Bytes)
    → contains c s ≡ false
    → contains c t ≡ false
    → contains c (s ++ t) ≡ false
unfolding contains
contains-append c [] t h k = k
contains-append c (x ∷ s) t h k = ground (arith, contains-append c s t)

-- `strncpy` writes its n bytes and no others.
pub length-strncpy :
    (dst src : Bytes) (n : ℕ) → n ≤ length dst → length (strncpy dst src n) ≡ length dst
unfolding strncpy
length-strncpy dst src zero h = refl
length-strncpy [] src (suc n) h = absurd (omega arith)
length-strncpy (d ∷ dst) [] (suc n) h = ap suc (length-strncpy dst [] n (omega arith))
length-strncpy (d ∷ dst) (c ∷ src) (suc n) h =
    ap suc (length-strncpy dst (if c == 0 then [] else src) n (omega arith))

pub drop-strncpy :
    (dst src : Bytes) (n : ℕ) → n ≤ length dst → drop n (strncpy dst src n) ≡ drop n dst
unfolding strncpy
drop-strncpy dst src zero h = refl
drop-strncpy [] src (suc n) h = absurd (omega arith)
drop-strncpy (d ∷ dst) [] (suc n) h = drop-strncpy dst [] n (omega arith)
drop-strncpy (d ∷ dst) (c ∷ src) (suc n) h =
    drop-strncpy dst (if c == 0 then [] else src) n (omega arith)

-- The string in the buffer afterwards: the source, cut after n bytes.
pub c_str-strncpy :
    (dst src : Bytes) (n : ℕ)
    → n ≤ length dst
    → c_str (drop n dst) ≡ []
    → All NonZero src
    → c_str (strncpy dst src n) ≡ take n src
unfolding c_str strncpy
c_str-strncpy dst src zero h z p = z
c_str-strncpy [] src (suc n) h z p = absurd (omega arith)
c_str-strncpy (d ∷ dst) [] (suc n) h z p = refl
c_str-strncpy (d ∷ dst) (c ∷ src) (suc n) h z p = ground (arith, c_str-strncpy dst src n, p)

-- A field of 256 bytes that `strncpy` fills up to its limit: what is behind stays NUL.
pub record IsText (limit : ℕ) (field : Bytes) : Type 0 where
  pub sized : length field ≡ 256
  pub tail_zero : drop limit field ≡ replicate (256 - limit) 0

pub strncpy-IsText :
    (limit : ℕ) (field src : Bytes)
    → limit ≤ 256
    → IsText limit field
    → IsText limit (strncpy field src limit)
strncpy-IsText limit field src h t = record {
  sized = length-strncpy field src limit (omega (arith, t.sized)) ∙ t.sized;
  tail_zero = drop-strncpy field src limit (omega (arith, t.sized)) ∙ t.tail_zero;
}

pub c_str-strncpy_text :
    (field src : Bytes)
    → IsText 50 field
    → All NonZero src
    → c_str (strncpy field src 50) ≡ take 50 src
unfolding c_str
c_str-strncpy_text field src t p =
    c_str-strncpy field src 50 (omega (arith, t.sized)) (rw t.tail_zero) p

get_elem?-drop : (n : ℕ) (xs : Bytes) → get_elem? xs n ≡ get_elem? (drop n xs) 0
get_elem?-drop zero xs = refl
get_elem?-drop (suc n) [] = refl
get_elem?-drop (suc n) (x ∷ xs) = get_elem?-drop n xs

-- So there is a NUL inside the field, at the limit.
pub IsText-terminated : (field : Bytes) → IsText 50 field → get_elem? field 50 ≡ some 0
IsText-terminated field t = get_elem?-drop 50 field ∙ rw t.tail_zero

-- A byte that does not end a line or a string.
abbrev pub InLine : ℕ → Type 0
InLine c = (c ≢ 0) × (c ≢ b'\n')

pub InLine-plain : (s : Bytes) → All IsPlain s → All InLine s
InLine-plain [] h = tt
InLine-plain (c ∷ s) h = ((h.0.0, h.0.3), InLine-plain s h.1)

pub InLine-append : (s t : Bytes) → All InLine s → All InLine t → All InLine (s ++ t)
InLine-append [] t h k = k
InLine-append (c ∷ s) t h k = (h.0, InLine-append s t h.1 k)

fgets_line_fits :
    (n : ℕ) (line rest : Bytes)
    → All InLine line
    → length line < n
    → fgets_line n (line ++ b'\n' ∷ rest) ≡ (line ++ b'\n' ∷ [], rest)
unfolding fgets_line
fgets_line_fits zero line rest h lt = elim lt [ ]
fgets_line_fits (suc n) [] rest h lt = refl
fgets_line_fits (suc n) (c ∷ line) rest h lt = ground (arith, fgets_line_fits n line rest h.1)

-- A line that fits is read whole.
pub fgets_fits :
    (n : ℕ) (line rest : Bytes)
    → All InLine line
    → length line < n - 1
    → fgets n (line ++ b'\n' ∷ rest) ≡ some (line ++ b'\n' ∷ [], rest)
unfolding fgets
fgets_fits n [] rest h lt = ap some (fgets_line_fits (n - 1) [] rest h lt)
fgets_fits n (c ∷ line) rest h lt = ap some (fgets_line_fits (n - 1) (c ∷ line) rest h lt)

pub chomp-c_str : (line : Bytes) → All InLine line → chomp (c_str (line ++ b'\n' ∷ [])) ≡ line
unfolding c_str chomp
chomp-c_str [] h = refl
chomp-c_str (c ∷ line) h = ground (arith, chomp-c_str line h.1, h.0)
