-- ===== src/Parser/RoundTrip.antt =====
-- A configuration file that is written line by line is read back setting by setting.
use multivpn.CString.Decimal.{decimal, decimal-IsPlain, length-decimal}
use multivpn.CString.Laws.{InLine, InLine-append, InLine-plain, fgets_fits, chomp-c_str}
use multivpn.CString.{c_str, chomp, strncpy, fgets, contains, strtok, strncmp_eq}
use multivpn.Globals.{GlobalV, server_mode, client_mode}
use multivpn.Parser.Numbers.{
  NumberKey, remote_port, keyword, with_number, number_line, parse_option_number,
}
use multivpn.Parser.Settings.{
  Key, buffer, with_buffer, line, IsValue, parse_option-line, line-InLine, length-line,
}
use multivpn.Parser.{parse_option, run_command, next_line, parse_lines, parse_config_file, max_line}
use multivpn.Prelude.Int.{ℤ, pos, minus_one}
use multivpn.Prelude.{
  ℕ, zero, suc, ◌^◌, ◌<◌, ◌≤◌, ◌≡◌, refl, ◌∙◌, List, [], ◌∷◌, ◌++◌, Option, some, Bytes, All, codes,
  length, length-append, Exec, ok, arith, ◌==◌, if◌then◌else◌, Bool-cases, inl, inr,
}

-- A line of the file: a key with a text or with a number, a mode, a comment, or an empty line.
pub data Setting : Type 0 where
  with_text : Key → Bytes → Setting
  with_count : NumberKey → ℕ → Setting
  as_server as_client empty_line : Setting
  comment : Bytes → Setting

abbrev pub line_of : Setting → Bytes
line_of (with_text k value) = line k value
line_of (with_count k n) = number_line k n
line_of as_server = codes "mode server"
line_of as_client = codes "mode client"
line_of empty_line = []
line_of (comment words) = b'#' ∷ words

-- The file that has a line for each setting of the list, in order.
abbrev pub render : List Setting → Bytes
render [] = []
render (x ∷ settings) = line_of x ++ b'\n' ∷ render settings

-- The settings carried out one after another: a text goes to the first 50 bytes of its buffer, and
-- the number 0 is refused, with -1 for the file and without a look at what follows.
abbrev pub configure : List Setting → GlobalV → ℤ × GlobalV
configure [] g = (pos 0, g)
configure (with_text k value ∷ settings) g =
    configure settings (with_buffer k (strncpy (buffer k g) value 50) g)
configure (with_count k n ∷ settings) g =
    let rest = configure settings (with_number k n g) in if n == 0 then (minus_one, g) else rest
configure (as_server ∷ settings) g = configure settings (record g { mode = server_mode })
configure (as_client ∷ settings) g = configure settings (record g { mode = client_mode })
configure (empty_line ∷ settings) g = configure settings g
configure (comment words ∷ settings) g = configure settings g

-- A setting that a line can carry, and that `fgets` reads at once.
abbrev pub Fits : Setting → Type 0
Fits (with_text k value) = IsValue value × (length value ≤ 4080)
Fits (with_count k n) = n < 2 ^ 32
Fits (comment words) = All InLine words × (length words ≤ 4080)
Fits _ = Unit {0}

-- What one line does.
abbrev effect : Setting → GlobalV → ℤ × GlobalV
effect (with_text k value) g = (pos 0, with_buffer k (strncpy (buffer k g) value 50) g)
effect (with_count k n) g = if n == 0 then (minus_one, g) else (pos 0, with_number k n g)
effect as_server g = (pos 0, record g { mode = server_mode })
effect as_client g = (pos 0, record g { mode = client_mode })
effect _ g = (pos 0, g)

keyword-InLine : (k : NumberKey) → All InLine (keyword k)
keyword-InLine remote_port = omega arith
keyword-InLine _ = omega arith

number_line-InLine : (k : NumberKey) (n : ℕ) → All InLine (number_line k n)
number_line-InLine k n =
    InLine-append (keyword k) (b' ' ∷ decimal n) (keyword-InLine k)
      (omega arith, InLine-plain (decimal n) (decimal-IsPlain n))

length-number_line : (k : NumberKey) (n : ℕ) → n < 2 ^ 32 → length (number_line k n) < 4095
length-number_line remote_port n h = omega (arith, length-decimal n h)
length-number_line k n h = omega (arith, length-decimal n h)

line_of-InLine : (x : Setting) → Fits x → All InLine (line_of x)
line_of-InLine (with_text k value) f = line-InLine k value f.0
line_of-InLine (with_count k n) f = number_line-InLine k n
line_of-InLine as_server f = omega arith
line_of-InLine as_client f = omega arith
line_of-InLine empty_line f = tt
line_of-InLine (comment words) f = (omega arith, f.0)

length-line_of : (x : Setting) → Fits x → length (line_of x) < 4095
length-line_of (with_text k value) f = length-line k value f.1
length-line_of (with_count k n) f = length-number_line k n f
length-line_of (comment words) f = omega (arith, f.1)
length-line_of _ f = omega arith

parse_option-line_of :
    (x : Setting) (g : GlobalV) → Fits x → parse_option (line_of x) g ≡ ok (effect x g)
unfolding parse_option contains strtok run_command strncmp_eq
parse_option-line_of (with_text k value) g f = parse_option-line k value g f.0
parse_option-line_of (with_count k n) g f = parse_option_number k n g f
parse_option-line_of as_server g f = refl
parse_option-line_of as_client g f = refl
parse_option-line_of empty_line g f = refl
parse_option-line_of (comment words) g f = refl

parse_lines-step :
    (fuel : ℕ) (file text rest : Bytes) (g : GlobalV) (r : ℤ × GlobalV)
    → fgets max_line file ≡ some (text, rest)
    → parse_option (chomp (c_str text)) g ≡ ok r
    → parse_lines (suc fuel) file g ≡ next_line (ok r) (parse_lines fuel rest)
unfolding parse_lines
parse_lines-step fuel file text rest g r e h = rw (e, parse_lines, h)

parse_lines-line_of :
    (fuel : ℕ) (x : Setting) (rest : Bytes) (g : GlobalV)
    → Fits x
    → parse_lines (suc fuel) (line_of x ++ b'\n' ∷ rest) g
      ≡ next_line (ok (effect x g)) (parse_lines fuel rest)
parse_lines-line_of fuel x rest g f =
    parse_lines-step fuel _ (line_of x ++ b'\n' ∷ []) rest g (effect x g)
      (fgets_fits max_line (line_of x) rest (line_of-InLine x f) (length-line_of x f))
      (rw (chomp-c_str (line_of x) (line_of-InLine x f)) (parse_option-line_of x g f))

-- The rest of the settings is carried out where the line succeeds.
next_line-effect :
    (x : Setting) (settings : List Setting) (g : GlobalV)
    (more : GlobalV → Option (Exec (ℤ × GlobalV)))
    → ((g' : GlobalV) → more g' ≡ some (ok (configure settings g')))
    → next_line (ok (effect x g)) more ≡ some (ok (configure (x ∷ settings) g))
unfolding next_line
next_line-effect (with_text k value) settings g more h = h _
next_line-effect (with_count k n) settings g more h = elim (Bool-cases (n == 0)) [
  | inl e ↦ rw e
  | inr e ↦ rw e (h _)
]
next_line-effect as_server settings g more h = h _
next_line-effect as_client settings g more h = h _
next_line-effect empty_line settings g more h = h _
next_line-effect (comment words) settings g more h = h _

parse_lines-render :
    (fuel : ℕ) (settings : List Setting) (g : GlobalV)
    → length settings < fuel
    → All Fits settings
    → parse_lines fuel (render settings) g ≡ some (ok (configure settings g))
parse_lines-render zero settings g h f = absurd (omega arith)
parse_lines-render (suc fuel) [] g h f = unfold parse_lines fgets in refl
parse_lines-render (suc fuel) (x ∷ settings) g h f =
    parse_lines-line_of fuel x (render settings) g f.0
    ∙ next_line-effect x settings g (parse_lines fuel (render settings))
        (λ g'. parse_lines-render fuel settings g' (omega arith) f.1)

length-render : (settings : List Setting) → length settings ≤ length (render settings)
length-render [] = omega arith
length-render (x ∷ settings) =
    omega (arith, length-append (line_of x) (b'\n' ∷ render settings), length-render settings)

-- Reading the file that is written for a list of settings returns and carries them out in order,
-- up to the first number 0, at which it returns -1. A text has 1 to 4080 bytes without blank,
-- comment sign, newline or NUL, a number is below 2 ^ 32, and a comment has at most 4080 bytes.
pub parse_config_file-render :
    (settings : List Setting) (g : GlobalV)
    → All Fits settings
    → parse_config_file (some (render settings)) g ≡ some (ok (configure settings g))
unfolding parse_config_file
parse_config_file-render settings g f =
    parse_lines-render (suc (length (render settings))) settings g
      (omega (arith, length-render settings)) f
