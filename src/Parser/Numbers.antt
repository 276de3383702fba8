-- ===== src/Parser/Numbers.antt =====
-- What a line `<key> <number>` of the configuration file sets, for each key with a number.
use multivpn.CString.Decimal.{decimal, atoi-decimal, decimal-IsPlain, decimal-ne-nil}
use multivpn.CString.Laws.{IsPlain, strtok_plain, contains_plain, contains-append}
use multivpn.CString.{strncmp_eq, contains, strtok, atoi}
use multivpn.Globals.{GlobalV}
use multivpn.Parser.Settings.{parse_option_command}
use multivpn.Parser.{read_number, run_command, parse_option}
use multivpn.Prelude.Int.{pos, minus_one, to_unsigned}
use multivpn.Prelude.{
  ℕ, ◌^◌, ◌<◌, ◌≡◌, ◌≢◌, refl, ◌∙◌, false, [], ◌∷◌, ◌++◌, some, Bytes, All, codes, ok, ◌==◌,
  if◌then◌else◌,
}

pub data NumberKey : Type 0 where
  remote_port local_port sip_port : NumberKey

abbrev pub keyword : NumberKey → Bytes
keyword remote_port = codes "remote_port"
keyword local_port = codes "local_port"
keyword sip_port = codes "sip_port"

abbrev pub with_number : NumberKey → ℕ → GlobalV → GlobalV
with_number remote_port n g = record g { remote_port = n }
with_number local_port n g = record g { local_port = n }
with_number sip_port n g = record g { sip_port = n }

-- A line that gives the key a number.
abbrev pub number_line : NumberKey → ℕ → Bytes
number_line k n = keyword k ++ b' ' ∷ decimal n

keyword_token :
    (k : NumberKey) (text : Bytes) → strtok (keyword k ++ b' ' ∷ text) ≡ some (keyword k, text)
unfolding strtok
keyword_token remote_port text = refl
keyword_token _ text = refl

keyword-no-comment : (k : NumberKey) → contains b'#' (keyword k) ≡ false
unfolding contains
keyword-no-comment remote_port = refl
keyword-no-comment _ = refl

run_command-keyword :
    (k : NumberKey) (rest : Bytes) (g : GlobalV)
    → run_command (keyword k) rest g ≡ read_number rest g (λ n. with_number k n g)
unfolding run_command strncmp_eq
run_command-keyword remote_port rest g = refl
run_command-keyword _ rest g = refl

read_number-value :
    (text : Bytes) (g : GlobalV) (store : ℕ → GlobalV)
    → text ≢ []
    → All IsPlain text
    → read_number text g store
      ≡ ok (
          if to_unsigned (atoi text) == 0
          then (minus_one, g)
          else (pos 0, store (to_unsigned (atoi text))))
unfolding read_number
read_number-value [] g store ne h = absurd (ne refl)
read_number-value (c ∷ cs) g store ne h = rw (strtok_plain c cs h.0 h.1)

no-comment : (k : NumberKey) (n : ℕ) → contains b'#' (number_line k n) ≡ false
unfolding contains
no-comment k n =
    contains-append b'#' (keyword k) (b' ' ∷ decimal n) (keyword-no-comment k)
      (contains_plain (decimal n) (decimal-IsPlain n))

dispatch :
    (k : NumberKey) (text : Bytes) (g : GlobalV)
    → contains b'#' (keyword k ++ b' ' ∷ text) ≡ false
    → parse_option (keyword k ++ b' ' ∷ text) g ≡ run_command (keyword k) text g
dispatch remote_port text g h = parse_option_command _ _ _ g h (keyword_token remote_port text)
dispatch k text g h = parse_option_command _ _ _ g h (keyword_token k text)

-- A line `<key> <number>`, for a number below 2 ^ 32 in decimal, sets the number of that key alone
-- to it and returns 0, and is refused with -1, nothing set, where the number is 0.
pub parse_option_number :
    (k : NumberKey) (n : ℕ) (g : GlobalV)
    → n < 2 ^ 32
    → parse_option (number_line k n) g
      ≡ ok (if n == 0 then (minus_one, g) else (pos 0, with_number k n g))
parse_option_number k n g h =
    dispatch k (decimal n) g (no-comment k n)
    ∙ run_command-keyword k (decimal n) g
    ∙ rw (
      read_number-value (decimal n) g (λ m. with_number k m g) (decimal-ne-nil n)
          (decimal-IsPlain n),
      atoi-decimal n h,
    )
