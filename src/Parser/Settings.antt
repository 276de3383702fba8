-- ===== src/Parser/Settings.antt =====
-- What a line `<key> <value>` of the configuration file sets, for each key with a text value.
use multivpn.CString.Laws.{
  IsPlain, InLine, InLine-append, InLine-plain, IsText, strtok_plain, contains_plain,
  contains-append, plain-nonzero, c_str-strncpy_text,
}
use multivpn.CString.{c_str, strncpy, strncmp_eq, contains, strtok}
use multivpn.Globals.{GlobalV}
use multivpn.Parser.Invariant.{AllText}
use multivpn.Parser.{copy_argument, run_command, parse_option}
use multivpn.Prelude.Int.{pos}
use multivpn.Prelude.{
  ℕ, ◌≡◌, ◌≢◌, refl, ◌∙◌, false, [], ◌∷◌, ◌++◌, some, Bytes, All, codes, take, length,
  length-append, ◌≤◌, ◌<◌, ok, arith,
}

pub data Key : Type 0 where
  remote_host local_ip local_netmask remote_ip plugin : Key
  sip_transport sip_proxy sip_remoteuri sip_fromuri : Key

-- The key as the file spells it.
abbrev pub keyword : Key → Bytes
keyword remote_host = codes "remote_host"
keyword local_ip = codes "local_ip"
keyword local_netmask = codes "local_netmask"
keyword remote_ip = codes "remote_ip"
keyword plugin = codes "plugin"
keyword sip_transport = codes "sip_transport"
keyword sip_proxy = codes "sip_proxy"
keyword sip_remoteuri = codes "sip_remoteuri"
keyword sip_fromuri = codes "sip_fromuri"

-- The buffer that holds the key's value.
abbrev pub buffer : Key → GlobalV → Bytes
buffer remote_host g = g.remote_host
buffer local_ip g = g.local_ip
buffer local_netmask g = g.local_netmask
buffer remote_ip g = g.remote_ip
buffer plugin g = g.plugin_name
buffer sip_transport g = g.sip_transport
buffer sip_proxy g = g.sip_proxy
buffer sip_remoteuri g = g.sip_remoteuri
buffer sip_fromuri g = g.sip_fromuri

abbrev pub with_buffer : Key → Bytes → GlobalV → GlobalV
with_buffer remote_host v g = record g { remote_host = v }
with_buffer local_ip v g = record g { local_ip = v }
with_buffer local_netmask v g = record g { local_netmask = v }
with_buffer remote_ip v g = record g { remote_ip = v }
with_buffer plugin v g = record g { plugin_name = v }
with_buffer sip_transport v g = record g { sip_transport = v }
with_buffer sip_proxy v g = record g { sip_proxy = v }
with_buffer sip_remoteuri v g = record g { sip_remoteuri = v }
with_buffer sip_fromuri v g = record g { sip_fromuri = v }

-- A line that gives the key a value.
abbrev pub line : Key → Bytes → Bytes
line k value = keyword k ++ b' ' ∷ value

keyword_token : (k : Key) (value : Bytes) → strtok (line k value) ≡ some (keyword k, value)
unfolding strtok
keyword_token remote_host value = refl
keyword_token _ value = refl

keyword-no-comment : (k : Key) → contains b'#' (keyword k) ≡ false
unfolding contains
keyword-no-comment remote_host = refl
keyword-no-comment _ = refl

keyword-InLine : (k : Key) → All InLine (keyword k)
keyword-InLine remote_host = omega arith
keyword-InLine _ = omega arith

length-keyword : (k : Key) → length (keyword k) ≤ 13
length-keyword remote_host = omega arith
length-keyword _ = omega arith

run_command-keyword :
    (k : Key) (rest : Bytes) (g : GlobalV)
    → run_command (keyword k) rest g ≡ copy_argument rest (buffer k g) (λ v. with_buffer k v g)
unfolding run_command strncmp_eq
run_command-keyword remote_host rest g = refl
run_command-keyword _ rest g = refl

-- A value that a line can carry.
abbrev pub IsValue : Bytes → Type 0
IsValue value = (value ≢ []) × All IsPlain value

copy_argument-value :
    (value field : Bytes) (store : Bytes → GlobalV)
    → IsValue value
    → copy_argument value field store ≡ ok (pos 0, store (strncpy field value 50))
unfolding copy_argument
copy_argument-value [] field store h = absurd (h.0 refl)
copy_argument-value (c ∷ cs) field store h = rw (strtok_plain c cs h.1.0 h.1.1)

pub line-no-comment :
    (k : Key) (value : Bytes) → IsValue value → contains b'#' (line k value) ≡ false
unfolding contains
line-no-comment k value h =
    contains-append b'#' (keyword k) (b' ' ∷ value) (keyword-no-comment k)
      (contains_plain value h.1)

pub parse_option_command :
    (c : ℕ) (cs : Bytes) (t : Bytes × Bytes) (g : GlobalV)
    → contains b'#' (c ∷ cs) ≡ false
    → strtok (c ∷ cs) ≡ some t
    → parse_option (c ∷ cs) g ≡ run_command t.0 t.1 g
unfolding parse_option
parse_option_command c cs t g h e = rw (h, e)

dispatch :
    (k : Key) (value : Bytes) (g : GlobalV)
    → contains b'#' (line k value) ≡ false
    → parse_option (line k value) g ≡ run_command (keyword k) value g
dispatch remote_host value g h = parse_option_command _ _ _ g h (keyword_token remote_host value)
dispatch k value g h = parse_option_command _ _ _ g h (keyword_token k value)

pub parse_option-line :
    (k : Key) (value : Bytes) (g : GlobalV)
    → IsValue value
    → parse_option (line k value) g ≡ ok (pos 0, with_buffer k (strncpy (buffer k g) value 50) g)
parse_option-line k value g h =
    dispatch k value g (line-no-comment k value h)
    ∙ run_command-keyword k value g
    ∙ copy_argument-value value (buffer k g) (λ v. with_buffer k v g) h

buffer-IsText : (k : Key) (g : GlobalV) → AllText g → IsText 50 (buffer k g)
buffer-IsText remote_host g t = assumption
buffer-IsText _ g t = assumption

pub buffer-with_buffer : (k : Key) (v : Bytes) (g : GlobalV) → buffer k (with_buffer k v g) ≡ v
buffer-with_buffer remote_host v g = refl
buffer-with_buffer _ v g = refl

-- A line `<key> <value>`, whose value is not empty and has no blank, comment sign, newline or NUL,
-- returns 0 and changes the buffer of that key alone, which then holds the value as a string, cut
-- after 50 bytes. The buffers were terminated before.
pub parse_option_sets :
    (k : Key) (value : Bytes) (g : GlobalV)
    → AllText g
    → IsValue value
    → (v : Bytes) × (parse_option (line k value) g ≡ ok (pos 0, with_buffer k v g))
      × (c_str v ≡ take 50 value)
parse_option_sets k value g t h = (
  strncpy (buffer k g) value 50,
  parse_option-line k value g h,
  c_str-strncpy_text (buffer k g) value (buffer-IsText k g t) (plain-nonzero value h.1),
)

pub line-InLine : (k : Key) (value : Bytes) → IsValue value → All InLine (line k value)
line-InLine k value h =
    InLine-append (keyword k) (b' ' ∷ value) (keyword-InLine k)
      (omega arith, InLine-plain value h.1)

pub length-line : (k : Key) (value : Bytes) → length value ≤ 4080 → length (line k value) < 4095
length-line k value h = omega (arith, length-append (keyword k) (b' ' ∷ value), length-keyword k)
