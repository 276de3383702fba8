-- ===== src/Parser.antt =====
-- parser.c: the configuration file.
pub mod Invariant
pub mod File
pub mod Settings
pub mod RoundTrip
pub mod Numbers
use multivpn.CString.{strncpy, strncmp_eq, contains, strtok, atoi, fgets, chomp, c_str}
use multivpn.Globals.{GlobalV, server_mode, client_mode}
use multivpn.Prelude.Int.{ℤ, pos, negsuc, is_true, minus_one, to_unsigned}
use multivpn.Prelude.{
  ℕ, zero, suc, Bool, true, false, List, [], ◌∷◌, Option, none, some, Bytes, codes, length, ◌==◌,
  if◌then◌else◌, Exec, ok, fault, null_pointer, ◌>>=◌, deref,
}

abbrev pub max_line : ℕ
max_line = 4096

-- `strtok(NULL, " ")` behind the command
unfoldable pub argument : Bytes → Exec Bytes
argument rest = do t ← deref (strtok rest); ok t.0

-- `strncpy(field, strtok(NULL, " "), 50)`, and 0
unfoldable pub copy_argument : Bytes → Bytes → (Bytes → GlobalV) → Exec (ℤ × GlobalV)
unfolding argument
copy_argument rest field store = do v ← argument rest; ok (pos 0, store (strncpy field v 50))

-- `n = atoi(strtok(NULL, " ")); if (!n) return -1;`, for an `unsigned int n`
unfoldable pub read_number : Bytes → GlobalV → (ℕ → GlobalV) → Exec (ℤ × GlobalV)
unfolding argument
read_number rest g store = do
  v ← argument rest
  let n = to_unsigned (atoi v)
  ok (if n == 0 then (minus_one, g) else (pos 0, store n))

unfoldable pub read_mode : Bytes → GlobalV → Exec (ℤ × GlobalV)
unfolding argument
read_mode rest g = do
  v ← argument rest
  ok (
      if strncmp_eq v (codes "server") 6
      then (pos 0, record g { mode = server_mode })
      else if strncmp_eq v (codes "client") 6
      then (pos 0, record g { mode = client_mode })
      else (pos 0, g))

-- The ladder of `ParseOption` on the command and what follows it. The test for `local_netmask`
-- compares the twelve characters of "local_nemask".
unfoldable pub run_command : Bytes → Bytes → GlobalV → Exec (ℤ × GlobalV)
unfolding copy_argument read_number read_mode
run_command command rest g =
    if strncmp_eq command (codes "remote_host") 11
    then copy_argument rest g.remote_host (λ v. record g { remote_host = v })
    else if strncmp_eq command (codes "remote_port") 11
    then read_number rest g (λ n. record g { remote_port = n })
    else if strncmp_eq command (codes "local_port") 10
    then read_number rest g (λ n. record g { local_port = n })
    else if strncmp_eq command (codes "local_ip") 8
    then copy_argument rest g.local_ip (λ v. record g { local_ip = v })
    else if strncmp_eq command (codes "local_netmask") 12
    then copy_argument rest g.local_netmask (λ v. record g { local_netmask = v })
    else if strncmp_eq command (codes "remote_ip") 9
    then copy_argument rest g.remote_ip (λ v. record g { remote_ip = v })
    else if strncmp_eq command (codes "plugin") 6
    then copy_argument rest g.plugin_name (λ v. record g { plugin_name = v })
    else if strncmp_eq command (codes "mode") 4
    then read_mode rest g
    else if strncmp_eq command (codes "sip_port") 8
    then read_number rest g (λ n. record g { sip_port = n })
    else if strncmp_eq command (codes "sip_transport") 13
    then copy_argument rest g.sip_transport (λ v. record g { sip_transport = v })
    else if strncmp_eq command (codes "sip_proxy") 9
    then copy_argument rest g.sip_proxy (λ v. record g { sip_proxy = v })
    else if strncmp_eq command (codes "sip_remoteuri") 13
    then copy_argument rest g.sip_remoteuri (λ v. record g { sip_remoteuri = v })
    else if strncmp_eq command (codes "sip_fromuri") 11
    then copy_argument rest g.sip_fromuri (λ v. record g { sip_fromuri = v })
    else ok (pos 0, g)

-- `ParseOption` without its log lines, which alone use the line number. A line of spaces has no
-- command, and `strncmp` is called with NULL.
unfoldable pub parse_option : Bytes → GlobalV → Exec (ℤ × GlobalV)
parse_option option g = if contains b'#' option then ok (pos 0, g) else elim option [
  | [] ↦ ok (pos 0, g)
  | c ∷ cs ↦ do t ← deref (strtok (c ∷ cs)); run_command t.0 t.1 g
]

-- What the loop does with the result for one line: a nonzero one ends it with -1.
unfoldable pub next_line :
    Exec (ℤ × GlobalV) → (GlobalV → Option (Exec (ℤ × GlobalV))) → Option (Exec (ℤ × GlobalV))
next_line (fault e) more = some (fault e)
next_line (ok (r, g)) more = elim (is_true r) [ true ↦ some (ok (minus_one, g)) | false ↦ more g ]

-- The loop of `ParseConfigFile`; none stands for a loop that is cut off.
unfoldable pub parse_lines : ℕ → Bytes → GlobalV → Option (Exec (ℤ × GlobalV))
unfolding next_line
parse_lines zero file g = none
parse_lines (suc fuel) file g = elim (fgets max_line file) [
  | none ↦ some (ok (pos 0, g))
  | some (line, rest) ↦ next_line (parse_option (chomp (c_str line)) g) (parse_lines fuel rest)
]

-- `file` is what `fopen` opens, or none.
unfoldable pub parse_config_file : Option Bytes → GlobalV → Option (Exec (ℤ × GlobalV))
unfolding parse_lines
parse_config_file none g = some (ok (minus_one, g))
parse_config_file (some file) g = parse_lines (suc (length file)) file g
