-- ===== src/Parser/Invariant.antt =====
-- The text fields of `global_v` stay terminated, whatever the configuration file holds.
use multivpn.CString.Laws.{IsText, strncpy-IsText}
use multivpn.CString.{strncmp_eq, contains, strtok, atoi}
use multivpn.Globals.{GlobalV, server_mode, client_mode}
use multivpn.Parser.{copy_argument, read_number, read_mode, run_command, parse_option}
use multivpn.Prelude.Int.{ℤ, pos, minus_one, to_unsigned}
use multivpn.Prelude.{
  ℕ, ◌≡◌, refl, Bool, true, false, [], ◌∷◌, Bytes, Exec, Fault, ok, fault, codes, ◌==◌,
  if◌then◌else◌, Option-cases, ◌>>=◌, deref, arith, inl, inr,
}

-- The fields that `ParseOption` writes hold a NUL, with nothing but NULs behind byte 50.
pub record AllText (g : GlobalV) : Type 0 where
  pub remote_host : IsText 50 g.remote_host
  pub plugin_name : IsText 50 g.plugin_name
  pub local_ip : IsText 50 g.local_ip
  pub local_netmask : IsText 50 g.local_netmask
  pub remote_ip : IsText 50 g.remote_ip
  pub sip_transport : IsText 50 g.sip_transport
  pub sip_remoteuri : IsText 50 g.sip_remoteuri
  pub sip_fromuri : IsText 50 g.sip_fromuri
  pub sip_proxy : IsText 50 g.sip_proxy

-- A call of the parser that keeps them so, if it returns.
pub data Kept (call : Exec (ℤ × GlobalV)) : Type 0 where
  returns : (r : ℤ) (g : GlobalV) → call ≡ ok (r, g) → AllText g → Kept call
  faults : (f : Fault) → call ≡ fault f → Kept call

if-Kept : (b : Bool) {x y : Exec (ℤ × GlobalV)} → Kept x → Kept y → Kept (if b then x else y)
if-Kept true h k = h
if-Kept false h k = k

number_or_not :
    (b : Bool) (g g' : GlobalV)
    → AllText g
    → AllText g'
    → Kept (ok (if b then (minus_one, g) else (pos 0, g')))
number_or_not true g g' t t' = returns _ g refl t
number_or_not false g g' t t' = returns _ g' refl t'

mode_or_not :
    (b c : Bool) (g : GlobalV)
    → AllText g
    → Kept (
        ok (
          if b
          then (pos 0, record g { mode = server_mode })
          else if c
          then (pos 0, record g { mode = client_mode })
          else (pos 0, g)))
mode_or_not true c g t = returns _ _ refl assumption
mode_or_not false true g t = returns _ _ refl assumption
mode_or_not false false g t = returns _ g refl t

copy_argument-Kept :
    (rest field : Bytes) (store : Bytes → GlobalV)
    → IsText 50 field
    → ((v : Bytes) → IsText 50 v → AllText (store v))
    → Kept (copy_argument rest field store)
unfolding copy_argument
copy_argument-Kept rest field store t h = elim (Option-cases (strtok rest)) [
  | inl e ↦ rw (e, deref, ◌>>=◌) (faults _ refl)
  | inr (v, e) ↦
      rw (e, deref, ◌>>=◌) (returns _ _ refl (h _ (strncpy-IsText 50 field v.0 (omega arith) t)))
]

read_number-Kept :
    (rest : Bytes) (g : GlobalV) (store : ℕ → GlobalV)
    → AllText g
    → ((n : ℕ) → AllText (store n))
    → Kept (read_number rest g store)
unfolding read_number
read_number-Kept rest g store t h = elim (Option-cases (strtok rest)) [
  | inl e ↦ rw (e, deref, ◌>>=◌) (faults _ refl)
  | inr (v, e) ↦
      rw (e, deref, ◌>>=◌) (number_or_not (to_unsigned (atoi v.0) == 0) g (store _) t (h _))
]

read_mode-Kept : (rest : Bytes) (g : GlobalV) → AllText g → Kept (read_mode rest g)
unfolding read_mode
read_mode-Kept rest g t = elim (Option-cases (strtok rest)) [
  | inl e ↦ rw (e, deref, ◌>>=◌) (faults _ refl)
  | inr (v, e) ↦
      rw (e, deref, ◌>>=◌)
        (mode_or_not (strncmp_eq v.0 (codes "server") 6) (strncmp_eq v.0 (codes "client") 6) g t)
]

run_command-Kept :
    (command rest : Bytes) (g : GlobalV) → AllText g → Kept (run_command command rest g)
unfolding run_command
run_command-Kept command rest g t =
    if-Kept (strncmp_eq command _ 11)
      (copy_argument-Kept rest _ (λ v. record g { remote_host = v }) t.remote_host
        (λ v h. assumption))
      (if-Kept (strncmp_eq command _ 11)
        (read_number-Kept rest g (λ n. record g { remote_port = n }) t (λ n. assumption))
        (if-Kept (strncmp_eq command _ 10)
          (read_number-Kept rest g (λ n. record g { local_port = n }) t (λ n. assumption))
          (if-Kept (strncmp_eq command _ 8)
            (copy_argument-Kept rest _ (λ v. record g { local_ip = v }) t.local_ip
              (λ v h. assumption))
            (if-Kept (strncmp_eq command _ 12)
              (copy_argument-Kept rest _ (λ v. record g { local_netmask = v }) t.local_netmask
                (λ v h. assumption))
              (if-Kept (strncmp_eq command _ 9)
                (copy_argument-Kept rest _ (λ v. record g { remote_ip = v }) t.remote_ip
                  (λ v h. assumption))
                (if-Kept (strncmp_eq command _ 6)
                  (copy_argument-Kept rest _ (λ v. record g { plugin_name = v }) t.plugin_name
                    (λ v h. assumption))
                  (if-Kept (strncmp_eq command _ 4) (read_mode-Kept rest g t) (
                    if-Kept (strncmp_eq command _ 8)
                      (read_number-Kept rest g (λ n. record g { sip_port = n }) t (λ n. assumption))
                      (if-Kept (strncmp_eq command _ 13)
                        (copy_argument-Kept rest _ (λ v. record g { sip_transport = v })
                          t.sip_transport (λ v h. assumption))
                        (if-Kept (strncmp_eq command _ 9)
                          (copy_argument-Kept rest _ (λ v. record g { sip_proxy = v }) t.sip_proxy
                            (λ v h. assumption))
                          (if-Kept (strncmp_eq command _ 13)
                            (copy_argument-Kept rest _ (λ v. record g { sip_remoteuri = v })
                              t.sip_remoteuri (λ v h. assumption))
                            (if-Kept (strncmp_eq command _ 11)
                              (copy_argument-Kept rest _ (λ v. record g { sip_fromuri = v })
                                t.sip_fromuri (λ v h. assumption))
                              (returns _ _ refl t)))))))))))))

-- One line of the file, whatever it holds, keeps every text field terminated inside its 256 bytes.
pub parse_option-AllText : (option : Bytes) (g : GlobalV) → AllText g → Kept (parse_option option g)
unfolding parse_option
parse_option-AllText option g t =
    if-Kept (contains b'#' option) (returns _ _ refl t) (behind option)
  where
    behind :
        (option : Bytes)
        → Kept (elim option [
          | [] ↦ ok (pos 0, g)
          | c ∷ cs ↦ do t ← deref (strtok (c ∷ cs)); run_command t.0 t.1 g
        ])
    behind [] = returns _ _ refl t
    behind (c ∷ cs) = elim (Option-cases (strtok (c ∷ cs))) [
      | inl e ↦ rw (e, deref, ◌>>=◌) (faults _ refl)
      | inr (v, e) ↦ rw (e, deref, ◌>>=◌) (run_command-Kept v.0 v.1 g t)
    ]
