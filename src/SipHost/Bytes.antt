-- ===== src/SipHost/Bytes.antt =====
-- What comes from the interface are bytes, and so is what the sending thread finds in its pipe.
use mathlib.Core.Path.{subst}
use mathlib.Core.List.{append-nil}
use multivpn.Base64.Encode.{IsBytes}
use multivpn.Host.Main.{held, MainLedger}
use multivpn.Host.Order.{IsPipe}
use multivpn.Host.{Fds}
use multivpn.Os.{Os, Call, read}
use multivpn.Prelude.Int.{ℤ, pos, negsuc, is_pos, int_eq, int_eq_refl}
use multivpn.Prelude.{
  ℕ, ◌<◌, ◌≡◌, refl, sym, ap, true, List, [], ◌∷◌, ◌++◌, Bytes, All-append, length, arith, inl, inr,
  Bool-cases,
}
use multivpn.TcpPlugin.Relay.{IsPosix}
use multivpn.TcpPlugin.Streams.{fetched, written}
use multivpn.Threads.{Pc, first}

-- Each read of the descriptor brings bytes.
abbrev pub ReadsBytes : Os → ℤ → Type 0
ReadsBytes os fd = (h : List Call) (n : ℕ) → IsBytes (os h (read fd n)).bytes

same_number : (x y : ℤ) → int_eq x y ≡ true → x ≡ y
same_number (pos n) (pos k) e = ap pos (ground arith)
same_number (pos n) (negsuc k) e = absurd (ground arith)
same_number (negsuc n) (pos k) e = absurd (ground arith)
same_number (negsuc n) (negsuc k) e = ap negsuc (ground arith)

IsBytes-front : (xs ys : Bytes) → IsBytes (xs ++ ys) → IsBytes xs
IsBytes-front [] ys h = tt
IsBytes-front (x ∷ xs) ys h = (h.0, IsBytes-front xs ys h.1)

IsBytes-back : (xs ys : Bytes) → IsBytes (xs ++ ys) → IsBytes ys
IsBytes-back [] ys h = h
IsBytes-back (x ∷ xs) ys h = IsBytes-back xs ys h.1

fetched-IsBytes : (os : Os) (fd : ℤ) (h : List Call) → ReadsBytes os fd → IsBytes (fetched os fd h)
fetched-IsBytes os fd [] r = tt
fetched-IsBytes os fd (read x n ∷ h) r = elim (Bool-cases (int_eq x fd)) [
  | inl e ↦ elim (Bool-cases (is_pos (os h (read x n)).ret)) [
    | inl f ↦
        rw (e, f)
          (All-append (λ b. b < 256) _ _ (fetched-IsBytes os fd h r)
            (subst (λ y. IsBytes (os h (read y n)).bytes) (sym (same_number x fd e)) (r h n)))
    | inr f ↦ rw (e, f, append-nil) (fetched-IsBytes os fd h r)
  ]
  | inr e ↦ rw (e, append-nil) (fetched-IsBytes os fd h r)
]
fetched-IsBytes os fd (c ∷ h) r = fetched-IsBytes os fd h r

none-IsBytes : (bytes : Bytes) → length bytes ≡ 0 → IsBytes bytes
none-IsBytes [] e = tt
none-IsBytes (x ∷ bytes) e = absurd (omega (arith, e))

-- What the next read of the pipe brings came from the interface.
pub pipe-IsBytes :
    (os : Os) (d : Fds) (pc : Pc) (h : List Call)
    → IsPosix os
    → ReadsBytes os d.tun
    → IsPipe os d.to_in d.to_out
    → MainLedger os d pc h
    → IsBytes (os h (read d.to_in 1504)).bytes
pipe-IsBytes os d pc h posix reads pipe v =
    let c : Call = read d.to_in 1504 in
    let counted = (posix.reads h d.to_in 1504).counted in
    let (rest, e) = pipe (c ∷ h) in
    let entered =
      IsBytes-front (written d.to_out h) (held first pc)
        (subst IsBytes v.up (fetched-IsBytes os d.tun h reads)) in
    let all = IsBytes-front (fetched os d.to_in (c ∷ h)) rest (subst IsBytes (sym e) entered) in
    elim (Bool-cases (is_pos (os h c).ret)) [
      | inl f ↦
          let split : fetched os d.to_in (c ∷ h) ≡ fetched os d.to_in h ++ (os h c).bytes =
            rw (int_eq_refl d.to_in, f) refl in
          IsBytes-back (fetched os d.to_in h) (os h c).bytes (subst IsBytes split all)
      | inr f ↦ none-IsBytes (os h c).bytes (ground (arith, counted, f))
    ]
