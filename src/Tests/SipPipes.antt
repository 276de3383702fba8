-- ===== src/Tests/SipPipes.antt =====
-- A system for SIP hosts: its pipes hand on the bytes that are written to them, and PJSIP takes every
-- request.
use mathlib.Core.List.{append-nil, append_assoc}
use multivpn.Base64.Encode.{IsBytes}
use multivpn.Host.Order.{IsPipe}
use multivpn.Os.{Os, Call, read, recv, write}
use multivpn.Prelude.Int.{ℤ, pos, int_eq}
use multivpn.Prelude.{
  ℕ, ◌≤◌, ◌≡◌, refl, Bool, true, List, [], ◌∷◌, ◌++◌, ◌&&◌, ◌||◌, Bytes, length, take, drop, ltb,
  if◌then◌else◌, inl, inr, Bool-cases, arith,
}
use multivpn.SipPlugin.Frames.{BringsBytes}
use multivpn.SipPlugin.Tunnel.{Sends}
use multivpn.TcpPlugin.Relay.{IsPosix}
use multivpn.TcpPlugin.Streams.{fetched, written}
use multivpn.Tests.Pipes.{brings, brought_all, int_eq_sound, length-take-le, take-append-drop}
use multivpn.Tests.Setup.{done}

abbrev are_bytes : Bytes → Bool
are_bytes [] = true
are_bytes (x ∷ xs) = ltb x 256 && are_bytes xs

are_bytes-IsBytes : (xs : Bytes) → are_bytes xs ≡ true → IsBytes xs
are_bytes-IsBytes [] e = tt
are_bytes-IsBytes (x ∷ xs) e = (ground arith, are_bytes-IsBytes xs (ground arith))

-- What a read of a pipe takes from it, and what it leaves there: nothing is taken that is no byte.
abbrev taken : ℕ → Bytes → Bytes
taken n p = if are_bytes (take n p) then take n p else []

abbrev left_there : ℕ → Bytes → Bytes
left_there n p = if are_bytes (take n p) then drop n p else p

taken-left : (n : ℕ) (p : Bytes) → taken n p ++ left_there n p ≡ p
taken-left n p = elim (Bool-cases (are_bytes (take n p))) [
  | inl e ↦ rw e (take-append-drop n p)
  | inr e ↦ rw e refl
]

taken-IsBytes : (n : ℕ) (p : Bytes) → IsBytes (taken n p)
taken-IsBytes n p = elim (Bool-cases (are_bytes (take n p))) [
  | inl e ↦ rw e (are_bytes-IsBytes (take n p) e)
  | inr e ↦ rw e tt
]

length-taken : (n : ℕ) (p : Bytes) → length (taken n p) ≤ n
length-taken n p = elim (Bool-cases (are_bytes (take n p))) [
  | inl e ↦ rw e (length-take-le n p)
  | inr e ↦ rw e (omega arith)
]

abbrev inside : ℤ → ℤ → List Call → Bytes
inside reading writing [] = []
inside reading writing (write x bytes ∷ h) =
    inside reading writing h ++ (if int_eq x writing then bytes else [])
inside reading writing (read x n ∷ h) =
    if int_eq x reading then left_there n (inside reading writing h) else inside reading writing h
inside reading writing (c ∷ h) = inside reading writing h

-- A pipe from 8 to 7 and one from 6 to 5; the interface 3 brings three bytes at a time, and `select`
-- finds two descriptors ready.
abbrev pub sip_piped : ℤ → ℤ → Os
sip_piped a b h (read x n) = brings (
    if int_eq x (pos 7)
    then taken n (inside (pos 7) (pos 8) h)
    else if int_eq x (pos 5)
    then taken n (inside (pos 5) (pos 6) h)
    else taken n (1 ∷ 2 ∷ 3 ∷ []))
sip_piped a b h (recv x n) = brings []
sip_piped a b h c = record done { ready = λ fd. int_eq fd a || int_eq fd b }

module _ (os : Os) (r w : ℤ)
    (serves : (h : List Call) (x : ℤ) (n : ℕ)
      → int_eq x r ≡ true
      → os h (read x n) ≡ brings (taken n (inside r w h))) where
  fetched-inside : (h : List Call) → fetched os r h ++ inside r w h ≡ written w h
  fetched-inside [] = refl
  fetched-inside (read x n ∷ h) = elim (Bool-cases (int_eq x r)) [
    | inl e ↦
        rw
          (
            e,
            serves h x n e,
            brought_all (taken n (inside r w h)),
            append_assoc,
            taken-left n (inside r w h),
          )
          (fetched-inside h)
    | inr e ↦ rw (e, append-nil) (fetched-inside h)
  ]
  fetched-inside (write x bytes ∷ h) = rw (← append_assoc, fetched-inside h)
  fetched-inside (c ∷ h) = fetched-inside h

module _ (a b : ℤ) where
  pub sip_piped-IsPosix : IsPosix (sip_piped a b)
  sip_piped-IsPosix = record {
    reads = λ h fd n. elim (Bool-cases (int_eq fd (pos 7))) [
      | inl e ↦
          rw e (record { counted = refl; bounded = length-taken n (inside (pos 7) (pos 8) h) })
      | inr e ↦ elim (Bool-cases (int_eq fd (pos 5))) [
        | inl f ↦
            rw (e, f)
              (record { counted = refl; bounded = length-taken n (inside (pos 5) (pos 6) h) })
        | inr f ↦ rw (e, f) (record { counted = refl; bounded = length-taken n (1 ∷ 2 ∷ 3 ∷ []) })
      ]
    ];
    recvs = λ h fd n. record { counted = refl; bounded = omega arith };
  }

  pub sip_piped-BringsBytes : BringsBytes (sip_piped a b)
  sip_piped-BringsBytes h fd n = elim (Bool-cases (int_eq fd (pos 7))) [
    | inl e ↦ rw e (taken-IsBytes n (inside (pos 7) (pos 8) h))
    | inr e ↦ elim (Bool-cases (int_eq fd (pos 5))) [
      | inl f ↦ rw (e, f) (taken-IsBytes n (inside (pos 5) (pos 6) h))
      | inr f ↦ rw (e, f) (taken-IsBytes n (1 ∷ 2 ∷ 3 ∷ []))
    ]
  ]

  pub sip_piped-Sends : Sends (sip_piped a b)
  sip_piped-Sends = record { creates = λ h t f. refl; creates_uac = λ h. refl; sends = λ h x. refl }

  pub sip_piped-to : IsPipe (sip_piped a b) (pos 7) (pos 8)
  sip_piped-to h = (
    inside (pos 7) (pos 8) h,
    fetched-inside (sip_piped a b) (pos 7) (pos 8) (λ h x n e. rw e refl) h,
  )

  pub sip_piped-from : IsPipe (sip_piped a b) (pos 5) (pos 6)
  sip_piped-from h = (
    inside (pos 5) (pos 6) h,
    fetched-inside (sip_piped a b) (pos 5) (pos 6) (λ h x n e. rw (int_eq_sound x 5 e) refl) h,
  )
