-- ===== src/Tests/Pipes.antt =====
-- A system whose pipes hand on what is written to them.
use mathlib.Core.List.{append-nil, append_assoc}
use multivpn.Host.Order.{IsPipe}
use multivpn.Host.{Fds}
use multivpn.Os.{Os, Call, Reply, read, recv, write}
use multivpn.Prelude.Int.{ℤ, pos, is_pos, int_eq}
use multivpn.Prelude.{
  ℕ, zero, suc, ◌≤◌, ◌≡◌, refl, true, List, [], ◌∷◌, ◌++◌, ◌||◌, Bytes, length, take, drop,
  length-take, if◌then◌else◌, inl, inr, Bool-cases, arith,
}
use multivpn.TcpPlugin.Relay.{IsPosix}
use multivpn.TcpPlugin.Streams.{fetched, written}
use multivpn.Tests.Setup.{done}

-- The bytes in a pipe, after some calls.
abbrev pub pending : ℤ → ℤ → List Call → Bytes
pending reading writing [] = []
pending reading writing (write x bytes ∷ h) =
    pending reading writing h ++ (if int_eq x writing then bytes else [])
pending reading writing (read x n ∷ h) =
    if int_eq x reading then drop n (pending reading writing h) else pending reading writing h
pending reading writing (c ∷ h) = pending reading writing h

abbrev pub brings : Bytes → Reply
brings bytes = record done { ret = pos (length bytes); bytes = bytes }

-- A system with a pipe from 8 to 7 and one from 6 to 5, and what each read of the interface and each
-- of the socket brings; `select` finds the interface and the pipe to the plugin ready.
abbrev pub carrying : Bytes → Bytes → Os
carrying came arrived h (read x n) = brings (
    if int_eq x (pos 7)
    then take n (pending (pos 7) (pos 8) h)
    else if int_eq x (pos 5)
    then take n (pending (pos 5) (pos 6) h)
    else take n came)
carrying came arrived h (recv x n) = brings (take n arrived)
carrying came arrived h c = record done { ready = λ fd. int_eq fd (pos 3) || int_eq fd (pos 7) }

-- The interface brings three bytes at a time, and the socket two.
abbrev pub piped : Os
piped = carrying (1 ∷ 2 ∷ 3 ∷ []) (9 ∷ 8 ∷ [])

abbrev pub fds : Fds
fds = record {
  tun = pos 3;
  sock = pos 4;
  from_in = pos 5;
  from_out = pos 6;
  to_in = pos 7;
  to_out = pos 8;
}

pub length-take-le : (n : ℕ) (xs : Bytes) → length (take n xs) ≤ n
length-take-le n xs = omega (arith, length-take n xs)

pub take-append-drop : (n : ℕ) (xs : Bytes) → take n xs ++ drop n xs ≡ xs
take-append-drop zero xs = refl
take-append-drop (suc n) [] = refl
take-append-drop (suc n) (x ∷ xs) = rw (take-append-drop n xs)

-- The bytes of a read that says how many they are.
pub brought_all : (xs : Bytes) → (if is_pos (pos (length xs)) then xs else []) ≡ xs
brought_all [] = refl
brought_all (x ∷ xs) = ground arith

-- A system that answers each read of a pipe with what is in it.
module _ (os : Os) (r w : ℤ)
    (serves : (h : List Call) (x : ℤ) (n : ℕ)
      → int_eq x r ≡ true
      → os h (read x n) ≡ brings (take n (pending r w h))) where
  pub fetched-pending : (h : List Call) → fetched os r h ++ pending r w h ≡ written w h
  fetched-pending [] = refl
  fetched-pending (read x n ∷ h) = elim (Bool-cases (int_eq x r)) [
    | inl e ↦
        rw
          (
            e,
            serves h x n e,
            brought_all (take n (pending r w h)),
            append_assoc,
            take-append-drop n (pending r w h),
          )
          (fetched-pending h)
    | inr e ↦ rw (e, append-nil) (fetched-pending h)
  ]
  fetched-pending (write x bytes ∷ h) = rw (← append_assoc, fetched-pending h)
  fetched-pending (c ∷ h) = fetched-pending h

pub carrying-IsPosix : (came arrived : Bytes) → IsPosix (carrying came arrived)
carrying-IsPosix came arrived = record {
  reads = λ h fd n. elim (Bool-cases (int_eq fd (pos 7))) [
    | inl e ↦
        rw e (record { counted = refl; bounded = length-take-le n (pending (pos 7) (pos 8) h) })
    | inr e ↦ elim (Bool-cases (int_eq fd (pos 5))) [
      | inl f ↦
          rw (e, f)
            (record { counted = refl; bounded = length-take-le n (pending (pos 5) (pos 6) h) })
      | inr f ↦ rw (e, f) (record { counted = refl; bounded = length-take-le n came })
    ]
  ];
  recvs = λ h fd n. record { counted = refl; bounded = length-take-le n arrived };
}

pub piped-IsPosix : IsPosix piped
piped-IsPosix = carrying-IsPosix (1 ∷ 2 ∷ 3 ∷ []) (9 ∷ 8 ∷ [])

pub int_eq_sound : (x : ℤ) (n : ℕ) → int_eq x (pos n) ≡ true → x ≡ pos n
int_eq_sound x n e = ground arith

pub piped-to : IsPipe piped (pos 7) (pos 8)
piped-to h =
    (pending (pos 7) (pos 8) h, fetched-pending piped (pos 7) (pos 8) (λ h x n e. rw e refl) h)

pub piped-from : IsPipe piped (pos 5) (pos 6)
piped-from h = (
  pending (pos 5) (pos 6) h,
  fetched-pending piped (pos 5) (pos 6) (λ h x n e. rw (int_eq_sound x 5 e) refl) h,
)
