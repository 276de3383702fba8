-- ===== src/TcpPlugin/Relay.antt =====
-- What one round of the tunnel's loops forwards, in tcp_plugin.c and in main.c.
use multivpn.Globals.{block_size}
use multivpn.Machine.{Machine, ◌>>=◌}
use multivpn.Os.{Os, Call, Reply, read, recv, write, send, select, FdSet, fd_add, selected}
use multivpn.Prelude.Int.{ℤ, is_pos, pos_part}
use multivpn.Prelude.{
  ℕ, ◌-◌, ◌≤◌, ◌≡◌, ◌∙◌, List, ◌∷◌, Bytes, length, take, drop, length-append, length-drop,
  take-append_length, ok, arith, inl, inr, Bool-cases, if◌then◌else◌,
}
use multivpn.TcpPlugin.{Loop, overlay, relay, tunnel_round}

-- A reply to a read of at most `size` bytes, as POSIX has it: the result counts the bytes that
-- were stored, and they are no more than were asked for; an error stores none.
pub record IsRead (size : ℕ) (r : Reply) : Type 0 where
  pub counted : pos_part r.ret ≡ length r.bytes
  pub bounded : length r.bytes ≤ size

pub length-overlay :
    (bytes buffer : Bytes)
    → length bytes ≤ length buffer
    → length (overlay bytes buffer) ≡ length buffer
length-overlay bytes buffer h =
    omega
      (arith, length-append bytes (drop (length bytes) buffer), length-drop (length bytes) buffer)

-- The bytes that a read counts are those that it stored.
pub take-overlay :
    {size : ℕ} (r : Reply) (buffer : Bytes)
    → IsRead size r
    → take (pos_part r.ret) (overlay r.bytes buffer) ≡ r.bytes
take-overlay r buffer h = rw h.counted (take-append_length r.bytes _)

-- The calls of one relay, the latest first: the read, and a write of exactly its bytes where there
-- were any.
abbrev pub relayed : Os → Machine → Call → (Bytes → Call) → List Call
relayed os s source sink =
    let r = os s.trace source in
    if is_pos r.ret then sink r.bytes ∷ source ∷ s.trace else source ∷ s.trace

pub relay-relayed :
    (source : Call) (sink : Bytes → Call) (size : ℕ) (buffer : Bytes) (os : Os) (s : Machine)
    → IsRead size (os s.trace source)
    → size ≤ length buffer
    → (buffer' : Bytes) × (relay source sink buffer os s
        ≡ ok (buffer', record s { trace = relayed os s source sink }))
      × (length buffer' ≡ length buffer)
unfolding relay
relay-relayed source sink size buffer os s h room =
    let r : Reply = os s.trace source in
    let exact = take-overlay r buffer h in
    (
      overlay r.bytes buffer,
      elim (Bool-cases (is_pos r.ret)) [ inl e ↦ rw (e, exact) | inr e ↦ rw e ],
      length-overlay r.bytes buffer (omega (arith, h.bounded)),
    )

-- Every read is answered as POSIX has it.
pub record IsPosix (os : Os) : Type 0 where
  pub reads : (h : List Call) (fd : ℤ) (size : ℕ) → IsRead size (os h (read fd size))
  pub recvs : (h : List Call) (fd : ℤ) (size : ℕ) → IsRead size (os h (recv fd size))

-- The calls of one round, the latest first.
abbrev pub round_calls : Os → Machine → ℤ → ℤ → FdSet → List Call
round_calls os s fd maxfd set =
    let asked = fd_add fd (fd_add (s.globals.pipe_to_plugin).0 set) in
    let ready = selected asked (os s.trace (select maxfd asked)) in
    let s' = record s { trace = select maxfd asked ∷ s.trace } in
    if ready fd
    then relayed os s' (recv fd (block_size - 1)) (write (s.globals.pipe_from_plugin).1)
    else if ready (s.globals.pipe_to_plugin).0
    then relayed os s' (read (s.globals.pipe_to_plugin).0 (block_size - 1)) (send fd)
    else s'.trace

pub tunnel_round-calls :
    (fd maxfd : ℤ) (l : Loop) (os : Os) (s : Machine)
    → IsPosix os
    → length l.buffer ≡ block_size
    → (l' : Loop) × (tunnel_round fd maxfd l os s
        ≡ ok (l', record s { trace = round_calls os s fd maxfd l.set_reading }))
      × (length l'.buffer ≡ block_size)
unfolding tunnel_round
tunnel_round-calls fd maxfd l os s p b =
    let pipe_in : ℤ = (s.globals.pipe_to_plugin).0 in
    let asked = fd_add fd (fd_add pipe_in l.set_reading) in
    let ready = selected asked (os s.trace (select maxfd asked)) in
    let s' : Machine = record s { trace = select maxfd asked ∷ s.trace } in
    let (down, ed, ld) =
      relay-relayed (recv fd 1504) (write (s.globals.pipe_from_plugin).1) 1504 l.buffer os s'
        (p.recvs _ fd 1504) (omega arith) in
    let (up, eu, lu) =
      relay-relayed (read pipe_in 1504) (send fd) 1504 l.buffer os s' (p.reads _ pipe_in 1504)
        (omega arith) in
    elim (Bool-cases (ready fd)) [
      | inl e ↦ (record { buffer = down; set_reading = ready }, rw (e, ◌>>=◌, ed), ld ∙ b)
      | inr e ↦ elim (Bool-cases (ready pipe_in)) [
        | inl f ↦ (record { buffer = up; set_reading = ready }, rw (e, f, ◌>>=◌, eu), lu ∙ b)
        | inr f ↦ (record { buffer = l.buffer; set_reading = ready }, rw (e, f), b)
      ]
    ]
