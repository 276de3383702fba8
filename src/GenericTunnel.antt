-- ===== src/GenericTunnel.antt =====
-- generictunel.c: the table of connections of each plugin.
pub mod Slots
pub mod Ledger
pub mod Agreement
pub mod Refinement
use multivpn.Globals.{max_in_connections}
use multivpn.Machine.{Machine, Connection, M, pure, ◌>>=◌, ◌>>◌, get, modify, sys, lift, fail}
use multivpn.Os.{Reply, socket, stream, recv, send}
use multivpn.Prelude.Int.{ℤ, pos}
use multivpn.Prelude.{
  ℕ, zero, suc, ◌+◌, Bool, true, false, not, ◌&&◌, ◌||◌, List, [], ◌∷◌, Option, none, some, Bytes,
  set, get_elem?, drop, replicate, ltb, ◌==◌, if◌then◌else◌, Exec, ok, fault, out_of_bounds,
  double_free, at,
}

abbrev pub maxint : ℕ
maxint = 32767

abbrev pub number_plugins : ℕ
number_plugins = 1

-- The zeroed table of one plugin.
abbrev pub no_connections : List Connection
no_connections =
    replicate max_in_connections
      (record { connectiondata = none; sendsocket = pos 0; recvsocket = pos 0; active = 0 })

-- `for (; i < MAXINT && connections[i].active; i++);` from slot `i` on, of which the list holds the
-- slots that are there: the bound is MAXINT, not the size of the table.
unfoldable pub find_slot : ℕ → List Connection → Exec ℕ
find_slot i [] = if ltb i maxint then fault out_of_bounds else ok i
find_slot i (c ∷ cs) =
    let later = find_slot (i + 1) cs in if ltb i maxint && not (c.active == 0) then later else ok i

-- `plugindata[pnumber].connections`
unfoldable pub table_of : ℕ → M (List Connection)
table_of pnumber = do s ← get; lift (at (get_elem? s.plugindata pnumber))

unfoldable pub connection : ℕ → ℕ → M Connection
unfolding table_of
connection pnumber id = do cs ← table_of pnumber; lift (at (get_elem? cs id))

unfoldable pub write_connection : ℕ → ℕ → Connection → M (Unit {0})
unfolding table_of
write_connection pnumber id c = do
  cs ← table_of pnumber
  modify (λ s. record s { plugindata = set s.plugindata pnumber (set cs id c) })

unfoldable pub store_connection_information : ℕ → Option ℕ → M ℕ
unfolding table_of connection write_connection find_slot
store_connection_information pnumber ptr = do
  cs ← table_of pnumber
  i ← lift (find_slot 1 (drop 1 cs))
  if i == maxint then pure 0 else (do
    c ← connection pnumber i
    a ← sys (socket stream)
    b ← sys (socket stream)
    write_connection pnumber i
        (record { connectiondata = ptr; sendsocket = a.ret; recvsocket = b.ret; active = 1 })
    pure i)

-- Has this address been given to `free` before?
unfoldable pub was_freed : ℕ → List ℕ → Bool
was_freed p [] = false
was_freed p (q ∷ qs) = p == q || was_freed p qs

unfoldable pub free_block : ℕ → M (Unit {0})
unfolding was_freed
free_block p = do
  s ← get
  if was_freed p s.freed then fail double_free else modify (λ s. record s { freed = p ∷ s.freed })

unfoldable pub remove_stored_connection_information : ℕ → ℕ → M (Unit {0})
unfolding connection write_connection free_block
remove_stored_connection_information pnumber id = do
  c ← connection pnumber id
  write_connection pnumber id (record c { active = 1 })
  elim c.connectiondata [ none ↦ pure tt | some p ↦ free_block p ]

unfoldable pub retrieve_connection_information : ℕ → ℕ → M (Option ℕ)
unfolding connection
retrieve_connection_information pnumber id = do c ← connection pnumber id; pure c.connectiondata

unfoldable pub get_packet_in_recv_queue : ℕ → ℕ → ℕ → M Reply
unfolding connection
get_packet_in_recv_queue pnumber id size = do
  c ← connection pnumber id
  sys (recv c.recvsocket size)

unfoldable pub get_first_packet_in_send_queue : ℕ → ℕ → ℕ → M Reply
unfolding connection
get_first_packet_in_send_queue pnumber id size = do
  c ← connection pnumber id
  sys (recv c.sendsocket size)

unfoldable pub put_packet_in_recv_queue : ℕ → ℕ → Bytes → M ℤ
unfolding connection
put_packet_in_recv_queue pnumber id packet = do
  c ← connection pnumber id
  r ← sys (send c.recvsocket packet)
  pure r.ret

unfoldable pub put_packet_in_send_queue : ℕ → ℕ → Bytes → M ℤ
unfolding connection
put_packet_in_send_queue pnumber id packet = do
  c ← connection pnumber id
  r ← sys (send c.sendsocket packet)
  pure r.ret

unfoldable pub get_socket_recv_queue : ℕ → ℕ → M ℤ
unfolding connection
get_socket_recv_queue pnumber id = do c ← connection pnumber id; pure c.recvsocket

unfoldable pub get_socket_send_queue : ℕ → ℕ → M ℤ
unfolding connection
get_socket_send_queue pnumber id = do c ← connection pnumber id; pure c.sendsocket
