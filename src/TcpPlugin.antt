-- ===== src/TcpPlugin.antt =====
-- tcp_plugin.c: the tunnel over one TCP connection.
pub mod Relay
pub mod Nfds
pub mod Streams
pub mod Draining
use multivpn.CString.{c_str, strncmp_eq}
use multivpn.GenericTunnel.{store_connection_information, get_socket_recv_queue}
use multivpn.Globals.{block_size, server_mode, client_mode}
use multivpn.Machine.{Machine, M, pure, ◌>>=◌, ◌>>◌, get, modify, sys, fail}
use multivpn.Os.{
  Reply, Call, stream, socket, connect, bind, listen, accept, close, read, recv, write, send,
  select, gethostbyname, FdSet, fd_add, selected,
}
use multivpn.Prelude.Int.{
  ℤ, pos, is_neg, is_true, is_pos, is_minus_one, minus_one, int_eq, int_gt, int_suc, pos_part,
}
use multivpn.Prelude.{
  ℕ, zero, suc, ◌-◌, ◌%◌, ◌^◌, Bool, true, false, not, ◌||◌, List, [], none, Bytes, codes, length,
  out_of_bounds, take, drop, ◌++◌, ◌==◌, if◌then◌else◌,
}
use multivpn.TunTap.{tun_open, tun_up, tun_set_ip, tun_set_netmask, tun_get_file}

-- `htons` of a port, by the 16-bit number that it carries
abbrev pub to_port : ℕ → ℕ
to_port n = n % 2 ^ 16

unfoldable pub tcp_build_client : Bytes → ℕ → M ℤ
tcp_build_client remote_host remote_port = do
  modify (λ s. record s { mode_server = false })
  r ← sys (socket stream)
  modify (λ s. record s { socket_remote = r.ret })
  if is_minus_one r.ret then pure minus_one else (do
    he ← sys (gethostbyname remote_host)
    if is_true he.ret
        then (do
          c ← sys (connect r.ret (to_port remote_port) he.value)
          if is_minus_one c.ret then pure minus_one else (do
            id ← store_connection_information 0 none
            modify (λ s. record s { client_id = id })
            pure (if id == 0 then minus_one else pos 0)))
        else pure minus_one)

unfoldable pub tcp_build_server : ℕ → M ℤ
tcp_build_server local_port = do
  modify (λ s. record s { mode_server = true; remote_client_connected = false })
  r ← sys (socket stream)
  modify (λ s. record s { socket_server = r.ret })
  if is_minus_one r.ret then pure minus_one else (do
    modify (λ s. record s { server_port = to_port local_port })
    b ← sys (bind r.ret (to_port local_port))
    if is_minus_one b.ret
        then pure minus_one
        else (do l ← sys (listen r.ret 1); pure (if is_minus_one l.ret then minus_one else pos 0)))

unfoldable pub tcp_get_socket : M ℤ
tcp_get_socket = do s ← get; pure (if s.mode_server then s.socket_connected else s.socket_remote)

unfoldable pub tcp_read : ℕ → M Reply
unfolding tcp_get_socket
tcp_read numbytes = do fd ← tcp_get_socket; sys (recv fd numbytes)

unfoldable pub tcp_send : Bytes → M ℤ
unfolding tcp_get_socket
tcp_send buffer = do fd ← tcp_get_socket; r ← sys (send fd buffer); pure r.ret

unfoldable pub tcp_stop : M ℤ
tcp_stop = do
  s ← get
  if s.mode_server
      then (do
        if s.remote_client_connected
            then (do c ← sys (close s.socket_connected); pure tt)
            else pure tt
        c ← sys (close s.socket_server)
        modify (λ s'. record s' { remote_client_connected = false })
        pure (pos 0))
      else (do c ← sys (close s.socket_remote); pure (pos 0))

unfoldable pub tcp_build : M ℤ
tcp_build = do
  t ← tun_open
  s ← get
  if is_true t
      then pure minus_one
      else if int_eq s.globals.mode server_mode
      then tcp_build_server s.globals.local_port
      else if int_eq s.globals.mode client_mode
      then (do
        r ← tcp_build_client (c_str s.globals.remote_host) s.globals.remote_port
        pure (if is_true r then minus_one else pos 0))
      else pure minus_one

-- The local variables of a relay loop.
pub record Loop : Type 0 where
  pub buffer : Bytes
  pub set_reading : FdSet

-- A buffer after bytes were read into its beginning.
abbrev pub overlay : Bytes → Bytes → Bytes
overlay bytes buffer = bytes ++ drop (length bytes) buffer

-- `nBytes = <source>; if (nBytes > 0) nBytes = <sink>(buffer, nBytes);`: the buffer afterwards
unfoldable pub relay : Call → (Bytes → Call) → Bytes → M Bytes
relay source sink buffer = do
  r ← sys source
  let filled = overlay r.bytes buffer
  if is_pos r.ret
      then (do w ← sys (sink (take (pos_part r.ret) filled)); pure filled)
      else pure filled

-- One round of the loop in `tcp_startClient` and in `tcp_startServer`, which are alike but for the
-- socket. The socket is served before the pipe.
unfoldable pub tunnel_round : ℤ → ℤ → Loop → M Loop
unfolding relay
tunnel_round fd maxfd l = do
  s ← get
  let (pipe_in, _) = s.globals.pipe_to_plugin
  let (_, pipe_out) = s.globals.pipe_from_plugin
  let asked = fd_add fd (fd_add pipe_in l.set_reading)
  r ← sys (select maxfd asked)
  let ready = selected asked r
  if ready fd
      then (do
        b ← relay (recv fd (block_size - 1)) (write pipe_out) l.buffer
        pure (record { buffer = b; set_reading = ready }))
      else if ready pipe_in
      then (do
        b ← relay (read pipe_in (block_size - 1)) (send fd) l.buffer
        pure (record { buffer = b; set_reading = ready }))
      else pure (record { buffer = l.buffer; set_reading = ready })

-- So many rounds of `while (1)`.
unfoldable pub tunnel_rounds : ℕ → ℤ → ℤ → Loop → M Loop
tunnel_rounds zero fd maxfd l = pure l
tunnel_rounds (suc n) fd maxfd l = do l' ← tunnel_round fd maxfd l; tunnel_rounds n fd maxfd l'

abbrev pub max_fd : ℤ → ℤ → ℤ
max_fd a b = if int_gt a b then int_suc a else int_suc b

-- The loop's variables are not initialised: `l` is what they hold.
unfoldable pub tcp_start_client : ℕ → Loop → M Loop
tcp_start_client n l = do
  s ← get
  tunnel_rounds n s.socket_remote (max_fd s.socket_remote (s.globals.pipe_to_plugin).0) l

-- Where `accept` fails, the `FD_SET` of the first round writes in front of the set.
unfoldable pub tcp_start_server : ℕ → Loop → M Loop
tcp_start_server n l = do
  s ← get
  r ← sys (accept s.socket_server)
  modify (λ s'. record s' { socket_connected = r.ret; remote_client_connected = true })
  if is_neg r.ret
      then fail out_of_bounds
      else tunnel_rounds n r.ret (max_fd r.ret (s.globals.pipe_to_plugin).0) l

unfoldable pub tcp_start : ℕ → Loop → M ℤ
tcp_start n l = do
  s ← get
  a ← tun_set_ip (c_str s.globals.local_ip)
  b ← tun_set_netmask (codes "255.255.255.0")
  c ← tun_up
  if int_eq s.globals.mode server_mode
      then (do l' ← tcp_start_server n l; pure (pos 0))
      else if int_eq s.globals.mode client_mode
      then (do l' ← tcp_start_client n l; pure (pos 0))
      else pure (pos 0)
