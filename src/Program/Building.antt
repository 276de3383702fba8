-- ===== src/Program/Building.antt =====
-- Building a plugin starts no thread of the plugin, makes no pipe and carries no byte.
use multivpn.GenericTunnel.{store_connection_information}
use multivpn.CString.{c_str}
use multivpn.Globals.{server_mode, client_mode}
use multivpn.Machine.{Machine, Owner, tcp, sip, pure, ◌>>=◌}
use multivpn.Os.{Request, set_addr, set_netmask, Os}
use multivpn.Plugin.{call_build}
use multivpn.Prelude.Int.{ℤ, pos, is_true, int_eq}
use multivpn.Prelude.{
  ℕ, ◌≡◌, ok, arith, inl, inr, Bool-cases, Exec-cases, Option, none, some, Bytes,
}
use multivpn.SipPlugin.{sip_build}
use multivpn.TcpPlugin.{tcp_build, tcp_build_client, tcp_build_server}
use multivpn.TunTap.{tun_alloc, tun_open, tun_up, tun_set_ip, tun_set_netmask, set_address}
use multivpn.Program.Keeps.{Keeps, Keeps-trans, stays}

tun_open-Keeps : (os : Os) (s s' : Machine) (r : ℤ) → tun_open os s ≡ ok (r, s') → Keeps s s'
unfolding tun_open tun_alloc
tun_open-Keeps os s s' r e = record {
  silent = record { same_transfers = ground arith; same_table = ground arith };
  same_threads = ground arith;
  same_pipes = ground arith;
  same_start = ground arith;
}

pub tun_up-Keeps : (os : Os) (s s' : Machine) (r : ℤ) → tun_up os s ≡ ok (r, s') → Keeps s s'
unfolding tun_up
tun_up-Keeps os s s' r e = record {
  silent = record { same_transfers = ground arith; same_table = ground arith };
  same_threads = ground arith;
  same_pipes = ground arith;
  same_start = ground arith;
}

tcp_build_server-Keeps :
    (port : ℕ) (os : Os) (s s' : Machine) (r : ℤ)
    → tcp_build_server port os s ≡ ok (r, s')
    → Keeps s s'
unfolding tcp_build_server
tcp_build_server-Keeps port os s s' r e = record {
  silent = record { same_transfers = ground arith; same_table = ground arith };
  same_threads = ground arith;
  same_pipes = ground arith;
  same_start = ground arith;
}

tcp_build_client-Keeps :
    (host : Bytes) (port : ℕ) (os : Os) (s s' : Machine) (r : ℤ)
    → tcp_build_client host port os s ≡ ok (r, s')
    → Keeps s s'
unfolding tcp_build_client store_connection_information
tcp_build_client-Keeps host port os s s' r e = record {
  silent = record { same_transfers = ground arith; same_table = ground arith };
  same_threads = ground arith;
  same_pipes = ground arith;
  same_start = ground arith;
}

pub set_address-Keeps :
    (request : Bytes → ℕ → Request) (text : Bytes) (os : Os) (s s' : Machine) (r : ℤ)
    → set_address request text os s ≡ ok (r, s')
    → Keeps s s'
unfolding set_address
set_address-Keeps request text os s s' r e = record {
  silent = record { same_transfers = ground arith; same_table = ground arith };
  same_threads = ground arith;
  same_pipes = ground arith;
  same_start = ground arith;
}

-- The addresses of the interface, as `sip_build` sets them.
addresses-Keep :
    (os : Os) (s s' : Machine) (r : ℤ)
    → (set_address set_addr (c_str s.globals.local_ip) >>= λ a.
          set_address set_netmask (c_str s.globals.local_netmask) >>= λ b. pure (pos 0))
        os s
      ≡ ok (r, s')
    → Keeps s s'
addresses-Keep os s s' r e =
    let first = set_address set_addr (c_str s.globals.local_ip) in
    let second = set_address set_netmask (c_str s.globals.local_netmask) in
    elim (Exec-cases (first os s)) [
      | inr (x, f) ↦ absurd (ground (arith, f, e))
      | inl ((a, t), f) ↦ elim (Exec-cases (second os t)) [
        | inr (x, g) ↦ absurd (ground (arith, f, g, e))
        | inl ((b, u), g) ↦
            Keeps-trans (set_address-Keeps _ _ os s t a f) (
              Keeps-trans (set_address-Keeps _ _ os t u b g) (stays u s' (ground (arith, f, g, e))))
      ]
    ]

sip_build-Keeps : (os : Os) (s s' : Machine) (r : ℤ) → sip_build os s ≡ ok (r, s') → Keeps s s'
unfolding sip_build tun_set_ip tun_set_netmask
sip_build-Keeps os s s' r e = elim (Exec-cases (tun_open os s)) [
  | inr (x, f) ↦ absurd (ground (arith, f, e))
  | inl ((a, t), f) ↦ Keeps-trans (tun_open-Keeps os s t a f) (elim (Bool-cases (is_true a)) [
    | inl g ↦ stays t s' (ground (arith, f, g, e))
    | inr g ↦ elim (Exec-cases (tun_up os t)) [
      | inr (x, h) ↦ absurd (ground (arith, f, g, h, e))
      | inl ((b, u), h) ↦ Keeps-trans (tun_up-Keeps os t u b h) (elim (Bool-cases (is_true b)) [
        | inl k ↦ stays u s' (ground (arith, f, g, h, k, e))
        | inr k ↦ addresses-Keep os u s' r (ground (arith, f, g, h, k, e))
      ])
    ]
  ])
]

tcp_build-Keeps : (os : Os) (s s' : Machine) (r : ℤ) → tcp_build os s ≡ ok (r, s') → Keeps s s'
unfolding tcp_build
tcp_build-Keeps os s s' r e = elim (Exec-cases (tun_open os s)) [
  | inr (x, f) ↦ absurd (ground (arith, f, e))
  | inl ((a, t), f) ↦ Keeps-trans (tun_open-Keeps os s t a f) (elim (Bool-cases (is_true a)) [
    | inl g ↦ stays t s' (ground (arith, f, g, e))
    | inr g ↦ elim (Bool-cases (int_eq t.globals.mode server_mode)) [
      | inl k ↦ tcp_build_server-Keeps t.globals.local_port os t s' r (ground (arith, f, g, k, e))
      | inr k ↦ elim (Bool-cases (int_eq t.globals.mode client_mode)) [
        | inr m ↦ stays t s' (ground (arith, f, g, k, m, e))
        | inl m ↦
            let client = tcp_build_client (c_str t.globals.remote_host) t.globals.remote_port in
            elim (Exec-cases (client os t)) [
              | inr (x, c) ↦ absurd (ground (arith, f, g, k, m, c, e))
              | inl ((b, u), c) ↦
                  Keeps-trans (tcp_build_client-Keeps _ _ os t u b c)
                    (stays u s' (ground (arith, f, g, k, m, c, e)))
            ]
      ]
    ]
  ])
]

pub call_build-Keeps :
    (chosen : Option Owner) (os : Os) (s s' : Machine) (r : ℤ)
    → call_build chosen os s ≡ ok (r, s')
    → Keeps s s'
unfolding call_build
call_build-Keeps none os s s' r e = absurd (ground (arith, e))
call_build-Keeps (some tcp) os s s' r e = tcp_build-Keeps os s s' r e
call_build-Keeps (some sip) os s s' r e = sip_build-Keeps os s s' r e
