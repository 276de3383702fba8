-- ===== src/Tests/Samples.antt =====
-- The sample configurations test.config.client and test.config.sip.alice of the repository.
use multivpn.Globals.{zeroed, client_mode}
use multivpn.CString.Decimal.{decimal}
use multivpn.CString.{strncpy}
use multivpn.Parser.Numbers.{remote_port, sip_port}
use multivpn.Parser.RoundTrip.{
  Setting, with_text, with_count, as_client, empty_line, comment, render, configure, Fits,
  parse_config_file-render,
}
use multivpn.Parser.Settings.{
  remote_host, local_ip, local_netmask, remote_ip, plugin, sip_transport, sip_remoteuri,
  sip_fromuri,
}
use multivpn.Parser.{parse_config_file}
use multivpn.Prelude.Int.{pos}
use multivpn.Prelude.{◌≡◌, refl, List, [], ◌∷◌, codes, All, some, ok, arith}

abbrev pub client : List Setting
client =
    comment (codes "Global Options ...")
    ∷ as_client
    ∷ with_text local_ip (codes "10.200.200.1")
    ∷ with_text remote_ip (codes "10.200.200.2")
    ∷ with_text remote_host (codes "10.10.9.45")
    ∷ empty_line
    ∷ empty_line
    ∷ comment (codes " TCP Plugin options")
    ∷ comment (codes " options for tcp client")
    ∷ empty_line
    ∷ with_count remote_port 3006
    ∷ empty_line
    ∷ empty_line
    ∷ empty_line
    ∷ empty_line
    ∷ empty_line
    ∷ empty_line
    ∷ with_text plugin (codes "tcp")
    ∷ []

abbrev pub alice : List Setting
alice =
    comment (codes " Sample config for SIP Plugin (Alice Side)")
    ∷ with_text plugin (codes "sip")
    ∷ with_count sip_port 4060
    ∷ with_text sip_transport (codes "udp")
    ∷ with_text sip_fromuri (codes "sip:bob@10.10.0.180")
    ∷ with_text sip_remoteuri (codes "sip:alice@10.10.0.176")
    ∷ with_text local_ip (codes "10.200.200.1")
    ∷ with_text local_netmask (codes "255.255.255.0")
    ∷ []

-- The files themselves.
client_file :
    render client
    ≡ codes
        "#Global Options ...\nmode client\nlocal_ip 10.200.200.1\nremote_ip 10.200.200.2\nremote_host 10.10.9.45\n\n\n# TCP Plugin options\n# options for tcp client\n\nremote_port 3006\n\n\n\n\n\n\nplugin tcp\n"
unfolding decimal
client_file = refl

alice_file :
    render alice
    ≡ codes
        "# Sample config for SIP Plugin (Alice Side)\nplugin sip\nsip_port 4060\nsip_transport udp\nsip_fromuri sip:bob@10.10.0.180\nsip_remoteuri sip:alice@10.10.0.176\nlocal_ip 10.200.200.1\nlocal_netmask 255.255.255.0\n"
unfolding decimal
alice_file = refl

pub client-Fits : All Fits client
client-Fits = (
  (omega arith, omega arith),
  (
    tt,
    (
      (((λ e. cc e), omega arith), omega arith),
      (
        (((λ e. cc e), omega arith), omega arith),
        (
          (((λ e. cc e), omega arith), omega arith),
          (
            tt,
            (
              tt,
              (
                (omega arith, omega arith),
                (
                  (omega arith, omega arith),
                  (
                    tt,
                    (
                      omega arith,
                      (
                        tt,
                        (
                          tt,
                          (tt, (tt, (tt, (tt, ((((λ e. cc e), omega arith), omega arith), tt))))),
                        ),
                      ),
                    ),
                  ),
                ),
              ),
            ),
          ),
        ),
      ),
    ),
  ),
)

pub alice-Fits : All Fits alice
alice-Fits = (
  (omega arith, omega arith),
  (
    (((λ e. cc e), omega arith), omega arith),
    (
      omega arith,
      (
        (((λ e. cc e), omega arith), omega arith),
        (
          (((λ e. cc e), omega arith), omega arith),
          (
            (((λ e. cc e), omega arith), omega arith),
            (
              (((λ e. cc e), omega arith), omega arith),
              ((((λ e. cc e), omega arith), omega arith), tt),
            ),
          ),
        ),
      ),
    ),
  ),
)

-- Both are read whole, and so set what they name.
samples_read :
    (parse_config_file (some (render client)) zeroed ≡ some (ok (configure client zeroed)))
    × ((configure client zeroed).0 ≡ pos 0)
    × ((configure client zeroed).1.mode ≡ client_mode)
    × ((configure client zeroed).1.remote_port ≡ 3006)
    × (parse_config_file (some (render alice)) zeroed ≡ some (ok (configure alice zeroed)))
    × ((configure alice zeroed).0 ≡ pos 0)
    × ((configure alice zeroed).1.sip_port ≡ 4060)
    × ((configure alice zeroed).1.local_netmask
        ≡ strncpy zeroed.local_netmask (codes "255.255.255.0") 50)
samples_read = (
  parse_config_file-render client zeroed client-Fits,
  refl,
  refl,
  refl,
  parse_config_file-render alice zeroed alice-Fits,
  refl,
  refl,
  refl,
)
