-- ===== src/SipHost/Callbacks.antt =====
-- What PJSIP's callbacks leave of the frames that have arrived.
-- pipe.
use mathlib.Core.List.{append-nil, flatten}
use mathlib.Core.Path.{subst}
use multivpn.Base64.Decode.{base64_decode-rfc4648}
use multivpn.Base64.Encode.{rfc4648, length-rfc4648}
use multivpn.Base64.Lookup.{Supplies, IsUsable}
use multivpn.Base64.{Malloc, built}
use multivpn.Machine.{Machine, ◌>>=◌}
use multivpn.Os.{Os}
use multivpn.Prelude.Int.{to_signed}
use multivpn.Prelude.{
  ℕ, ◌⊎◌, ◌^◌, ◌%◌, ◌≡◌, ◌<◌, refl, sym, ◌∙◌, ap, true, List, [], ◌∷◌, ◌++◌, map, some, Bytes, All,
  length, ok, inl, inr, Bool-cases, Option-cases, arith,
}
use multivpn.SipEvents.Delivery.{flatten-append}
use multivpn.SipEvents.Stream.{map-front, All-split}
use multivpn.SipEvents.{Event, rx_request, rx_response, tx_message, state_changed, dialog_forked}
use multivpn.SipPlugin.Frames.{IsFrame}
use multivpn.SipPlugin.Header.{copy_payload_lem, rfc4648-nonzero}
use multivpn.SipPlugin.Tunnel.{take_signed}
use multivpn.SipPlugin.{RxData, copy_payload}
use multivpn.SipThreads.{Receiver, rx_handle, rx_write, receive, receiver_event}
use multivpn.TcpPlugin.Streams.{written}
use multivpn.SipHost.Receiving.{header_of, arrived, arrived-append, held, ReceiverLedger}

-- A callback makes no call itself.
pub receiver_event_quiet :
    (malloc : Malloc) (junk : ℕ) (e : Event) (os : Os) (m m' : Machine) (pc : Receiver)
    → receiver_event malloc junk e os m ≡ ok (pc, m')
    → (m'.trace ≡ m.trace)
      × (m'.globals ≡ m.globals)
      × (m'.tfd ≡ m.tfd)
      × (m'.socket_connected ≡ m.socket_connected)
      × (header_of e ≡ [] → (held pc ≡ []) × (m'.decoding_table ≡ m.decoding_table))
unfolding receiver_event copy_payload
receiver_event_quiet malloc junk (rx_request rdata) os m m' pc e =
    (ground arith, ground arith, ground arith, ground arith, λ z. (ground arith, ground arith))
receiver_event_quiet malloc junk rx_response os m m' pc e = ground arith
receiver_event_quiet malloc junk tx_message os m m' pc e = ground arith
receiver_event_quiet malloc junk (state_changed state) os m m' pc e = ground arith
receiver_event_quiet malloc junk dialog_forked os m m' pc e = ground arith

-- A request whose header is the text of a frame.
abbrev pub BringsFrame : RxData → Bytes → Type 0
BringsFrame rdata frame = (rdata.is_options ≡ true) × (rdata.multivpn_header ≡ some (rfc4648 frame))

-- It is taken without a fault, and the frame is about to be written.
pub receive-frame :
    (malloc : Malloc) (junk : ℕ) (frame : Bytes) (rdata : RxData) (os : Os) (m : Machine)
    → Supplies malloc
    → IsFrame frame
    → IsUsable m.decoding_table
    → BringsFrame rdata frame
    → (pc : Receiver) × (m' : Machine) × (receive malloc junk rdata os m ≡ ok (pc, m'))
      × (held pc ≡ frame)
      × IsUsable m'.decoding_table
unfolding receive
receive-frame malloc junk [] rdata os m supplies f u (o, h) = absurd (omega (arith, f.some_bytes))
receive-frame malloc junk (a ∷ datos) rdata os m supplies f u (o, h) =
    let frame : Bytes = a ∷ datos in
    let fits : length (rfc4648 frame) < 2048 = omega (arith, length-rfc4648 frame, f.bounded) in
    let (table, e, inv) =
      base64_decode-rfc4648 malloc m.decoding_table junk a datos supplies u f.bytes in
    let copied = (copy_payload_lem (rfc4648 frame) os m).0 (rfc4648-nonzero frame f.bytes) fits in
    (
      rx_write (some frame) (to_signed (length frame % 2 ^ 32)),
      record m { decoding_table = built table },
      rw (o, h, copied, ◌>>=◌, e) refl,
      take_signed (length frame) frame refl (omega (arith, f.bounded)),
      inv,
    )

-- The last of a mapped list.
map-last :
    (hs : List Bytes) (header : Bytes) (fs : List Bytes)
    → hs ++ header ∷ [] ≡ map rfc4648 fs
    → (front : List Bytes) × (frame : Bytes) × (hs ≡ map rfc4648 front)
      × (header ≡ rfc4648 frame)
      × (front ++ frame ∷ [] ≡ fs)
map-last hs header fs e =
    let (front, back, p, q, r) = map-front rfc4648 hs (header ∷ []) fs e in one front back p q r
  where
    one :
        (front back : List Bytes)
        → hs ≡ map rfc4648 front
        → header ∷ [] ≡ map rfc4648 back
        → front ++ back ≡ fs
        → (front : List Bytes) × (frame : Bytes) × (hs ≡ map rfc4648 front)
          × (header ≡ rfc4648 frame)
          × (front ++ frame ∷ [] ≡ fs)
    one front [] p q r = absurd (cc q)
    one front (frame ∷ []) p q r = (front, frame, p, cc q, r)
    one front (frame ∷ other ∷ back) p q r = absurd (cc q)

-- Whether an event brings a header, and that header.
header-cases :
    (e : Event)
    → (header_of e ≡ [])
      ⊎ ((rdata : RxData) × (header : Bytes) × (e ≡ rx_request rdata)
          × (rdata.is_options ≡ true)
          × (rdata.multivpn_header ≡ some header))
header-cases (rx_request rdata) = elim (Bool-cases rdata.is_options) [
  | inr e ↦ inl (rw e refl)
  | inl e ↦ elim (Option-cases rdata.multivpn_header) [
    | inl f ↦ inl (rw (e, f) refl)
    | inr (header, f) ↦ inr (rdata, header, refl, e, f)
  ]
]
header-cases rx_response = inl refl
header-cases tx_message = inl refl
header-cases (state_changed state) = inl refl
header-cases dialog_forked = inl refl

flatten-last :
    (front : List Bytes) (frame : Bytes) → flatten (front ++ frame ∷ []) ≡ flatten front ++ frame
unfolding flatten
flatten-last front frame =
    flatten-append front (frame ∷ []) ∙ ap (λ b. flatten front ++ b) (append-nil frame)

-- A callback keeps the ledger.
pub receiver_event-ReceiverLedger :
    (malloc : Malloc) (junk : ℕ) (e : Event) (os : Os) (m m' : Machine) (pc : Receiver)
    (events : List Event)
    → Supplies malloc
    → ReceiverLedger rx_handle m events
    → receiver_event malloc junk e os m ≡ ok (pc, m')
    → ReceiverLedger pc m' (events ++ e ∷ [])
unfolding receiver_event
receiver_event-ReceiverLedger malloc junk e os m m' pc events supplies v ran fs framed arr =
    let (trace, globals, tfd, socket, quiet) = receiver_event_quiet malloc junk e os m m' pc ran in
    let all : arrived events ++ header_of e ≡ map rfc4648 fs =
      sym (arrived-append events e) ∙ arr in
    let same : written (m'.globals.pipe_from_plugin).1 m'.trace
        ≡ written (m.globals.pipe_from_plugin).1 m.trace =
      cc (trace, globals) in
    elim (header-cases e) [
      | inl none_here ↦
          let before =
            sym (append-nil (arrived events))
            ∙ sym (ap (λ hs. arrived events ++ hs) none_here)
            ∙ all in
          let (w, u) = v fs framed before in
          let (holds, table) = quiet none_here in
          (
            ap (λ b. written (m'.globals.pipe_from_plugin).1 m'.trace ++ b) holds
                ∙ ap (λ b. b ++ []) same
                ∙ w,
            subst IsUsable (sym table) u,
          )
      | inr (rdata, header, is_request, o, f) ↦
          let brought : header_of e ≡ header ∷ [] = rw (is_request, o, f) refl in
          let (front, frame, p, q, r) =
            map-last (arrived events) header fs
              (ap (λ hs. arrived events ++ hs) (sym brought) ∙ all) in
          let (front_framed, last_framed) =
            All-split IsFrame front (frame ∷ []) (subst (All IsFrame) (sym r) framed) in
          let (w, u) = v front front_framed p in
          let (pc₁, m₁, took, holds, usable) =
            receive-frame malloc junk frame rdata os m supplies last_framed.0 u
              (o, f ∙ ap some q) in
          let took_e : receiver_event malloc junk e os m ≡ ok (pc₁, m₁) =
            ap (λ x. receiver_event malloc junk x os m) is_request ∙ took in
          let same_pc : pc₁ ≡ pc = cc (took_e, ran) in
          let same_m : m₁ ≡ m' = cc (took_e, ran) in
          (
            ap (λ b. written (m'.globals.pipe_from_plugin).1 m'.trace ++ b)
                  (ap held (sym same_pc) ∙ holds)
                ∙ ap (λ b. b ++ frame) (same ∙ sym (append-nil _) ∙ w)
                ∙ sym (flatten-last front frame)
                ∙ ap flatten r,
            subst (λ (x : Machine). IsUsable x.decoding_table) same_m usable,
          )
    ]
