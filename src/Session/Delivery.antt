-- ===== src/Session/Delivery.antt =====
-- Two sessions (Sources/miniDHT_session.h) on the ends of one connection: what one is given to
-- send, the other gets.
use mathlib.Core.Path.{subst}
use mathlib.Core.List.{append_assoc, append-nil, map-append}
use mini_dht.Base.{
  ℕ, zero, suc, ◌<◌, Bool, true, false, List, [], ◌∷◌, ◌++◌, map, none, some, Bytes, length, All,
  ◌≡◌, refl, sym, ◌∙◌, ap,
}
use mini_dht.Contact.{TcpEndpoint}
use mini_dht.Session.Message.{Message, body, pack}
use mini_dht.Session.Framing.{wire, stream_of}
use mini_dht.Session.Framing.Stream.{IsReader, Fits, read_packet-stream_of}
use mini_dht.Node.State.{Result, ok, ◌>>=◌}
use mini_dht.Session.State.{Session}
use mini_dht.Session.Exchange.{peer, read_step, read_step_lem, HasRead, packet_body}

-- So many packets of a stream, one after the other.
unfoldable pub receive : ℕ → TcpEndpoint → Bytes → Session → Result (Session × Bytes)
receive zero r stream s = ok (s, stream)
receive (suc n) r stream s = read_step r stream s >>= (λ (t, rest). receive n r rest t)

-- What `got_message_callback_` was called with: where a packet came from, and its body.
unfoldable pub seen : TcpEndpoint × Message → TcpEndpoint × Bytes
seen (ep, m) = (ep, body m)

-- The same, of a packet that was sent.
unfoldable pub arrival : Bool → TcpEndpoint → TcpEndpoint → ℕ × Bytes → TcpEndpoint × Bytes
arrival out r ep (port, payload) = (peer out r port ep, payload)

arrival-peer :
    (out : Bool) (r ep : TcpEndpoint) (port : ℕ) (ps : List (ℕ × Bytes))
    → map (arrival out r (peer out r port ep)) ps ≡ map (arrival out r ep) ps
unfolding arrival peer
arrival-peer true r ep port ps = refl
arrival-peer false r ep port ps = refl

-- What was seen after one more packet, with what is seen of the others.
seen_next :
    (s u : Session) (r : TcpEndpoint) (m : Message) (port : ℕ) (payload : Bytes)
    (ps : List (ℕ × Bytes))
    → HasRead m
        (peer s.connect r port s.ep)
        (s.got ++ (peer s.connect r port s.ep, m) ∷ [])
        s.connect
        u
    → body m ≡ payload
    → map seen u.got ++ map (arrival u.connect r u.ep) ps
      ≡ map seen s.got ++ map (arrival s.connect r s.ep) ((port, payload) ∷ ps)
unfolding arrival seen
seen_next s u r m port payload ps a same =
    let e = peer s.connect r port s.ep in
    let first : map seen u.got ≡ map seen s.got ++ (e, payload) ∷ [] =
      ap (map seen) a.so_far
      ∙ map-append seen s.got ((e, m) ∷ [])
      ∙ ap (λ (z : Bytes). map seen s.got ++ (e, z) ∷ []) same in
    let others : map (arrival u.connect r u.ep) ps ≡ map (arrival s.connect r s.ep) ps =
      ap (λ (z : Bool). map (arrival z r u.ep) ps) a.outgoing
      ∙ ap (λ (z : TcpEndpoint). map (arrival s.connect r z) ps) a.from
      ∙ arrival-peer s.connect r s.ep port ps in
    ap (λ (z : List (TcpEndpoint × Bytes)). z ++ map (arrival u.connect r u.ep) ps) first
    ∙ append_assoc (map seen s.got) ((e, payload) ∷ []) (map (arrival u.connect r u.ep) ps)
    ∙ ap (λ (z : List (TcpEndpoint × Bytes)). map seen s.got ++ (e, payload) ∷ z) others

pub receive-stream_of :
    (junk : ℕ → ℕ) (ps : List (ℕ × Bytes)) (rest : Bytes) (r : TcpEndpoint) (s : Session)
    → All Fits ps
    → IsReader s.read_msg
    → 0 < s.reading_header
    → (t : Session) × (receive (length ps) r (stream_of junk ps ++ rest) s ≡ ok (t, rest))
      × (map seen t.got ≡ map seen s.got ++ map (arrival s.connect r s.ep) ps)
unfolding receive
receive-stream_of junk [] rest r s fits h begun =
    (s, unfold stream_of in refl, sym (append-nil (map seen s.got)))
receive-stream_of junk ((port, payload) ∷ ps) rest r s fits h begun =
    let (m, read, h') = read_packet-stream_of junk port payload ps rest s.read_msg fits.0 h in
    let (u, step, a) = read_step_lem _ r _ s begun read in
    let (t, done, got) =
      receive-stream_of junk ps rest r u fits.1 (subst IsReader (sym a.message) h') a.waits in
    (t, rw (step, receive) done, got ∙ seen_next s u r m port payload ps a (packet_body _ _ _ read))

-- The packets of a run of payloads, as `send_MESSAGE` makes them, and the bytes of packets.
unfoldable pub packets_of : (ℕ → ℕ) → List (ℕ × Bytes) → List Message
packets_of junk [] = []
packets_of junk ((port, payload) ∷ ps) =
    let rest = packets_of junk ps in
    elim (pack junk port payload) [ none ↦ rest | some m ↦ m ∷ rest ]

unfoldable pub wires : List Message → Bytes
wires [] = []
wires (m ∷ ms) = wire m ++ wires ms
