-- ===== src/Session/Exchange.antt =====
-- The handlers of a session that read (Sources/miniDHT_session.h), over a stream of bytes: what
-- comes in on the other end of a connection.
use mathlib.Core.Option.{none-ne-some, some-injective}
use mini_dht.Base.{
  ℕ, ◌-◌, ◌<◌, Bool, true, false, List, [], ◌∷◌, ◌++◌, some, Bytes, Map, ltb, ◌==◌, if◌then◌else◌,
  length, take, ◌≡◌, refl, sym, ◌∙◌, ap, arith, inl, inr, Bool-cases, Option-cases,
}
use mini_dht.Base.Slices.{drop, put_at}
use mini_dht.Base.Int.{decrement}
use mini_dht.Contact.{EndpointProto, TcpEndpoint}
use mini_dht.Session.Message.{Message, header_length, decode_header, body}
use mini_dht.Session.Framing.{fill, header_of, after_header, read_body, read_packet, Received}
use mini_dht.Node.State.{Result, ok, ◌>>=◌}
use mini_dht.Session.State.{
  Session, await_body, await_header, accept_as, accept_header, handle_read_header, handle_read_body,
}
use mini_dht.Session.Lifetime.{register_table}

-- The body, if its read was begun and it is there.
unfoldable pub body_step : Bytes → Session → Result (Session × Bytes)
body_step stream s =
    if s.reading_body == 0
    then ok (s, stream)
    else if ltb (length stream) s.read_msg.body_length
    then ok (s, stream)
    else (handle_read_body false false (take s.read_msg.body_length stream) s
        >>= (λ t. ok (t, drop s.read_msg.body_length stream)))

-- A header, if its read was begun and it is there, and the body.
unfoldable pub read_step : TcpEndpoint → Bytes → Session → Result (Session × Bytes)
read_step r stream s =
    if s.reading_header == 0
    then ok (s, stream)
    else if ltb (length stream) header_length
    then ok (s, stream)
    else (handle_read_header false (header_of stream) (some r) s
        >>= body_step (after_header stream))

-- How a packet is read, step by step.
record IsPacket (stream : Bytes) (m : Message) (r : Received) : Type 0 where
  at_header : Message
  at_body : Message
  enough : ltb (length stream) header_length ≡ false
  filled : fill 0 (header_of stream) m ≡ some at_header
  accepted : decode_header at_header ≡ some (true, at_body)
  whole : ltb (length (after_header stream)) at_body.body_length ≡ false
  got_body :
      fill header_length (take at_body.body_length (after_header stream)) at_body ≡ some r.1.1
  packet : ((r.1.1).listen_port, body r.1.1) ≡ r.0
  left : drop at_body.body_length (after_header stream) ≡ r.1.0

fill_port :
    (i : ℕ) (bytes : Bytes) (m m' : Message)
    → fill i bytes m ≡ some m'
    → m'.listen_port ≡ m.listen_port
unfolding fill
fill_port i bytes m m' e = elim (Option-cases m.buffer) [
  | inl empty ↦ absurd (none-ne-some m' (sym (rw (empty, fill) refl) ∙ e))
  | inr (b, held) ↦ elim (Option-cases (put_at i bytes b)) [
    | inl long ↦ absurd (none-ne-some m' (sym (rw (held, long, fill) refl) ∙ e))
    | inr (b', put) ↦
        let same : record m { buffer = some b' } ≡ m' =
          some-injective (record m { buffer = some b' }) m' (sym (rw (held, put, fill) refl) ∙ e) in
        sym (ap (λ (z : Message). z.listen_port) same)
  ]
]

body_steps :
    (stream : Bytes) (m : Message) (r : Received)
    → read_body stream m ≡ some r
    → (ltb (length stream) m.body_length ≡ false)
      × (fill header_length (take m.body_length stream) m ≡ some r.1.1)
      × (((r.1.1).listen_port, body r.1.1) ≡ r.0)
      × (drop m.body_length stream ≡ r.1.0)
unfolding read_body
body_steps stream m r e = elim (Bool-cases (ltb (length stream) m.body_length)) [
  | inl short ↦ absurd (none-ne-some r (sym (rw (short, read_body) refl) ∙ e))
  | inr whole ↦ elim (Option-cases (fill header_length (take m.body_length stream) m)) [
    | inl none_left ↦ absurd (none-ne-some r (sym (rw (whole, none_left, read_body) refl) ∙ e))
    | inr (m', filled) ↦
        let same : ((m'.listen_port, body m'), (drop m.body_length stream, m')) ≡ r =
          some-injective _ _ (sym (rw (whole, filled, read_body) refl) ∙ e) in
        (
          whole,
          filled ∙ ap (λ (z : Received). some z.1.1) same,
          ap (λ (z : Received). ((z.1.1).listen_port, body z.1.1)) (sym same)
              ∙ ap (λ (z : Received). z.0) same,
          ap (λ (z : Received). z.1.0) same,
        )
  ]
]

read_packet-IsPacket :
    (stream : Bytes) (m : Message) (r : Received)
    → read_packet stream m ≡ some r
    → IsPacket stream m r
unfolding read_packet
read_packet-IsPacket stream m r e = elim (Bool-cases (ltb (length stream) header_length)) [
  | inl short ↦ absurd (none-ne-some r (sym (rw (short, read_packet) refl) ∙ e))
  | inr enough ↦ elim (Option-cases (fill 0 (header_of stream) m)) [
    | inl no_room ↦ absurd (none-ne-some r (sym (rw (enough, no_room, read_packet) refl) ∙ e))
    | inr (m1, filled) ↦ elim (Option-cases (decode_header m1)) [
      | inl bad ↦ absurd (none-ne-some r (sym (rw (enough, filled, bad, read_packet) refl) ∙ e))
      | inr ((false, m2), refused) ↦
          absurd (none-ne-some r (sym (rw (enough, filled, refused, read_packet) refl) ∙ e))
      | inr ((true, m2), accepted) ↦
          let (whole, got_body, packet, left) =
            body_steps (after_header stream) m2 r
              (sym (rw (enough, filled, accepted, read_packet) refl) ∙ e) in
          record {
            at_header = m1;
            at_body = m2;
            enough = enough;
            filled = filled;
            accepted = accepted;
            whole = whole;
            got_body = got_body;
            packet = packet;
            left = left;
          }
    ]
  ]
]

-- The end point that a packet comes from, by `connect_`.
unfoldable pub peer : Bool → TcpEndpoint → ℕ → TcpEndpoint → TcpEndpoint
peer true r port ep = ep
peer false r port ep = record { address_text = r.address_text; port_number = port }

accepted_as :
    (out : Bool) (r : TcpEndpoint) (s : Session)
    → (table : Map EndpointProto ℕ) × (accept_as out (some r) s
        ≡ await_body (record s { ep = peer out r s.read_msg.listen_port s.ep; table = table }))
unfolding accept_as peer
accepted_as true r s = let (table, e) = register_table s in (table, ap await_body e)
accepted_as false r s =
    let (table, e) = register_table (record s {
      ep = record { address_text = r.address_text; port_number = s.read_msg.listen_port };
    }) in
    (table, ap await_body e)

-- A session that waits for a header, has this message, and got these messages.
pub record HasRead (m : Message) (ep : TcpEndpoint) (got : List (TcpEndpoint × Message))
    (out : Bool) (t : Session) : Type 0 where
  pub waits : 0 < t.reading_header
  pub message : t.read_msg ≡ m
  pub from : t.ep ≡ ep
  pub so_far : t.got ≡ got
  pub outgoing : t.connect ≡ out

header_step :
    (bytes : Bytes) (r : TcpEndpoint) (m1 m2 : Message) (s : Session)
    → fill 0 bytes s.read_msg ≡ some m1
    → decode_header m1 ≡ some (true, m2)
    → (table : Map EndpointProto ℕ) × (handle_read_header false bytes (some r) s
        ≡ ok (
            await_body (record s {
              reading_header = s.reading_header - 1;
              ref_count = decrement s.ref_count;
              read_msg = m2;
              ep = peer s.connect r m2.listen_port s.ep;
              table = table;
            })))
unfolding accept_header handle_read_header
header_step bytes r m1 m2 s filled accepted =
    let (table, e) = accepted_as s.connect r (record s {
      reading_header = s.reading_header - 1;
      ref_count = decrement s.ref_count;
      read_msg = m2;
    }) in
    (table, rw (filled, accepted, handle_read_header) (ap (λ (z : Session). ok z) e))

body_step_lem :
    (stream : Bytes) (m : Message) (ep : TcpEndpoint) (u : Session)
    → 0 < u.reading_body
    → ltb (length stream) u.read_msg.body_length ≡ false
    → fill header_length (take u.read_msg.body_length stream) u.read_msg ≡ some m
    → u.ep ≡ ep
    → (t : Session) × (body_step stream u ≡ ok (t, drop u.read_msg.body_length stream))
      × HasRead m ep (u.got ++ (ep, m) ∷ []) u.connect t
unfolding body_step handle_read_body
body_step_lem stream m ep u begun whole filled from =
    let pending : (u.reading_body == 0) ≡ false = ground arith in
    (
      await_header (record u {
        reading_body = u.reading_body - 1;
        ref_count = decrement u.ref_count;
        read_msg = m;
        got = u.got ++ (u.ep, m) ∷ [];
      }),
      rw (pending, whole, filled, body_step, handle_read_body) refl,
      record {
        waits = omega arith;
        message = refl;
        from = from;
        so_far = ap (λ (z : TcpEndpoint). u.got ++ (z, m) ∷ []) from;
        outgoing = refl;
      },
    )

pub read_step_lem :
    (stream : Bytes) (r : TcpEndpoint) (p : Received) (s : Session)
    → 0 < s.reading_header
    → read_packet stream s.read_msg ≡ some p
    → (t : Session) × (read_step r stream s ≡ ok (t, p.1.0))
      × HasRead p.1.1
          (peer s.connect r p.0.0 s.ep)
          (s.got ++ (peer s.connect r p.0.0 s.ep, p.1.1) ∷ [])
          s.connect
          t
unfolding read_step
read_step_lem stream r p s begun read =
    let k = read_packet-IsPacket stream s.read_msg p read in
    let (table, headed) =
      header_step (header_of stream) r k.at_header k.at_body s k.filled k.accepted in
    let port : (k.at_body).listen_port ≡ p.0.0 =
      sym (fill_port _ _ _ _ k.got_body) ∙ ap (λ (z : ℕ × Bytes). z.0) k.packet in
    let pending : (s.reading_header == 0) ≡ false = ground arith in
    let (t, done, h) =
      body_step_lem (after_header stream) p.1.1 (peer s.connect r p.0.0 s.ep)
        (await_body (record s {
          reading_header = s.reading_header - 1;
          ref_count = decrement s.ref_count;
          read_msg = k.at_body;
          ep = peer s.connect r (k.at_body).listen_port s.ep;
          table = table;
        }))
        (omega arith) k.whole k.got_body (ap (λ (z : ℕ). peer s.connect r z s.ep) port) in
    (t, rw (pending, k.enough, headed, read_step) (done ∙ ap (λ (z : Bytes). ok (t, z)) k.left), h)

-- The body of a packet that was read.
pub packet_body :
    (stream : Bytes) (m : Message) (p : Received)
    → read_packet stream m ≡ some p
    → body p.1.1 ≡ p.0.1
packet_body stream m p e = ap (λ (z : ℕ × Bytes). z.1) (read_packet-IsPacket stream m p e).packet
