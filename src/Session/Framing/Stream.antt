-- ===== src/Session/Framing/Stream.antt =====
-- A stream of packets (Sources/miniDHT_session.h) is taken apart as it was put together.
use mathlib.Core.List.{append_assoc, append-nil}
use mini_dht.Base.{
  ℕ, ◌+◌, ◌-◌, ◌≤◌, ◌<◌, true, false, List, [], ◌∷◌, ◌++◌, Option, some, Bytes, ltb, length, take,
  length-append, All, ◌≡◌, refl, sym, ◌∙◌, ap, arith,
}
use mini_dht.Base.Slices.{drop, take-append, drop-append}
use mini_dht.Session.Message.{
  Message, header_length, max_body_length, packet_size, packet_length, decode_header, body,
}
use mini_dht.Session.Header.{IsField, decode_header-fields}
use mini_dht.Session.Framing.{
  fill, header_of, after_header, read_body, read_packet, read_packets, wire, stream_of,
}
use mini_dht.Session.Framing.Packing.{put_at-over, split_at, packed}

-- A message with a buffer of full size, as a session reads into.
pub record IsReader (m : Message) : Type 0 where
  pub held : Bytes
  pub buffered : m.buffer ≡ some held
  pub sized : length held ≡ packet_size

fill_whole :
    (b : Bytes) (n k i : ℕ) (pre mid post xs : Bytes)
    → b ≡ pre ++ (mid ++ post)
    → length pre ≡ i
    → length xs ≡ length mid
    → fill i xs (record { buffer = some b; body_length = n; listen_port = k })
      ≡ some (record { buffer = some (pre ++ (xs ++ post)); body_length = n; listen_port = k })
unfolding fill
fill_whole b n k i pre mid post xs e at same =
    rw (e, put_at-over i pre mid post xs at same, fill) refl

-- The body of a packet, behind a header that was read.
read_body_lem :
    (h tl payload rest : Bytes) (port : ℕ)
    → length h ≡ header_length
    → length payload ≤ length tl
    → (m' : Message) × (read_body
          (payload ++ rest)
          (record { buffer = some (h ++ tl); body_length = length payload; listen_port = port })
        ≡ some ((port, payload), (rest, m')))
      × (m'' : Bytes) × (m'.buffer ≡ some m'')
      × (length m'' ≡ length (h ++ tl))
unfolding read_body body
read_body_lem h tl payload rest port wide fits =
    let n = length payload in
    let (mid, post, e, l) = split_at n tl fits in
    let full : Bytes = h ++ (payload ++ post) in
    let filled : fill header_length payload
          (record { buffer = some (h ++ tl); body_length = n; listen_port = port })
        ≡ some (record { buffer = some full; body_length = n; listen_port = port }) =
      fill_whole (h ++ tl) n port header_length h mid post payload (ap (λ (z : Bytes). h ++ z) e)
        wide (sym l) in
    let enough : ltb (length (payload ++ rest)) n ≡ false =
      ground (arith, length-append payload rest) in
    let got : take n (drop header_length full) ≡ payload =
      rw (drop-append header_length h (payload ++ post) wide) (take-append n payload post refl) in
    (
      record { buffer = some full; body_length = n; listen_port = port },
      rw
          (
            enough,
            take-append n payload rest refl,
            filled,
            drop-append n payload rest refl,
            got,
            read_body,
            body,
          )
          refl,
      full,
      refl,
      omega (
        arith,
        length-append h (payload ++ post),
        length-append payload post,
        length-append h tl,
        ap length e,
        length-append mid post,
        l,
      ),
    )

-- The steps of a read whose header is accepted.
read_packet_steps :
    (h tail : Bytes) (m m1 m2 : Message)
    → length h ≡ header_length
    → fill 0 h m ≡ some m1
    → decode_header m1 ≡ some (true, m2)
    → read_packet (h ++ tail) m ≡ read_body tail m2
unfolding read_packet
read_packet_steps h tail m m1 m2 wide filled decoded =
    let enough : ltb (length (h ++ tail)) header_length ≡ false =
      ground (arith, length-append h tail) in
    let first : header_of (h ++ tail) ≡ h =
      unfold header_of in take-append header_length h tail wide in
    let second : after_header (h ++ tail) ≡ tail =
      unfold after_header in drop-append header_length h tail wide in
    rw (enough, first, filled, decoded, second, read_packet) refl

read_packet_lem :
    (p q payload rest : Bytes) (port : ℕ) (m : Message)
    → IsField (length payload) p
    → IsField port q
    → length payload ≤ max_body_length
    → port < 65536
    → IsReader m
    → (m' : Message) × (read_packet ((p ++ q) ++ (payload ++ rest)) m
        ≡ some ((port, payload), (rest, m')))
      × IsReader m'
unfolding read_packet
read_packet_lem p q payload rest port m fp fq fits small r =
    let n = length payload in
    let h : Bytes = p ++ q in
    let wide : length h ≡ header_length = omega (arith, length-append p q, fp.wide, fq.wide) in
    let (old, tl, e, l) = split_at header_length r.held (omega (arith, r.sized)) in
    let tail : length tl ≡ packet_size - header_length =
      omega (arith, r.sized, ap length e, length-append old tl, l) in
    let (m', got, b', eb, lb) =
      read_body_lem h tl payload rest port wide (omega (arith, tail, fits)) in
    let filled : fill 0 h m
        ≡ some (record {
          buffer = some (h ++ tl);
          body_length = m.body_length;
          listen_port = m.listen_port;
        }) =
      ap
        (λ (z : Option Bytes).
          fill 0 h
            (record { buffer = z; body_length = m.body_length; listen_port = m.listen_port }))
        r.buffered
      ∙ fill_whole r.held m.body_length m.listen_port 0 [] old tl h e refl (wide ∙ sym l) in
    let decoded : decode_header (record {
      buffer = some (h ++ tl);
      body_length = m.body_length;
      listen_port = m.listen_port;
    })
        ≡ some (true, record { buffer = some (h ++ tl); body_length = n; listen_port = port }) =
      decode_header-fields n port p q tl
        (record {
          buffer = some (h ++ tl);
          body_length = m.body_length;
          listen_port = m.listen_port;
        })
        fp fq fits small (ap (λ (z : Bytes). some z) (append_assoc p q tl)) in
    (
      m',
      read_packet_steps h (payload ++ rest) m _ _ wide filled decoded ∙ got,
      record {
        held = b';
        buffered = eb;
        sized = omega (arith, lb, length-append h tl, wide, tail);
      },
    )

-- What `async_write` sends of a packet is the whole of its buffer.
wire-packed :
    (p q payload : Bytes) (port : ℕ)
    → length p ≡ 8
    → length q ≡ 8
    → wire (record {
      buffer = some (p ++ (q ++ payload));
      body_length = length payload;
      listen_port = port;
    })
      ≡ (p ++ q) ++ payload
unfolding wire packet_length
wire-packed p q payload port lp lq =
    ap (take (header_length + length payload)) (sym (append_assoc p q payload) ∙ sym (append-nil _))
    ∙ take-append (header_length + length payload) ((p ++ q) ++ payload) []
        (omega (arith, length-append (p ++ q) payload, length-append p q, lp, lq))

-- A port of 16 bits with a payload that fits a packet.
abbrev pub Fits : ℕ × Bytes → Type 0
Fits (port, payload) = (port < 65536) × (length payload ≤ max_body_length)

-- The first packet of a stream.
pub read_packet-stream_of :
    (junk : ℕ → ℕ) (port : ℕ) (payload : Bytes) (ps : List (ℕ × Bytes)) (rest : Bytes) (m : Message)
    → Fits (port, payload)
    → IsReader m
    → (m' : Message) × (read_packet (stream_of junk ((port, payload) ∷ ps) ++ rest) m
        ≡ some ((port, payload), (stream_of junk ps ++ rest, m')))
      × IsReader m'
unfolding stream_of
read_packet-stream_of junk port payload ps rest m fits r =
    let (p, q, fp, fq, e) = packed junk port payload fits.0 fits.1 in
    let more = stream_of junk ps ++ rest in
    let (m', got, r') = read_packet_lem p q payload more port m fp fq fits.1 fits.0 r in
    let first : stream_of junk ((port, payload) ∷ ps) ≡ ((p ++ q) ++ payload) ++ stream_of junk ps =
      rw (e, wire-packed p q payload port fp.wide fq.wide, stream_of) refl in
    let whole : stream_of junk ((port, payload) ∷ ps) ++ rest ≡ (p ++ q) ++ (payload ++ more) =
      simp (first, append_assoc) in
    (m', ap (λ (z : Bytes). read_packet z m) whole ∙ got, r')

pub read_packets-stream_of :
    (junk : ℕ → ℕ) (ps : List (ℕ × Bytes)) (rest : Bytes) (m : Message)
    → All Fits ps
    → IsReader m
    → read_packets (length ps) (stream_of junk ps ++ rest) m ≡ (ps, rest)
unfolding read_packets
read_packets-stream_of junk [] rest m fits r = unfold stream_of in refl
read_packets-stream_of junk ((port, payload) ∷ ps) rest m fits r =
    let (m', got, r') = read_packet-stream_of junk port payload ps rest m fits.0 r in
    rw (got, read_packets-stream_of junk ps rest m' fits.1 r', read_packets) refl
