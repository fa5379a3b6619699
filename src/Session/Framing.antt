-- ===== src/Session/Framing.antt =====
-- Packets in a stream of bytes (Sources/miniDHT_session.h): what the handlers of `async_read` get
-- out of it. The library fills the buffer that it is given before it calls a handler.
pub mod Packing
pub mod Stream
use mini_dht.Base.{
  ℕ, zero, suc, ◌+◌, Bool, true, false, List, [], ◌∷◌, ◌++◌, Option, none, some, Bytes, ltb,
  if◌then◌else◌, length, take,
}
use mini_dht.Base.Slices.{drop, put_at}
use mini_dht.Session.Message.{Message, header_length, packet_length, decode_header, body, pack}

-- `async_read` into the buffer of the message, at an offset.
unfoldable pub fill : ℕ → Bytes → Message → Option Message
unfolding put_at
fill offset bytes m = elim m.buffer [
  | none ↦ none
  | some b ↦ elim (put_at offset bytes b) [
    | none ↦ none
    | some b' ↦ some (record m { buffer = some b' })
  ]
]

-- A packet that has come in: the port and the body, with the rest of the stream and the message
-- that the next read uses; `none` if the stream is too short yet or the header is refused.
abbrev pub Received : Type 0
Received = (ℕ × Bytes) × (Bytes × Message)

unfoldable pub read_body : Bytes → Message → Option Received
unfolding fill body
read_body stream m =
    if ltb (length stream) m.body_length
    then none
    else (elim (fill header_length (take m.body_length stream) m) [
      | none ↦ none
      | some m' ↦ some ((m'.listen_port, body m'), (drop m.body_length stream, m'))
    ])

-- The first 16 bytes of the stream, and what comes behind them.
unfoldable pub header_of : Bytes → Bytes
header_of stream = take header_length stream

unfoldable pub after_header : Bytes → Bytes
after_header stream = drop header_length stream

unfoldable pub read_packet : Bytes → Message → Option Received
read_packet stream m =
    if ltb (length stream) header_length then none else (elim (fill 0 (header_of stream) m) [
      | none ↦ none
      | some m' ↦ elim (decode_header m') [
        | none ↦ none
        | some (good, m'') ↦ if good then read_body (after_header stream) m'' else none
      ]
    ])

-- The reads one after the other, `fuel` at most: the packets, and what is left of the stream.
unfoldable pub read_packets : ℕ → Bytes → Message → List (ℕ × Bytes) × Bytes
read_packets zero stream m = ([], stream)
read_packets (suc fuel) stream m = elim (read_packet stream m) [
  | none ↦ ([], stream)
  | some (packet, (rest, m')) ↦
      let (packets, left) = read_packets fuel rest m' in (packet ∷ packets, left)
]

-- `boost::asio::buffer(msg.data(), msg.length())`: what `async_write` sends.
unfoldable pub wire : Message → Bytes
unfolding packet_length
wire m = elim m.buffer [ none ↦ [] | some b ↦ take (packet_length m) b ]

-- The bytes of a run of packets.
unfoldable pub stream_of : (ℕ → ℕ) → List (ℕ × Bytes) → Bytes
stream_of junk [] = []
stream_of junk ((port, payload) ∷ ps) =
    let rest = stream_of junk ps in
    elim (pack junk port payload) [ none ↦ rest | some m ↦ wire m ++ rest ]
