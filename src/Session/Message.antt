-- ===== src/Session/Message.antt =====
-- Sources/miniDHT_session.h: `basic_message`, a header of 16 characters and a body in one buffer.
-- `PACKET_SIZE` is the constant of Sources/miniDHT_const.h, which every use of the template names.
-- A copy of a buffer that is too short, a write past its end and a read through NULL are `none`.
use mini_dht.Base.{
  ℕ, zero, suc, ◌+◌, ◌-◌, ◌*◌, Bool, true, false, ◌&&◌, [], ◌∷◌, ◌++◌, Option, none, some, Bytes,
  ltb, leb, ◌==◌, if◌then◌else◌, length, take,
}
use mini_dht.Base.Slices.{drop, put_at}
use mini_dht.Base.Int.{ℤ, pos, negate, to_unsigned}
use mini_dht.Key.Digest.{is_space}
use mini_dht.Contact.{decimal}

abbrev pub packet_size : ℕ
packet_size = 1048576

abbrev pub header_length : ℕ
header_length = 16

abbrev pub max_body_length : ℕ
max_body_length = packet_size - header_length

-- `data_`, where `none` is NULL, `body_length_` and `listen_port_`.
pub record Message : Type 0 where
  pub buffer : Option Bytes
  pub body_length : ℕ
  pub listen_port : ℕ

-- `length()`: the size of the packet.
unfoldable pub packet_length : Message → ℕ
packet_length m = header_length + m.body_length

-- `data()`: `none` stands for the exception "empty data".
unfoldable pub data_of : Message → Option Bytes
data_of m = m.buffer

unfoldable pub set_listen_port : ℕ → Message → Message
set_listen_port port m = record m { listen_port = port }

-- `std::sprintf(part, "%8d", n)` into nine characters.
unfoldable pub spaces : ℕ → Bytes
spaces zero = []
spaces (suc n) = 32 ∷ spaces n

unfoldable pub padded : ℕ → Option Bytes
unfolding spaces
padded n =
    if ltb 8 (length (decimal n)) then none else some (spaces (8 - length (decimal n)) ++ decimal n)

-- `std::strncat(part, data, n)`: the text up to a NUL, at most `n` characters.
unfoldable pub text_of : ℕ → Bytes → Bytes
text_of zero b = []
text_of (suc n) [] = []
text_of (suc n) (c ∷ b) = if c == 0 then [] else c ∷ text_of n b

-- `std::atoi`
unfoldable pub digits_value : ℕ → Bytes → ℕ
digits_value n [] = n
digits_value n (c ∷ s) =
    if leb b'0' c && leb c b'9' then digits_value (n * 10 + (c - b'0')) s else n

unfoldable pub signed_value : Bytes → ℤ
unfolding digits_value
signed_value [] = pos 0
signed_value (c ∷ s) =
    if c == b'-'
    then negate (digits_value 0 s)
    else if c == b'+'
    then pos (digits_value 0 s)
    else pos (digits_value 0 (c ∷ s))

unfoldable pub atoi : Bytes → ℤ
unfolding signed_value
atoi [] = pos 0
atoi (c ∷ s) = let rest = atoi s in if is_space c then rest else signed_value (c ∷ s)

-- `decode_header`
unfoldable pub decode_header : Message → Option (Bool × Message)
unfolding text_of atoi to_unsigned
decode_header m = elim m.buffer [
  | none ↦ none
  | some b ↦
      let size = to_unsigned 64 (atoi (text_of 8 b)) in
      let port = to_unsigned 16 (atoi (text_of 8 (drop 8 b))) in
      if ltb (length b) header_length
      then none
      else if ltb max_body_length size
      then some (false, record m { body_length = 0; listen_port = port })
      else some (true, record m { body_length = size; listen_port = port })
]

-- The two writes of `encode_header`, of the text of the size and the text of the port.
unfoldable pub write_header : Option Bytes → Option Bytes → Bytes → Option Bytes
unfolding put_at
write_header none q b = none
write_header (some p) none b = none
write_header (some p) (some q) b = elim (put_at 0 p b) [ none ↦ none | some b' ↦ put_at 8 q b' ]

-- `encode_header`
unfoldable pub encode_header : Message → Option Message
unfolding padded write_header
encode_header m = elim m.buffer [
  | none ↦ none
  | some b ↦ elim (write_header (padded m.body_length) (padded m.listen_port) b) [
    | none ↦ none
    | some b' ↦ some (record m { buffer = some b' })
  ]
]

-- `std::memcpy(msg.body(), p, n)`
unfoldable pub write_body : Bytes → Message → Option Message
unfolding put_at
write_body payload m = elim m.buffer [
  | none ↦ none
  | some b ↦ elim (put_at header_length payload b) [
    | none ↦ none
    | some b' ↦ some (record m { buffer = some b' })
  ]
]

-- `std::string(msg.body(), msg.body_length())`
unfoldable pub body : Message → Bytes
body m = elim m.buffer [ none ↦ [] | some b ↦ take m.body_length (drop header_length b) ]

-- `junk i` is what the memory that `new` gives out holds.
module _ (junk : ℕ → ℕ) where
  unfoldable pub fresh : ℕ → ℕ → Bytes
  fresh zero i = []
  fresh (suc n) i = junk i ∷ fresh n (suc i)

  -- The setter `body_length`: a size that is too large is cut, and the buffer is a new one.
  unfoldable pub set_body_length : ℕ → Message → Message
  set_body_length n m =
      let size = if ltb max_body_length n then max_body_length else n in
      record m { buffer = some (fresh (header_length + size) 0); body_length = size }

  -- The constructors.
  unfoldable pub empty_message : Message
  empty_message = record { buffer = some (fresh packet_size 0); body_length = 0; listen_port = 0 }

  unfoldable pub sized_message : ℕ → Message
  unfolding set_body_length
  sized_message n = set_body_length n (record { buffer = none; body_length = 0; listen_port = 0 })

  -- `operator=`, to a message and from one.
  unfoldable pub assign : Message → Message → Option Message
  unfolding set_body_length put_at
  assign target m =
      let c = record (set_body_length m.body_length target) { listen_port = m.listen_port } in
      elim m.buffer [
        | none ↦ none
        | some b ↦
            if ltb (length b) (packet_length c)
            then none
            else some (record c { buffer = some (take (packet_length c) b) })
      ]

  -- The constructor that copies.
  unfoldable pub copy_message : Message → Option Message
  unfolding assign
  copy_message m = assign (record { buffer = none; body_length = 0; listen_port = 0 }) m

  -- How `send_MESSAGE` makes a packet of the text of a message.
  unfoldable pub pack : ℕ → Bytes → Option Message
  pack port payload = elim (write_body payload (sized_message (length payload))) [
    | none ↦ none
    | some m ↦ encode_header (record m { listen_port = port })
  ]
