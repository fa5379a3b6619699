-- ===== src/Session/State.antt =====
-- Sources/miniDHT_session.h: `session`. Each method holds `local_lock_` while it changes the state,
-- so each is one step. The asynchronous operations that were begun and have not called their
-- handlers are counted; `table` is the content of `map_ep_proto_session_`, which all sessions
-- share, with a session as the number `this`. What the library gives is an argument: whether there
-- was an error, the bytes read, and the remote end point, where `none` is an exception.
use mini_dht.Base.{
  ℕ, suc, ◌-◌, Bool, true, false, List, [], ◌∷◌, ◌++◌, Option, none, some, Bytes, Map, ◌==◌,
  if◌then◌else◌,
}
use mini_dht.Base.Int.{ℤ, pos, increment, decrement, is_not_positive}
use mini_dht.Base.Maps.{insert_or_assign, find, erase}
use mini_dht.Contact.{EndpointProto, TcpEndpoint, endpoint_lt, endpoint_to_proto}
use mini_dht.Session.Message.{Message, header_length, decode_header, empty_message}
use mini_dht.Session.Framing.{fill}
use mini_dht.Node.State.{Result, ok, fault, exception, undefined}

-- The last three fields are not in the source: what the callbacks were called with, and the
-- messages that were written.
pub record Session : Type 0 where
  pub this : ℕ
  pub connect : Bool
  pub ref_count : ℤ
  pub ep : TcpEndpoint
  pub read_msg : Message
  pub write_msgs : List Message
  pub table : Map EndpointProto ℕ
  pub deleted : Bool
  pub connecting : ℕ
  pub reading_header : ℕ
  pub reading_body : ℕ
  pub writing : ℕ
  pub got : List (TcpEndpoint × Message)
  pub disconnected : List TcpEndpoint
  pub written : List Message

-- The constructor.
unfoldable pub new_session : (ℕ → ℕ) → ℕ → Map EndpointProto ℕ → Session
new_session junk this table = record {
  this = this;
  connect = false;
  ref_count = pos 1;
  ep = record { address_text = []; port_number = 0 };
  read_msg = empty_message junk;
  write_msgs = [];
  table = table;
  deleted = false;
  connecting = 0;
  reading_header = 0;
  reading_body = 0;
  writing = 0;
  got = [];
  disconnected = [];
  written = [];
}

-- `ref_count_ += 1` with the `async_read` of a header, and with that of a body.
abbrev pub await_header : Session → Session
await_header s = record s {
  ref_count = increment s.ref_count;
  reading_header = suc s.reading_header;
}

abbrev pub await_body : Session → Session
await_body s = record s { ref_count = increment s.ref_count; reading_body = suc s.reading_body }

abbrev pub await_write : Session → Session
await_write s = record s { ref_count = increment s.ref_count; writing = suc s.writing }

-- `start`, by `connect_`: the end point of a session that was accepted is the remote one.
unfoldable pub start_as : Bool → Option TcpEndpoint → Session → Result Session
start_as true remote s = ok (await_header s)
start_as false none s = fault exception
start_as false (some ep) s = ok (await_header (record s { ep = ep }))

unfoldable pub start : Option TcpEndpoint → Session → Result Session
unfolding start_as
start remote s = start_as s.connect remote s

unfoldable pub connect_to : TcpEndpoint → Session → Session
connect_to ep s = record s {
  connect = true;
  ep = ep;
  ref_count = increment s.ref_count;
  connecting = suc s.connecting;
}

unfoldable pub is_idle : List Message → Bool
is_idle [] = true
is_idle (m ∷ ms) = false

unfoldable pub deliver : Message → Session → Session
unfolding is_idle
deliver m s =
    let s' = record s { write_msgs = s.write_msgs ++ m ∷ [] } in
    if is_idle s.write_msgs then await_write s' else s'

-- `release`: the entry of the table goes by the end point, whoever it stands for.
unfoldable pub release : Session → Session
release s =
    let s' = record s { ref_count = decrement s.ref_count } in
    if is_not_positive s'.ref_count
    then record s' { table = erase endpoint_lt (endpoint_to_proto s.ep) s.table; deleted = true }
    else s'

unfoldable pub handle_connect : Bool → Option TcpEndpoint → Session → Result Session
unfolding start release
handle_connect error remote s =
    let s' = record s { connecting = s.connecting - 1; ref_count = decrement s.ref_count } in
    if error then ok (release s') else start remote s'

-- The entry of this session in the table.
unfoldable pub register : Session → Session
register s =
    let epp = endpoint_to_proto s.ep in
    elim (find endpoint_lt epp s.table) [
      | none ↦ record s { table = insert_or_assign endpoint_lt epp s.this s.table }
      | some other ↦ if other == s.this then s else record s {
        table = insert_or_assign endpoint_lt epp s.this (erase endpoint_lt epp s.table);
      }
    ]

-- The handler of the exceptions of `handle_read_header`.
unfoldable pub refuse : Session → Session
unfolding release
refuse s = release (record s { disconnected = s.disconnected ++ s.ep ∷ [] })

-- A header that was decoded, by `connect_`: the end point of a session that was accepted is the
-- remote address with the port of the header.
unfoldable pub accept_as : Bool → Option TcpEndpoint → Session → Session
unfolding register refuse
accept_as true remote s = await_body (register s)
accept_as false none s = refuse s
accept_as false (some r) s = await_body (
    register (record s {
      ep = record { address_text = r.address_text; port_number = s.read_msg.listen_port };
    }))

unfoldable pub accept_header : Option TcpEndpoint → Session → Session
unfolding accept_as
accept_header remote s = accept_as s.connect remote s

unfoldable pub handle_read_header : Bool → Bytes → Option TcpEndpoint → Session → Result Session
unfolding refuse accept_header
handle_read_header error bytes remote s =
    let s' = record s {
      reading_header = s.reading_header - 1;
      ref_count = decrement s.ref_count;
    } in
    if error then ok (refuse s') else (elim (fill 0 bytes s.read_msg) [
      | none ↦ fault undefined
      | some m ↦ elim (decode_header m) [
        | none ↦ fault undefined
        | some (good, m') ↦
            if good
            then ok (accept_header remote (record s' { read_msg = m' }))
            else ok (refuse (record s' { read_msg = m' }))
      ]
    ])

-- `throws` tells whether `got_message_callback_` throws: the exception then leaves the handler, and
-- no further read is begun.
unfoldable pub handle_read_body : Bool → Bool → Bytes → Session → Result Session
unfolding release
handle_read_body error throws bytes s =
    let s' = record s { reading_body = s.reading_body - 1; ref_count = decrement s.ref_count } in
    if error then ok (release s') else (elim (fill header_length bytes s.read_msg) [
      | none ↦ fault undefined
      | some m ↦
          if throws
          then fault exception
          else ok (await_header (record s' { read_msg = m; got = s.got ++ (s.ep, m) ∷ [] }))
    ])

-- What `handle_write` does after a write, with the messages behind the one written.
unfoldable pub write_next : List Message → Session → Session
write_next [] s = s
write_next (m ∷ ms) s = await_write s

unfoldable pub handle_write : Bool → Session → Result Session
unfolding release write_next
handle_write error s =
    let s' = record s { writing = s.writing - 1; ref_count = decrement s.ref_count } in
    if error then ok (release s') else (elim s.write_msgs [
      | [] ↦ fault undefined
      | m ∷ ms ↦ ok (write_next ms (record s' { write_msgs = ms; written = s.written ++ m ∷ [] }))
    ])
