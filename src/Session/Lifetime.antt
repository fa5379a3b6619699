-- ===== src/Session/Lifetime.antt =====
-- A session (Sources/miniDHT_session.h) is not deleted before its last operation has ended.
use mini_dht.Base.{
  ℕ, suc, ◌+◌, ◌-◌, ◌≤◌, Bool, true, false, List, [], ◌∷◌, ◌++◌, Option, none, some, Map, ◌≡◌, refl,
  ◌∙◌, ap, arith, inl, inr, Bool-cases, Option-cases, ◌==◌,
}
use mini_dht.Base.Int.{pos, increment, decrement}
use mini_dht.Base.Maps.{find, insert_or_assign, erase}
use mini_dht.Contact.{EndpointProto, TcpEndpoint, endpoint_lt, endpoint_to_proto}
use mini_dht.Session.Message.{Message, header_length, packet_size}
use mini_dht.Session.Framing.Stream.{IsReader}
use mini_dht.Session.State.{
  Session, await_header, await_body, release, refuse, register, accept_as, accept_header,
}
use mini_dht.Session.Steps.{IsLive, IsSafe}
use mini_dht.Session.Release.{release-IsSafe, decrement_pos}

-- A session whose read or connection has just ended, before it begins the next one or gives up.
pub record IsBetween (s : Session) : Type 0 where
  pub kept : s.deleted ≡ false
  pub writer_failed : ℕ
  pub references : ℕ
  pub counted : s.ref_count ≡ pos references
  pub balance : references + writer_failed ≡ 1 + s.writing
  pub no_connect : s.connecting ≡ 0
  pub no_header : s.reading_header ≡ 0
  pub no_body : s.reading_body ≡ 0
  pub one_writer : s.writing + writer_failed ≤ 1
  pub idle : s.write_msgs ≡ [] → s.writing + writer_failed ≡ 0
  pub busy :
      (m : Message) (ms : List Message) → s.write_msgs ≡ m ∷ ms → s.writing + writer_failed ≡ 1
  pub reader : IsReader s.read_msg

-- The reader's operation has ended: with it goes its reference.
pub ended-IsBetween :
    (c h b : ℕ) (s : Session)
    → c + h + b + 1 ≡ s.connecting + s.reading_header + s.reading_body
    → IsLive s
    → IsBetween (record s {
      connecting = c;
      reading_header = h;
      reading_body = b;
      ref_count = decrement s.ref_count;
    })
ended-IsBetween c h b s one l = record {
  kept = l.kept;
  writer_failed = l.writer_failed;
  references = l.references - 1;
  counted = decrement_pos s.ref_count (l.references - 1) (l.counted ∙ ap pos (omega (arith, one)));
  balance = omega (arith, one);
  no_connect = omega (arith, one);
  no_header = omega (arith, one);
  no_body = omega (arith, one);
  one_writer = l.one_writer;
  idle = l.idle;
  busy = l.busy;
  reader = l.reader;
}

pub await_header-IsLive : (s : Session) → IsBetween s → IsLive (await_header s)
await_header-IsLive s t = record {
  kept = t.kept;
  reader_failed = 0;
  writer_failed = t.writer_failed;
  references = suc t.references;
  counted = ap increment t.counted;
  balance = omega arith;
  one_reader = omega arith;
  one_writer = t.one_writer;
  one_failure = omega arith;
  idle = t.idle;
  busy = t.busy;
  reader = t.reader;
  room = λ p. absurd (omega arith);
}

pub await_body-IsLive :
    (s : Session)
    → IsBetween s
    → header_length + s.read_msg.body_length ≤ packet_size
    → IsLive (await_body s)
await_body-IsLive s t room = record {
  kept = t.kept;
  reader_failed = 0;
  writer_failed = t.writer_failed;
  references = suc t.references;
  counted = ap increment t.counted;
  balance = omega arith;
  one_reader = omega arith;
  one_writer = t.one_writer;
  one_failure = omega arith;
  idle = t.idle;
  busy = t.busy;
  reader = t.reader;
  room = λ p. room;
}

-- The reader gives up.
pub release_reader-IsSafe : (s : Session) → IsBetween s → IsSafe (release s)
release_reader-IsSafe s t = release-IsSafe s (record {
  kept = t.kept;
  reader_failed = 1;
  writer_failed = t.writer_failed;
  references = t.references;
  counted = t.counted;
  balance = omega arith;
  one_reader = omega arith;
  one_writer = t.one_writer;
  idle = t.idle;
  busy = t.busy;
  reader = t.reader;
  room = λ p. absurd (omega arith);
})

-- The end point, the table, what was read and the callbacks are not part of it.
pub updated-IsBetween :
    (ep : TcpEndpoint) (m : Message) (table : Map EndpointProto ℕ)
    (got : List (TcpEndpoint × Message)) (disconnected : List TcpEndpoint) (s : Session)
    → IsReader m
    → IsBetween s
    → IsBetween
        (record s { ep = ep; read_msg = m; table = table; got = got; disconnected = disconnected })
updated-IsBetween ep m table got disconnected s r t = record {
  kept = t.kept;
  writer_failed = t.writer_failed;
  references = t.references;
  counted = t.counted;
  balance = t.balance;
  no_connect = t.no_connect;
  no_header = t.no_header;
  no_body = t.no_body;
  one_writer = t.one_writer;
  idle = t.idle;
  busy = t.busy;
  reader = r;
}

pub refuse-IsSafe : (s : Session) → IsBetween s → IsSafe (refuse s)
unfolding refuse
refuse-IsSafe s t =
    release_reader-IsSafe (record s { disconnected = s.disconnected ++ s.ep ∷ [] })
      (updated-IsBetween s.ep s.read_msg s.table s.got (s.disconnected ++ s.ep ∷ []) s t.reader t)

-- The table is all that `register` changes.
pub register_table :
    (s : Session) → (table : Map EndpointProto ℕ) × (register s ≡ record s { table = table })
unfolding register
register_table s = elim (Option-cases (find endpoint_lt (endpoint_to_proto s.ep) s.table)) [
  | inl missing ↦ (
    insert_or_assign endpoint_lt (endpoint_to_proto s.ep) s.this s.table,
    rw (missing, register) refl,
  )
  | inr (other, found) ↦ elim (Bool-cases (other == s.this)) [
    | inl self ↦ (s.table, rw (found, self, register) refl)
    | inr another ↦ (
      insert_or_assign endpoint_lt (endpoint_to_proto s.ep) s.this
          (erase endpoint_lt (endpoint_to_proto s.ep) s.table),
      rw (found, another, register) refl,
    )
  ]
]

registered-IsLive :
    (s : Session)
    → IsBetween s
    → header_length + s.read_msg.body_length ≤ packet_size
    → IsLive (await_body (register s))
registered-IsLive s t room =
    let (table, e) = register_table s in
    rw e (
      await_body-IsLive (record s { table = table })
        (updated-IsBetween s.ep s.read_msg table s.got s.disconnected s t.reader t) room)

accept_as-IsSafe :
    (outgoing : Bool) (remote : Option TcpEndpoint) (s : Session)
    → IsBetween s
    → header_length + s.read_msg.body_length ≤ packet_size
    → IsSafe (accept_as outgoing remote s)
unfolding accept_as
accept_as-IsSafe true remote s t room = inr (registered-IsLive s t room)
accept_as-IsSafe false none s t room = refuse-IsSafe s t
accept_as-IsSafe false (some r) s t room =
    let ep : TcpEndpoint = record {
      address_text = r.address_text;
      port_number = s.read_msg.listen_port;
    } in
    inr (
      registered-IsLive (record s { ep = ep })
        (updated-IsBetween ep s.read_msg s.table s.got s.disconnected s t.reader t) room)

pub accept_header-IsSafe :
    (remote : Option TcpEndpoint) (s : Session)
    → IsBetween s
    → header_length + s.read_msg.body_length ≤ packet_size
    → IsSafe (accept_header remote s)
unfolding accept_header
accept_header-IsSafe remote s t room = accept_as-IsSafe s.connect remote s t room
