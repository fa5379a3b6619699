-- ===== src/Node/Acknowledged.antt =====
-- A record that one node stores at another, and the answer (Sources/miniDHT.cpp).
use mini_dht.Base.{
  ℕ, ◌<◌, ◌≤◌, false, [], ◌∷◌, ◌++◌, none, some, Bytes, str_eq, ltb, length, ◌≡◌, ◌≢◌, refl, ◌∙◌,
  ap, arith, count_by_none, ==_iff,
}
use mini_dht.Base.Maps.{
  find, erase, insert_or_assign, ltb-IsStrictOrder, find-insert_or_assign_self, find-erase_self,
}
use mini_dht.Contact.{
  TcpEndpoint, DataItemProto, ContactProto, MessageProto, send_store, reply_store,
  endpoint_to_proto,
}
use mini_dht.Bucket.{find_key, add_contact, to_time_t}
use mini_dht.Bucket.Lookup.{find_key-add_contact_self}
use mini_dht.Db.MultiKey.{MultiKeyDb, has_key, count, size, insert}
use mini_dht.Db.MultiKey
use mini_dht.Db.Consistent.{IsConsistent}
use mini_dht.Db.Oldest.{IsOrdering}
use mini_dht.Db.Rows.{find-insert}
use mini_dht.Session.Message.{Message, max_body_length, pack}
use mini_dht.Node.State.{Env, Node, ok}
use mini_dht.Node.Wire.{Protobuf, receive_packet, carried}
use mini_dht.Node.Send.{new_message, send_to, send_message, send_store_to, reply_store_to}
use mini_dht.Node.Store.{insert_db}
use mini_dht.Node.Handle.{
  handle_send_store, handle_reply_store, handle_message_as, handle_message, handle_message_from,
  is_request, handle_receive,
}
use mini_dht.Node.Eviction.{drop_oldest_ends, key_absent}

-- The messages of the exchange.
abbrev pub store_message : Bytes → Bytes → DataItemProto → ℕ → Node → MessageProto
store_message to_id query_id d t n = record (new_message send_store t n) {
  to_id = to_id;
  query_id = query_id;
  data_item = d;
}

abbrev pub store_answer : Bytes → DataItemProto → ℕ → Node → MessageProto
store_answer to_id d t n = record (new_message reply_store t n) {
  to_id = to_id;
  check_val = length d.blob;
}

module _ (env : Env) where
  -- A message to a contact that resolves.
  routed :
      (m : MessageProto) (n : Node) (c : ContactProto) (uep : TcpEndpoint)
      → str_eq m.to_id n.id ≡ false
      → find_key m.to_id n.contact_list ≡ some c
      → env.resolve c.ep ≡ some uep
      → send_message env m n
        ≡ some (record n { outbox = n.outbox ++ (endpoint_to_proto uep, m) ∷ [] })
  unfolding send_message send_to
  routed m n c uep other known resolved = rw (other, known, resolved, send_message, send_to) refl

  send_store_to_lem :
      (to_id query_id : Bytes) (d : DataItemProto) (t : ℕ) (n : Node) (c : ContactProto)
      (uep : TcpEndpoint)
      → str_eq to_id n.id ≡ false
      → find_key to_id n.contact_list ≡ some c
      → env.resolve c.ep ≡ some uep
      → send_store_to env to_id query_id d t n ≡ record n {
        map_store_check_val = insert_or_assign ltb t (length d.blob) n.map_store_check_val;
        outbox = n.outbox ++ (endpoint_to_proto uep, store_message to_id query_id d t n) ∷ [];
      }
  unfolding send_store_to new_message
  send_store_to_lem to_id query_id d t n c uep other known resolved =
      rw
        (routed (store_message to_id query_id d t n)
          (record n {
            map_store_check_val = insert_or_assign ltb t (length d.blob) n.map_store_check_val;
          })
          c uep other known resolved)
        refl

  -- A new key is found after it is stored.
  insert_db-find :
      IsOrdering env.first_row
      → (now : ℕ) (k : Bytes) (d : DataItemProto) (n : Node) → IsConsistent n.db_storage
      → 0 < n.max_records
      → count k n.db_storage ≡ 0
      → (db' : MultiKeyDb) × (insert_db env now k d n ≡ ok (record n { db_storage = db' }))
        × (MultiKey.find k db' ≡ d ∷ [])
  unfolding insert_db count
  insert_db-find order now k d n c pos absent =
      let (db', e, room, c', keeps) =
        drop_oldest_ends env order (size n.db_storage) n.max_records n.db_storage c pos
          (omega arith) in
      let gone = key_absent k db'.headers (
        keeps (λ h. has_key k h ≡ false) (count_by_none (has_key k) n.db_storage.headers absent)) in
      rw (absent, e)
        (
          insert k d.title d.time d.ttl d.blob db',
          refl,
          find-insert k d.title d.time d.ttl d.blob db' c' gone,
        )

  -- The node that gets the record.
  stored :
      IsOrdering env.first_row
      → (now : ℕ) (ep : TcpEndpoint) (to_id query_id : Bytes) (d : DataItemProto) (t : ℕ)
        (from n : Node) (uep : TcpEndpoint)
      → IsConsistent n.db_storage
      → 0 < n.max_records
      → count to_id n.db_storage ≡ 0
      → from.id ≢ n.contact_list.local_key
      → str_eq from.id n.id ≡ false
      → env.resolve (endpoint_to_proto ep) ≡ some uep
      → (n' : Node) × (handle_receive env now ep (store_message to_id query_id d t from) n ≡ ok n')
        × (MultiKey.find to_id n'.db_storage ≡ record d { time = to_time_t now } ∷ [])
        × (n'.outbox
            ≡ n.outbox
              ++ (
                endpoint_to_proto uep,
                store_answer from.id (record d { time = to_time_t now }) t n,
              )
                ∷ [])
  unfolding handle_receive handle_message_from handle_message handle_message_as is_request
      handle_send_store reply_store_to new_message
  stored order now ep to_id query_id d t from n uep c pos absent stranger other resolved =
      let di : DataItemProto = record d { time = to_time_t now } in
      let n1 : Node = record n {
        sender_endpoint = ep;
        contact_list = add_contact env.order now from.id (endpoint_to_proto ep) n.contact_list;
      } in
      let (db', e, held) = insert_db-find order now to_id di n1 c pos absent in
      let n2 : Node = record n1 { db_storage = db' } in
      let (entry, known, _, at, _) =
        find_key-add_contact_self env.order now from.id (endpoint_to_proto ep) n.contact_list
          stranger in
      (
        record n2 {
          outbox = n.outbox ++ (endpoint_to_proto uep, store_answer from.id di t n) ∷ [];
        },
        rw
            (
              e,
              routed (store_answer from.id di t n) n2 entry uep other known
                  (ap env.resolve at ∙ resolved),
            )
            refl,
        held,
        refl,
      )

  -- The node that gets the answer.
  acknowledged :
      (now : ℕ) (ep : TcpEndpoint) (m : MessageProto) (v : ℕ) (n : Node)
      → m.type ≡ reply_store
      → find ltb m.token n.map_store_check_val ≡ some v
      → m.check_val ≡ v
      → (n' : Node) × (handle_receive env now ep m n ≡ ok n')
        × (find ltb m.token n'.map_store_check_val ≡ none)
  unfolding handle_receive handle_message_from handle_message handle_message_as is_request
      handle_reply_store
  acknowledged now ep m v n answers waits same =
      let n' : Node = record n {
        sender_endpoint = ep;
        map_store_check_val = erase ltb m.token n.map_store_check_val;
      } in
      (
        n',
        rw (answers, waits, (==_iff m.check_val v).1 same, handle_reply_store) refl,
        find-erase_self ltb ltb-IsStrictOrder m.token n.map_store_check_val,
      )

-- A record that one node sends to another, which has a consistent store with room, no record under
-- the key and another id, where both find a way and protobuf reads the two messages back as they
-- were serialized, in no more bytes than fit a packet: the message that goes out makes a packet,
-- with which the other node puts the record into its store, with the time of its arrival; and the
-- answer that it sends makes a packet which, at any later time, passes the check of the size and
-- ends the wait for it.
pub store_acknowledged :
    (junk : ℕ → ℕ) (pb : Protobuf) (near far : Env) (now later port far_port : ℕ)
    (from_ep to_ep there back : TcpEndpoint) (to_id query_id : Bytes) (d : DataItemProto) (t : ℕ)
    (a b : Node) (c : ContactProto)
    → pb.parse (pb.serialize (store_message to_id query_id d t a))
      ≡ store_message to_id query_id d t a
    → pb.parse (pb.serialize (store_answer a.id d t b)) ≡ store_answer a.id d t b
    → port < 65536
    → far_port < 65536
    → length (pb.serialize (store_message to_id query_id d t a)) ≤ max_body_length
    → length (pb.serialize (store_answer a.id d t b)) ≤ max_body_length
    → IsOrdering far.first_row
    → IsConsistent b.db_storage
    → 0 < b.max_records
    → count to_id b.db_storage ≡ 0
    → str_eq to_id a.id ≡ false
    → find_key to_id a.contact_list ≡ some c
    → near.resolve c.ep ≡ some there
    → a.id ≢ b.contact_list.local_key
    → str_eq a.id b.id ≡ false
    → far.resolve (endpoint_to_proto from_ep) ≡ some back
    → (m : MessageProto) × (r : MessageProto) × (p : Message) × (q : Message) × (a' : Node)
      × (b' : Node) × ((send_store_to near to_id query_id d t a).outbox
          ≡ a.outbox ++ (endpoint_to_proto there, m) ∷ [])
      × (pack junk port (pb.serialize m) ≡ some p)
      × (receive_packet pb far now from_ep p b ≡ ok b')
      × (MultiKey.find to_id b'.db_storage ≡ record d { time = to_time_t now } ∷ [])
      × (b'.outbox ≡ b.outbox ++ (endpoint_to_proto back, r) ∷ [])
      × (pack junk far_port (pb.serialize r) ≡ some q)
      × (receive_packet pb near later to_ep q (send_store_to near to_id query_id d t a) ≡ ok a')
      × (find ltb t a'.map_store_check_val ≡ none)
unfolding new_message receive_packet
store_acknowledged junk pb near far now later port far_port from_ep to_ep there back to_id query_id
      d t a b c parses answer_parses small far_small fits answer_fits order consistent pos absent
      other known resolved stranger apart returns =
    let sent = send_store_to_lem near to_id query_id d t a c there other known resolved in
    let (b', taken, held, answers) =
      stored far order now from_ep to_id query_id d t a b back consistent pos absent stranger apart
        returns in
    let m = store_message to_id query_id d t a in
    let r = store_answer a.id (record d { time = to_time_t now }) t b in
    let (p, packs, reads) = carried junk pb port m parses small fits in
    let (q, answer_packs, answer_reads) =
      carried junk pb far_port r answer_parses far_small answer_fits in
    let a1 : Node = record a {
      map_store_check_val = insert_or_assign ltb t (length d.blob) a.map_store_check_val;
      outbox = a.outbox ++ (endpoint_to_proto there, m) ∷ [];
    } in
    let (a', ended, gone) =
      acknowledged near later to_ep r (length d.blob) a1 refl
        (find-insert_or_assign_self ltb ltb-IsStrictOrder t (length d.blob) a.map_store_check_val)
        refl in
    (
      m,
      r,
      p,
      q,
      a',
      b',
      ap (λ (n : Node). n.outbox) sent,
      packs,
      ap (λ (z : MessageProto). handle_receive far now from_ep z b) reads ∙ taken,
      held,
      answers,
      answer_packs,
      ap
            (λ (z : MessageProto).
              handle_receive near later to_ep z (send_store_to near to_id query_id d t a))
            answer_reads
          ∙ ap (handle_receive near later to_ep r) sent
          ∙ ended,
      gone,
    )
