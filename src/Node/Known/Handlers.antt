-- ===== src/Node/Known/Handlers.antt =====
-- The handlers of messages (Sources/miniDHT.cpp) make no contact but the sender.
use mini_dht.Base.{ℕ, Bytes, ltb, ◌==◌, Bool-cases, Option-cases, inl, inr}
use mini_dht.Base.Maps.{find}
use mini_dht.Contact.{
  EndpointProto, TcpEndpoint, DataItemProto, MessageType, MessageProto, none_type, send_ping,
  reply_ping, send_store, reply_store, send_find_node, reply_find_node, send_find_value,
  reply_find_value, endpoint_to_proto,
}
use mini_dht.Bucket.{Order, to_time_t, add_contact}
use mini_dht.Db.MultiKey.{MultiKeyDb, size}
use mini_dht.Db.MultiKey
use mini_dht.Node.State.{Env, Node, Result, ok, fault, ◌>>=◌}
use mini_dht.Node.Store.{drop_oldest, insert_db}
use mini_dht.Node.Iterate.{erase_search}
use mini_dht.Node.Handle.{
  handle_send_ping, handle_reply_ping, in_time, handle_send_store, handle_reply_store,
  handle_send_find_node, ping_contacts, handle_reply_find_node, handle_send_find_value,
  handle_reply_find_value, handle_message_as, handle_message, is_request, handle_message_from,
  handle_receive,
}
use mini_dht.Node.Keeps.{
  reply_ping_to-Keeps, reply_store_to-Keeps, reply_find_value_to-Keeps, reply_find_node_to-Keeps,
  ping_contacts-Keeps,
}
use mini_dht.Node.Send.{reply_store_to}
use mini_dht.Node.Known.{
  IsKnown, EndsKnown, IsKnown-Keeps, then_known, add_contact-Keyed, reply_iterative-EndsKnown,
}

module _ (P : Bytes → Type 0) (id : Bytes) where
  handle_reply_ping-EndsKnown :
      (order : Order) (now : ℕ) (m : MessageProto) (n : Node)
      → P m.from_id
      → IsKnown P id n
      → EndsKnown P id (handle_reply_ping order now m n)
  unfolding handle_reply_ping
  handle_reply_ping-EndsKnown order now m n p h =
      elim (Option-cases (find ltb m.token n.map_ping_ttl)) [
        | inl e ↦ rw (e, handle_reply_ping) h
        | inr (sent, e) ↦ elim (Bool-cases (in_time sent now)) [
          | inl young ↦
              rw (e, young, handle_reply_ping)
                (record {
                  contacts =
                      add_contact-Keyed P order now m.from_id (endpoint_to_proto n.sender_endpoint)
                        n.contact_list p h.contacts;
                  same_id = h.same_id;
                })
          | inr old ↦
              rw (e, old, handle_reply_ping) (record { contacts = h.contacts; same_id = h.same_id })
        ]
      ]

  handle_reply_find_value-EndsKnown :
      (m : MessageProto) (n : Node) → IsKnown P id n → EndsKnown P id (handle_reply_find_value m n)
  unfolding handle_reply_find_value erase_search
  handle_reply_find_value-EndsKnown m n h = elim (Option-cases (find ltb m.token n.map_search)) [
    | inl e ↦ rw (e, handle_reply_find_value) h
    | inr (s, e) ↦ elim (Option-cases s.value_callback) [
      | inl empty ↦ rw (e, empty, handle_reply_find_value) tt
      | inr (c, set) ↦
          rw (e, set, handle_reply_find_value)
            (record { contacts = h.contacts; same_id = h.same_id })
    ]
  ]

  module _ (env : Env) where
    stored-EndsKnown :
        (r : Result MultiKeyDb) (f : MultiKeyDb → MultiKeyDb) (n : Node)
        → IsKnown P id n
        → EndsKnown P id (r >>= λ db. ok (record n { db_storage = f db }))
    stored-EndsKnown (ok db) f n h = record { contacts = h.contacts; same_id = h.same_id }
    stored-EndsKnown (fault e) f n h = tt

    insert_db-EndsKnown :
        (now : ℕ) (k : Bytes) (d : DataItemProto) (n : Node)
        → IsKnown P id n
        → EndsKnown P id (insert_db env now k d n)
    unfolding insert_db
    insert_db-EndsKnown now k d n h = elim (Bool-cases (MultiKey.count k n.db_storage == 0)) [
      | inl absent ↦ rw absent (
          stored-EndsKnown (drop_oldest env (size n.db_storage) n.max_records n.db_storage)
            (λ db. MultiKey.insert k d.title d.time d.ttl d.blob db) n h)
      | inr present ↦ rw present (record { contacts = h.contacts; same_id = h.same_id })
    ]

    handle_send_store-EndsKnown :
        (now : ℕ) (m : MessageProto) (n : Node)
        → IsKnown P id n
        → EndsKnown P id (handle_send_store env now m n)
    unfolding handle_send_store
    handle_send_store-EndsKnown now m n h =
        let di : DataItemProto = record m.data_item { time = to_time_t now } in
        then_known P (insert_db env now m.to_id di n)
          (λ n'. ok (reply_store_to env m.from_id m.token di n'))
          (insert_db-EndsKnown now m.to_id di n h)
          (λ n' h'. IsKnown-Keeps P (reply_store_to-Keeps env m.from_id m.token di n') h')

    handle_reply_store-EndsKnown :
        (m : MessageProto) (n : Node) → IsKnown P id n → EndsKnown P id (handle_reply_store env m n)
    unfolding handle_reply_store
    handle_reply_store-EndsKnown m n h =
        elim (Option-cases (find ltb m.token n.map_store_check_val)) [
          | inl e ↦ rw (e, handle_reply_store) h
          | inr (v, e) ↦ elim (Bool-cases (m.check_val == v)) [
            | inl same ↦
                rw (e, same, handle_reply_store)
                  (record { contacts = h.contacts; same_id = h.same_id })
            | inr other ↦ elim (Option-cases env.local_endpoint) [
              | inl unopened ↦ rw (e, other, unopened, handle_reply_store) tt
              | inr (ep, opened) ↦
                  rw (e, other, opened, handle_reply_store)
                    (record { contacts = h.contacts; same_id = h.same_id })
            ]
          ]
        ]

    handle_reply_find_node-EndsKnown :
        (now : ℕ) (m : MessageProto) (n : Node)
        → IsKnown P id n
        → EndsKnown P id (handle_reply_find_node env now m n)
    unfolding handle_reply_find_node
    handle_reply_find_node-EndsKnown now m n h =
        elim (Option-cases (find ltb m.token n.map_search)) [
          | inl e ↦ rw (e, handle_reply_find_node) h
          | inr (s, e) ↦
              rw (e, handle_reply_find_node)
                (reply_iterative-EndsKnown P id env m.contact_list m.token m.to_id
                  (ping_contacts env now m.contact_list n)
                  (IsKnown-Keeps P (ping_contacts-Keeps env now m.contact_list n) h))
        ]

    handle_send_find_value-EndsKnown :
        (m : MessageProto) (n : Node)
        → IsKnown P id n
        → EndsKnown P id (handle_send_find_value env m n)
    unfolding handle_send_find_value
    handle_send_find_value-EndsKnown m n h =
        elim (Bool-cases (MultiKey.count m.to_id n.db_storage == 0)) [
          | inl missing ↦
              rw missing (IsKnown-Keeps P (reply_find_node_to-Keeps env m.from_id m.token n) h)
          | inr present ↦
              rw present
                (IsKnown-Keeps P (reply_find_value_to-Keeps env m.from_id m.token m.hint n) h)
        ]

    handle_message_as-EndsKnown :
        (ty : MessageType) (now : ℕ) (m : MessageProto) (n : Node)
        → P m.from_id
        → IsKnown P id n
        → EndsKnown P id (handle_message_as env ty now m n)
    unfolding handle_message_as handle_send_ping handle_send_find_node
    handle_message_as-EndsKnown none_type now m n p h = tt
    handle_message_as-EndsKnown send_ping now m n p h =
        IsKnown-Keeps P (reply_ping_to-Keeps env m.from_id m.token n) h
    handle_message_as-EndsKnown reply_ping now m n p h =
        handle_reply_ping-EndsKnown env.order now m n p h
    handle_message_as-EndsKnown send_store now m n p h = handle_send_store-EndsKnown now m n h
    handle_message_as-EndsKnown reply_store now m n p h = handle_reply_store-EndsKnown m n h
    handle_message_as-EndsKnown send_find_node now m n p h =
        IsKnown-Keeps P (reply_find_node_to-Keeps env m.from_id m.token n) h
    handle_message_as-EndsKnown reply_find_node now m n p h =
        handle_reply_find_node-EndsKnown now m n h
    handle_message_as-EndsKnown send_find_value now m n p h = handle_send_find_value-EndsKnown m n h
    handle_message_as-EndsKnown reply_find_value now m n p h =
        handle_reply_find_value-EndsKnown m n h

    handle_message_from-EndsKnown :
        (now : ℕ) (m : MessageProto) (epp : EndpointProto) (n : Node)
        → P m.from_id
        → IsKnown P id n
        → EndsKnown P id (handle_message_from env now m epp n)
    unfolding handle_message_from handle_message
    handle_message_from-EndsKnown now m epp n p h = elim (Bool-cases (is_request m.type)) [
      | inl asks ↦ rw asks (
          handle_message_as-EndsKnown m.type now m
            (record n { contact_list = add_contact env.order now m.from_id epp n.contact_list }) p
            (record {
              contacts =
                  add_contact-Keyed P env.order now m.from_id epp n.contact_list p h.contacts;
              same_id = h.same_id;
            }))
      | inr replies ↦ rw replies (handle_message_as-EndsKnown m.type now m n p h)
    ]

    pub handle_receive-EndsKnown :
        (now : ℕ) (ep : TcpEndpoint) (m : MessageProto) (n : Node)
        → P m.from_id
        → IsKnown P id n
        → EndsKnown P id (handle_receive env now ep m n)
    unfolding handle_receive
    handle_receive-EndsKnown now ep m n p h =
        handle_message_from-EndsKnown now m (endpoint_to_proto ep)
          (record n { sender_endpoint = ep }) p
          (record { contacts = h.contacts; same_id = h.same_id })
