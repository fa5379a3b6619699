-- ===== src/Node/Sound/Message.antt =====
-- The handlers of messages (Sources/miniDHT.cpp) on a sound node.
use mini_dht.Base.{ℕ, [], ◌∷◌, ◌++◌, ltb, ◌==◌, Bool-cases, Option-cases, inl, inr}
use mini_dht.Base.Maps.{find, erase}
use mini_dht.Contact.{
  EndpointProto, TcpEndpoint, MessageType, MessageProto, none_type, send_ping, reply_ping,
  send_store, reply_store, send_find_node, reply_find_node, send_find_value, reply_find_value,
  endpoint_to_proto,
}
use mini_dht.Bucket.{Order, to_time_t}
use mini_dht.Db.MultiKey.{count}
use mini_dht.Db.Oldest.{IsOrdering}
use mini_dht.Node.State.{Env, Node, value_call}
use mini_dht.Node.Handle.{
  handle_send_ping, handle_reply_ping, in_time, handle_send_store, handle_reply_store,
  handle_send_find_node, ping_contacts, handle_reply_find_node, handle_send_find_value,
  handle_reply_find_value, handle_message_as, handle_message, is_request, handle_message_from,
  handle_receive,
}
use mini_dht.Node.Eviction.{insert_db-IsConsistent}
use mini_dht.Node.Keeps.{
  reply_ping_to-Keeps, reply_store_to-Keeps, reply_find_value_to-Keeps, reply_find_node_to-Keeps,
  ping_contacts-Keeps,
}
use mini_dht.Node.Sound.{
  IsSound, EndsSound, IsSound-Keeps, with_other, with_contact, erase_search-IsSound,
  reply_iterative-EndsSound,
}

handle_reply_ping-EndsSound :
    (order : Order) (now : ℕ) (m : MessageProto) (n : Node)
    → IsSound n
    → EndsSound (handle_reply_ping order now m n)
unfolding handle_reply_ping
handle_reply_ping-EndsSound order now m n h =
    elim (Option-cases (find ltb m.token n.map_ping_ttl)) [
      | inl e ↦ rw (e, handle_reply_ping) h
      | inr (sent, e) ↦ elim (Bool-cases (in_time sent now)) [
        | inl young ↦
            rw (e, young, handle_reply_ping)
              (with_contact order now m.from_id (endpoint_to_proto n.sender_endpoint)
                (record n { map_ping_ttl = erase ltb m.token n.map_ping_ttl })
                (with_other n.map_search (erase ltb m.token n.map_ping_ttl) n.map_store_check_val
                  n.calls n.sender_endpoint n h))
        | inr old ↦
            rw (e, old, handle_reply_ping)
              (with_other n.map_search (erase ltb m.token n.map_ping_ttl) n.map_store_check_val
                n.calls n.sender_endpoint n h)
      ]
    ]

handle_reply_find_value-EndsSound :
    (m : MessageProto) (n : Node) → IsSound n → EndsSound (handle_reply_find_value m n)
unfolding handle_reply_find_value
handle_reply_find_value-EndsSound m n h = elim (Option-cases (find ltb m.token n.map_search)) [
  | inl e ↦ rw (e, handle_reply_find_value) h
  | inr (s, e) ↦ elim (Option-cases s.value_callback) [
    | inl empty ↦ rw (e, empty, handle_reply_find_value) tt
    | inr (c, set) ↦
        rw (e, set, handle_reply_find_value)
          (erase_search-IsSound m.token _ (
            with_other n.map_search n.map_ping_ttl n.map_store_check_val
              (n.calls ++ value_call c m.data_item_list ∷ []) n.sender_endpoint n h))
  ]
]

module _ (env : Env) where
  handle_send_store-EndsSound :
      IsOrdering env.first_row
      → (now : ℕ) (m : MessageProto) (n : Node) → IsSound n
      → EndsSound (handle_send_store env now m n)
  unfolding handle_send_store
  handle_send_store-EndsSound order now m n h =
      let di = record m.data_item { time = to_time_t now } in
      let (db', e, c, _) = insert_db-IsConsistent env order now m.to_id di n h.store h.room in
      rw e (
        IsSound-Keeps
          (reply_store_to-Keeps env m.from_id m.token di (record n { db_storage = db' }))
          (record {
            contacts = h.contacts;
            own_key = h.own_key;
            store = c;
            room = h.room;
            signed = h.signed;
          }))

  handle_reply_store-EndsSound :
      (m : MessageProto) (n : Node) → IsSound n → EndsSound (handle_reply_store env m n)
  unfolding handle_reply_store
  handle_reply_store-EndsSound m n h =
      elim (Option-cases (find ltb m.token n.map_store_check_val)) [
        | inl e ↦ rw (e, handle_reply_store) h
        | inr (v, e) ↦
            let checked =
              with_other n.map_search n.map_ping_ttl (erase ltb m.token n.map_store_check_val)
                n.calls n.sender_endpoint n h in
            elim (Bool-cases (m.check_val == v)) [
              | inl same ↦ rw (e, same, handle_reply_store) checked
              | inr other ↦ elim (Option-cases env.local_endpoint) [
                | inl unopened ↦ rw (e, other, unopened, handle_reply_store) tt
                | inr (ep, opened) ↦ rw (e, other, opened, handle_reply_store) checked
              ]
            ]
      ]

  handle_reply_find_node-EndsSound :
      (now : ℕ) (m : MessageProto) (n : Node)
      → IsSound n
      → EndsSound (handle_reply_find_node env now m n)
  unfolding handle_reply_find_node
  handle_reply_find_node-EndsSound now m n h = elim (Option-cases (find ltb m.token n.map_search)) [
    | inl e ↦ rw (e, handle_reply_find_node) h
    | inr (s, e) ↦
        let k = ping_contacts-Keeps env now m.contact_list n in
        rw (e, handle_reply_find_node)
          (reply_iterative-EndsSound env m.contact_list m.token m.to_id s
            (ping_contacts env now m.contact_list n) (rw k.same_searches e) (IsSound-Keeps k h))
  ]

  handle_send_find_value-EndsSound :
      (m : MessageProto) (n : Node) → IsSound n → EndsSound (handle_send_find_value env m n)
  unfolding handle_send_find_value
  handle_send_find_value-EndsSound m n h = elim (Bool-cases (count m.to_id n.db_storage == 0)) [
    | inl missing ↦ rw missing (IsSound-Keeps (reply_find_node_to-Keeps env m.from_id m.token n) h)
    | inr present ↦
        rw present (IsSound-Keeps (reply_find_value_to-Keeps env m.from_id m.token m.hint n) h)
  ]

  handle_message_as-EndsSound :
      IsOrdering env.first_row
      → (ty : MessageType) (now : ℕ) (m : MessageProto) (n : Node) → IsSound n
      → EndsSound (handle_message_as env ty now m n)
  unfolding handle_message_as handle_send_ping handle_send_find_node
  handle_message_as-EndsSound order none_type now m n h = tt
  handle_message_as-EndsSound order send_ping now m n h =
      IsSound-Keeps (reply_ping_to-Keeps env m.from_id m.token n) h
  handle_message_as-EndsSound order reply_ping now m n h =
      handle_reply_ping-EndsSound env.order now m n h
  handle_message_as-EndsSound order send_store now m n h =
      handle_send_store-EndsSound order now m n h
  handle_message_as-EndsSound order reply_store now m n h = handle_reply_store-EndsSound m n h
  handle_message_as-EndsSound order send_find_node now m n h =
      IsSound-Keeps (reply_find_node_to-Keeps env m.from_id m.token n) h
  handle_message_as-EndsSound order reply_find_node now m n h =
      handle_reply_find_node-EndsSound now m n h
  handle_message_as-EndsSound order send_find_value now m n h =
      handle_send_find_value-EndsSound m n h
  handle_message_as-EndsSound order reply_find_value now m n h =
      handle_reply_find_value-EndsSound m n h

  handle_message_from-EndsSound :
      IsOrdering env.first_row
      → (now : ℕ) (m : MessageProto) (epp : EndpointProto) (n : Node) → IsSound n
      → EndsSound (handle_message_from env now m epp n)
  unfolding handle_message_from handle_message
  handle_message_from-EndsSound order now m epp n h = elim (Bool-cases (is_request m.type)) [
    | inl asks ↦ rw asks (
        handle_message_as-EndsSound order m.type now m _
          (with_contact env.order now m.from_id epp n h))
    | inr replies ↦ rw replies (handle_message_as-EndsSound order m.type now m n h)
  ]

  -- On a sound node, with a database that orders its rows as it documents, any message that
  -- arrives from any end point at any time leaves the node sound or throws an exception: no search
  -- is used that is not there any more, and the loop that evicts records ends. What becomes of the
  -- messages that are sent is not part of this. Sound means that the contact list and the store
  -- are well formed, that some record may be stored, and that every message sent names the node as
  -- its sender.
  pub handle_receive-IsSound :
      IsOrdering env.first_row
      → (now : ℕ) (ep : TcpEndpoint) (m : MessageProto) (n : Node) → IsSound n
      → EndsSound (handle_receive env now ep m n)
  unfolding handle_receive
  handle_receive-IsSound order now ep m n h =
      handle_message_from-EndsSound order now m (endpoint_to_proto ep)
        (record n { sender_endpoint = ep })
        (with_other n.map_search n.map_ping_ttl n.map_store_check_val n.calls ep n h)
