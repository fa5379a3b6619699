-- ===== src/Node/Routing.antt =====
-- Which key the handlers of Sources/miniDHT.cpp go by.
use mini_dht.Base.{
  ℕ, false, List, [], ◌∷◌, Bytes, ◌≡◌, ◌≢◌, refl, All, Bool-cases, inl, inr, ◌<◌, ◌==◌, filter_by,
  arith, str_eq, str_eq_iff,
}
use mini_dht.Contact.{
  TcpEndpoint, MessageType, MessageProto, none_type, send_ping, reply_ping, send_store, reply_store,
  send_find_node, reply_find_node, send_find_value, reply_find_value,
}
use mini_dht.Db.MultiKey.{HeaderRow, has_key, count, find, rows_of, cross}
use mini_dht.Node.State.{Env, Node, ok}
use mini_dht.Node.Send.{no_items, reply_find_value_to}
use mini_dht.Node.Handle.{
  handle_send_ping, handle_reply_ping, handle_send_store, handle_reply_store, handle_send_find_node,
  handle_reply_find_node, handle_send_find_value, handle_reply_find_value, handle_message_as,
  handle_message, is_request, handle_message_from, handle_receive,
}

zero_test : (i : ℕ) → 0 < i → (i == 0) ≡ false
zero_test i pos = ground arith

find_none :
    (k : Bytes) (hs : List HeaderRow) → All (λ h. h.key ≢ k) hs → filter_by (has_key k) hs ≡ []
unfolding has_key
find_none k [] a = refl
find_none k (h ∷ hs) a = elim (Bool-cases (str_eq h.key k)) [
  | inl same ↦ absurd (a.0 ((str_eq_iff h.key k).0 same))
  | inr other ↦ rw other (find_none k hs a.1)
]

module _ (env : Env) where
  handle_message_as-query_id :
      (ty : MessageType) (now : ℕ) (q : Bytes) (m : MessageProto) (n : Node)
      → handle_message_as env ty now (record m { query_id = q }) n
        ≡ handle_message_as env ty now m n
  unfolding handle_message_as handle_send_ping handle_reply_ping handle_send_store
      handle_reply_store handle_send_find_node handle_reply_find_node handle_send_find_value
      handle_reply_find_value
  handle_message_as-query_id none_type now q m n = refl
  handle_message_as-query_id send_ping now q m n = refl
  handle_message_as-query_id reply_ping now q m n = refl
  handle_message_as-query_id send_store now q m n = refl
  handle_message_as-query_id reply_store now q m n = refl
  handle_message_as-query_id send_find_node now q m n = refl
  handle_message_as-query_id reply_find_node now q m n = refl
  handle_message_as-query_id send_find_value now q m n = refl
  handle_message_as-query_id reply_find_value now q m n = refl

  -- What a node does with a message of any kind does not depend on its `query_id`, the field that
  -- carries the key that is searched or stored.
  pub handle_receive-query_id :
      (now : ℕ) (ep : TcpEndpoint) (q : Bytes) (m : MessageProto) (n : Node)
      → handle_receive env now ep (record m { query_id = q }) n ≡ handle_receive env now ep m n
  unfolding handle_receive handle_message_from handle_message
  handle_receive-query_id now ep q m n = elim (Bool-cases (is_request m.type)) [
    | inl asks ↦ rw asks (handle_message_as-query_id m.type now q m _)
    | inr replies ↦ rw replies (handle_message_as-query_id m.type now q m _)
  ]

  -- A node that has data under the `to_id` of a SEND_FIND_VALUE, but none under the key of the
  -- node that asks, sends no answer at all: neither the data nor contacts.
  pub handle_send_find_value_silent :
      (m : MessageProto) (n : Node)
      → 0 < count m.to_id n.db_storage
      → All (λ h. h.key ≢ m.from_id) n.db_storage.headers
      → handle_send_find_value env m n ≡ ok n
  unfolding handle_send_find_value reply_find_value_to find rows_of cross no_items
  handle_send_find_value_silent m n some_there none_here =
      rw
        (
          zero_test (count m.to_id n.db_storage) some_there,
          find_none m.from_id n.db_storage.headers none_here,
        )
        refl
