-- ===== src/Node/Send.antt =====
-- Sources/miniDHT.cpp: `send_MESSAGE` and the messages that a node sends and replies.
use mini_dht.Base.{
  ℕ, Bool, true, false, ◌&&◌, ◌||◌, List, [], ◌∷◌, ◌++◌, Option, none, some, Bytes, str_eq, ltb,
  leb, ◌==◌, if◌then◌else◌, length, filter_by,
}
use mini_dht.Base.Maps.{insert_or_assign}
use mini_dht.Key.Bits.{alpha}
use mini_dht.Contact.{
  EndpointProto, DataItemProto, ContactProto, MessageType, MessageProto, send_ping, reply_ping,
  send_store, reply_store, send_find_node, reply_find_node, send_find_value, reply_find_value,
  endpoint_to_proto,
}
use mini_dht.Bucket.{Entry, find_key}
use mini_dht.Search.{empty_item}
use mini_dht.Db.MultiKey.{find}
use mini_dht.Node.State.{Env, Node}

-- `message_proto m; m.set_type(...); m.set_from_id(id_); m.set_token(t);`
unfoldable pub new_message : MessageType → ℕ → Node → MessageProto
new_message type t n = record {
  type = type;
  from_id = n.id;
  token = t;
  to_id = [];
  query_id = [];
  check_val = 0;
  data_item = empty_item;
  hint = [];
  contact_list = [];
  data_item_list = [];
}

-- `text.find(hint) != npos`
unfoldable pub starts_with : Bytes → Bytes → Bool
starts_with text [] = true
starts_with [] (h ∷ hs) = false
starts_with (x ∷ xs) (h ∷ hs) = x == h && starts_with xs hs

unfoldable pub contains : Bytes → Bytes → Bool
unfolding starts_with
contains [] hint = starts_with [] hint
contains (x ∷ xs) hint = starts_with (x ∷ xs) hint || contains xs hint

-- The state after a `try` block that may have thrown before it changed anything.
abbrev pub caught : Node → Option Node → Node
caught n none = n
caught n (some n') = n'

unfoldable pub at_end : List Entry → Bool
at_end [] = true
at_end (e ∷ es) = false

unfoldable pub no_items : List DataItemProto → Bool
no_items [] = true
no_items (d ∷ ds) = false

module _ (env : Env) where
  -- `send_MESSAGE(m, epp)` up to the end point that is resolved: an exception of the resolver is
  -- caught and printed. The message in the outbox stands for the rest of the method, which works on
  -- the sessions alone: `post` of Node.Wire.
  unfoldable pub send_to : EndpointProto → MessageProto → Node → Node
  send_to epp m n = elim (env.resolve epp) [
    | none ↦ n
    | some uep ↦ record n { outbox = n.outbox ++ (endpoint_to_proto uep, m) ∷ [] }
  ]

  -- `send_MESSAGE(m)`; `none` stands for the exception "No route to key".
  unfoldable pub send_message : MessageProto → Node → Option Node
  unfolding send_to
  send_message m n =
      if str_eq m.to_id n.id
      then some n
      else elim (find_key m.to_id n.contact_list) [ none ↦ none | some c ↦ some (send_to c.ep m n) ]

  -- `send_PING_nolock(epp, t)`
  unfoldable pub send_ping_to : ℕ → EndpointProto → ℕ → Node → Node
  unfolding send_to new_message
  send_ping_to now epp t n =
      send_to epp (new_message send_ping t n)
        (record n { map_ping_ttl = insert_or_assign ltb t now n.map_ping_ttl })

  -- `send_PING_nolock(to_id, t)`: the time of the ping is kept also if there is no route.
  unfoldable pub send_ping_key : ℕ → Bytes → ℕ → Node → Node
  unfolding send_message new_message
  send_ping_key now to_id t n =
      let m = record (new_message send_ping t n) { to_id = to_id } in
      let n' = record n { map_ping_ttl = insert_or_assign ltb t now n.map_ping_ttl } in
      caught n' (send_message m n')

  -- `send_STORE`
  unfoldable pub send_store_to : Bytes → Bytes → DataItemProto → ℕ → Node → Node
  unfolding send_message new_message
  send_store_to to_id query_id cbf t n =
      let m = record (new_message send_store t n) {
        to_id = to_id;
        query_id = query_id;
        data_item = cbf;
      } in
      let n' = record n {
        map_store_check_val = insert_or_assign ltb t (length cbf.blob) n.map_store_check_val;
      } in
      caught n' (send_message m n')

  -- `send_FIND_NODE`
  unfoldable pub send_find_node_to : Bytes → Bytes → ℕ → Node → Node
  unfolding send_message new_message
  send_find_node_to to_id query_id t n = caught n (
      send_message (record (new_message send_find_node t n) { to_id = to_id; query_id = query_id })
        n)

  -- `send_FIND_VALUE`
  unfoldable pub send_find_value_to : Bytes → Bytes → ℕ → Bytes → Node → Node
  unfolding send_message new_message
  send_find_value_to to_id query_id t hint n = caught n (
      send_message
        (record (new_message send_find_value t n) {
          to_id = to_id;
          query_id = query_id;
          hint = hint;
        })
        n)

  -- `reply_PING`
  unfoldable pub reply_ping_to : Bytes → ℕ → Node → Node
  unfolding send_message new_message
  reply_ping_to to_id t n =
      caught n (send_message (record (new_message reply_ping t n) { to_id = to_id }) n)

  -- `reply_STORE`
  unfoldable pub reply_store_to : Bytes → ℕ → DataItemProto → Node → Node
  unfolding send_message new_message
  reply_store_to to_id t cbf n = caught n (
      send_message
        (record (new_message reply_store t n) { to_id = to_id; check_val = length cbf.blob }) n)

  -- The loop of `reply_FIND_NODE`, with the contacts that the message holds: it is sent and
  -- emptied when it holds ALPHA of them, and at the end. An exception ends the loop, with what was
  -- sent before.
  unfoldable pub reply_batches : MessageProto → List Entry → List ContactProto → Node → Node
  unfolding at_end
  reply_batches m [] held n = n
  reply_batches m (e ∷ es) held n =
      let more = reply_batches m es (held ++ e.1 ∷ []) n in
      let sent : Node = elim (send_message (record m { contact_list = held ++ e.1 ∷ [] }) n) [
        | none ↦ n
        | some n' ↦ reply_batches m es [] n'
      ] in
      if leb alpha (length (held ++ e.1 ∷ [])) || at_end es then sent else more

  -- `reply_FIND_NODE`
  unfoldable pub reply_find_node_to : Bytes → ℕ → Node → Node
  unfolding reply_batches new_message
  reply_find_node_to to_id t n =
      reply_batches (record (new_message reply_find_node t n) { to_id = to_id })
        n.contact_list.entries [] n

  -- `reply_FIND_VALUE`: the data is looked up under `to_id`, the key of the node that asked.
  unfoldable pub reply_find_value_to : Bytes → ℕ → Bytes → Node → Node
  unfolding send_message new_message no_items
  reply_find_value_to to_id t hint n =
      let items = filter_by (λ d. contains d.title hint) (find to_id n.db_storage) in
      let m = record (new_message reply_find_value t n) { to_id = to_id; data_item_list = items } in
      if no_items items then n else caught n (send_message m n)
