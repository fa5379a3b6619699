-- ===== src/Node/Handle.antt =====
-- Sources/miniDHT.cpp: the handlers of messages, of a lost connection, and the restored contacts.
use mini_dht.Base.{
  ℕ, ◌+◌, Bool, true, false, List, [], ◌∷◌, ◌++◌, none, some, Bytes, ltb, ◌==◌, if◌then◌else◌,
}
use mini_dht.Base.Maps.{find, erase}
use mini_dht.Contact.{
  EndpointProto, TcpEndpoint, ContactProto, MessageType, MessageProto, none_type, send_ping,
  reply_ping, send_store, reply_store, send_find_node, reply_find_node, send_find_value,
  reply_find_value, endpoint_to_proto, string_to_endpoint_pair,
}
use mini_dht.Bucket.{Order, done, past_end, no_fuel, to_time_t, add_contact, remove_contact}
use mini_dht.Db.MultiKey.{count}
use mini_dht.Db.KeyValue.{list_value}
use mini_dht.Node.State.{
  Env, Node, value_call, Result, ok, fault, exception, undefined, out_of_fuel, ◌>>=◌, draw_token,
}
use mini_dht.Node.Send.{
  send_ping_to, send_ping_key, reply_ping_to, reply_store_to, reply_find_node_to,
  reply_find_value_to,
}
use mini_dht.Node.Store.{insert_db}
use mini_dht.Node.Iterate.{erase_search, reply_iterative}

-- `map_ping_ttl[m.token()] - update_time() < tTimeout`, with the time added on both sides.
unfoldable pub in_time : ℕ → ℕ → Bool
in_time sent now = ltb sent (now + 60000000)

-- Whether a message asks something, which makes its sender a contact.
unfoldable pub is_request : MessageType → Bool
is_request none_type = false
is_request send_ping = true
is_request reply_ping = false
is_request send_store = true
is_request reply_store = false
is_request send_find_node = true
is_request reply_find_node = false
is_request send_find_value = true
is_request reply_find_value = false

-- `handle_REPLY_PING`
unfoldable pub handle_reply_ping : Order → ℕ → MessageProto → Node → Result Node
unfolding in_time
handle_reply_ping order now m n = elim (find ltb m.token n.map_ping_ttl) [
  | none ↦ ok n
  | some sent ↦ ok (record n {
    contact_list =
        if in_time sent now
        then add_contact order now m.from_id (endpoint_to_proto n.sender_endpoint) n.contact_list
        else n.contact_list;
    map_ping_ttl = erase ltb m.token n.map_ping_ttl;
  })
]

-- `handle_REPLY_FIND_VALUE`: an empty callback throws.
unfoldable pub handle_reply_find_value : MessageProto → Node → Result Node
unfolding erase_search
handle_reply_find_value m n = elim (find ltb m.token n.map_search) [
  | none ↦ ok n
  | some s ↦ elim s.value_callback [
    | none ↦ fault exception
    | some c ↦
        ok (
          erase_search m.token (record n { calls = n.calls ++ value_call c m.data_item_list ∷ [] }))
  ]
]

-- `handle_disconnect`
unfoldable pub handle_disconnect : TcpEndpoint → Node → Result Node
handle_disconnect ep n = elim (remove_contact (endpoint_to_proto ep) n.contact_list) [
  | done es ↦ ok (record n { contact_list = record n.contact_list { entries = es } })
  | past_end ↦ fault undefined
  | no_fuel ↦ fault out_of_fuel
]

module _ (env : Env) where
  -- `handle_SEND_PING`
  unfoldable pub handle_send_ping : MessageProto → Node → Result Node
  handle_send_ping m n = ok (reply_ping_to env m.from_id m.token n)

  -- `handle_SEND_STORE`
  unfoldable pub handle_send_store : ℕ → MessageProto → Node → Result Node
  handle_send_store now m n =
      let di = record m.data_item { time = to_time_t now } in
      insert_db env now m.to_id di n >>= λ n'. ok (reply_store_to env m.from_id m.token di n')

  -- `handle_REPLY_STORE`: what is printed of a value that differs asks for the end point of
  -- `socket_`.
  unfoldable pub handle_reply_store : MessageProto → Node → Result Node
  handle_reply_store m n = elim (find ltb m.token n.map_store_check_val) [
    | none ↦ ok n
    | some v ↦
        let checked =
          ok (record n { map_store_check_val = erase ltb m.token n.map_store_check_val }) in
        let printed : Result Node = elim env.local_endpoint [
          | none ↦ fault exception
          | some ep ↦ checked
        ] in
        if m.check_val == v then checked else printed
  ]

  -- `handle_SEND_FIND_NODE`
  unfoldable pub handle_send_find_node : MessageProto → Node → Result Node
  handle_send_find_node m n = ok (reply_find_node_to env m.from_id m.token n)

  -- The pings of `handle_REPLY_FIND_NODE`, each with a token of its own.
  unfoldable pub ping_contacts : ℕ → List ContactProto → Node → Node
  unfolding draw_token
  ping_contacts now [] n = n
  ping_contacts now (c ∷ cs) n =
      let (t, n') = draw_token env n in ping_contacts now cs (send_ping_key env now c.key t n')

  -- `handle_REPLY_FIND_NODE`
  unfoldable pub handle_reply_find_node : ℕ → MessageProto → Node → Result Node
  unfolding ping_contacts
  handle_reply_find_node now m n = elim (find ltb m.token n.map_search) [
    | none ↦ ok n
    | some s ↦
        reply_iterative env m.contact_list m.token m.to_id (ping_contacts now m.contact_list n)
  ]

  -- `handle_SEND_FIND_VALUE`
  unfoldable pub handle_send_find_value : MessageProto → Node → Result Node
  handle_send_find_value m n =
      if count m.to_id n.db_storage == 0
      then ok (reply_find_node_to env m.from_id m.token n)
      else ok (reply_find_value_to env m.from_id m.token m.hint n)

  -- The `switch` of `handle_message(m)`.
  unfoldable pub handle_message_as : MessageType → ℕ → MessageProto → Node → Result Node
  unfolding handle_send_ping handle_reply_ping handle_send_store handle_reply_store
      handle_send_find_node handle_reply_find_node handle_send_find_value handle_reply_find_value
  handle_message_as none_type now m n = fault exception
  handle_message_as send_ping now m n = handle_send_ping m n
  handle_message_as reply_ping now m n = handle_reply_ping env.order now m n
  handle_message_as send_store now m n = handle_send_store now m n
  handle_message_as reply_store now m n = handle_reply_store m n
  handle_message_as send_find_node now m n = handle_send_find_node m n
  handle_message_as reply_find_node now m n = handle_reply_find_node now m n
  handle_message_as send_find_value now m n = handle_send_find_value m n
  handle_message_as reply_find_value now m n = handle_reply_find_value m n

  unfoldable pub handle_message : ℕ → MessageProto → Node → Result Node
  unfolding handle_message_as
  handle_message now m n = handle_message_as m.type now m n

  -- `handle_message(m, epp)`: an unknown type throws in both versions.
  unfoldable pub handle_message_from : ℕ → MessageProto → EndpointProto → Node → Result Node
  unfolding handle_message is_request
  handle_message_from now m epp n =
      if is_request m.type
      then handle_message now m
          (record n { contact_list = add_contact env.order now m.from_id epp n.contact_list })
      else handle_message now m n

  -- `handle_receive`, with the message that the body of the packet holds.
  unfoldable pub handle_receive : ℕ → TcpEndpoint → MessageProto → Node → Result Node
  unfolding handle_message_from
  handle_receive now ep m n =
      handle_message_from now m (endpoint_to_proto ep) (record n { sender_endpoint = ep })

  -- The loop of `restore_from_backup` over the values of the backup: a ping for each. A value that
  -- does not parse throws before the `try` of the loop.
  unfoldable pub ping_addresses : ℕ → List Bytes → Node → Result Node
  unfolding draw_token
  ping_addresses now [] n = ok n
  ping_addresses now (v ∷ vs) n = elim (string_to_endpoint_pair v) [
    | none ↦ fault exception
    | some (address, port) ↦
        let (t, n') = draw_token env n in
        ping_addresses now vs
          (send_ping_to env now (record { address = address; port = port }) t n')
  ]

  unfoldable pub restore_from_backup : ℕ → Node → Result Node
  unfolding ping_addresses
  restore_from_backup now n = ping_addresses now (list_value n.db_backup) n
