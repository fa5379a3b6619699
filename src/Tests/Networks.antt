-- ===== src/Tests/Networks.antt =====
-- Two nodes, one of which pings the other.
use mini_dht.Base.Maps.{find}
use mini_dht.Node.State.{fault, undefined}
use mini_dht.Base.{
  ℕ, ◌<◌, ◌≤◌, ◌⊎◌, ◌++◌, ◌≢◌, zero, suc, none, some, length, Bytes, sym, ltb, str_eq, [], ◌∷◌, ◌≡◌,
  refl, arith,
}
use mini_dht.Contact.{
  MessageProto, MessageType, send_ping, send_store, endpoint_lt, endpoint_to_proto,
}
use mini_dht.Bucket.{right_first, new_bucket, add_contact, to_time_t}
use mini_dht.Db.MultiKey
use mini_dht.Db.MultiKey.{empty_db, count, has_key}
use mini_dht.Db.Consistent.{empty_db-IsConsistent}
use mini_dht.Db.Oldest.{preferring-IsOrdering}
use mini_dht.Node.State.{Node, ok}
use mini_dht.Node.Send.{new_message, reply_ping_to, send_store_to}
use mini_dht.Node.Public.{ping_endpoint}
use mini_dht.Node.Thread.{contacts}
use mini_dht.Node.Network.{Network}
use mini_dht.Node.Acknowledged.{store_message, store_answer, store_acknowledged}
use mini_dht.Node.Wire.{Protobuf, post, receive_packet, Dangling, post_outcomes}
use mini_dht.Session.Message.{Message, pack, max_body_length}
use mini_dht.Session.Transport.{Transport}
use mini_dht.Tests.Data.{
  me, alice, bob, alice_apart, item, knows_alice, home, home_tcp, test_env, node,
}
use mini_dht.Tests.Nodes.{fresh_node, alice_known}

abbrev alice_node : Node
alice_node = record (node (new_bucket alice) empty_db) { id = alice }

abbrev two_nodes : Network
two_nodes = (contacts, fresh_node) ∷ (contacts, alice_node) ∷ []

abbrev ping : MessageProto
ping = new_message send_ping 7 fresh_node

-- The node that pings.
abbrev asking : Node
asking = ping_endpoint test_env 5000000 home 7 fresh_node

-- The node that has answered.
abbrev answering : Node
answering = reply_ping_to test_env me 7 (record alice_node {
  sender_endpoint = home_tcp;
  contact_list =
      add_contact (right_first 0) 6000000 me (endpoint_to_proto home_tcp) (new_bucket alice);
})

abbrev after_ping : Network
after_ping = (contacts, asking) ∷ (contacts, answering) ∷ []

me_apart : me ≢ alice
me_apart e = alice_apart (sym e)

abbrev zeros : ℕ → ℕ
zeros i = 0

-- A format for the messages of an exchange, whose bytes give their type.
abbrev code : MessageType → Bytes
code send_store = 0 ∷ []
code t = 1 ∷ []

abbrev stored_item : MessageProto
stored_item = store_message alice bob item 7 (node knows_alice empty_db)

abbrev item_answer : MessageProto
item_answer = store_answer me item 7 alice_node

abbrev decode : Bytes → MessageProto
decode [] = item_answer
decode (zero ∷ bs) = stored_item
decode (suc b ∷ bs) = item_answer

abbrev pub format : Protobuf
format = record { serialize = λ m. code m.type; parse = decode }

store_acknowledged_example :
    (m : MessageProto) × (r : MessageProto) × (p : Message) × (q : Message) × (a' : Node)
    × (b' : Node) × ((send_store_to test_env alice bob item 7 (node knows_alice empty_db)).outbox
        ≡ [] ++ (endpoint_to_proto home_tcp, m) ∷ [])
    × (pack zeros 4000 (format.serialize m) ≡ some p)
    × (receive_packet format test_env 6000000 home_tcp p alice_node ≡ ok b')
    × (MultiKey.find alice b'.db_storage ≡ record item { time = to_time_t 6000000 } ∷ [])
    × (b'.outbox ≡ [] ++ (endpoint_to_proto home_tcp, r) ∷ [])
    × (pack zeros 4001 (format.serialize r) ≡ some q)
    × (receive_packet format test_env 7000000 home_tcp q
          (send_store_to test_env alice bob item 7 (node knows_alice empty_db))
        ≡ ok a')
    × (find ltb 7 a'.map_store_check_val ≡ none)
unfolding new_bucket str_eq count empty_db has_key new_message
store_acknowledged_example =
    store_acknowledged zeros format test_env test_env 6000000 7000000 4000 4001 home_tcp home_tcp
      home_tcp home_tcp alice bob item 7 (node knows_alice empty_db) alice_node (alice_known.0) refl
      refl (omega arith) (omega arith) (omega arith) (omega arith) (preferring-IsOrdering 0)
      empty_db-IsConsistent (omega arith) refl refl (alice_known.1) refl me_apart refl refl

-- Nothing connects two nodes yet.
abbrev unconnected : Transport
unconnected = record { sessions = []; table = []; made = 0; accepting = 0 }

post_outcomes_example :
    ((post zeros format 4000 home_tcp stored_item unconnected ≡ fault undefined)
      × ((max_body_length < length (format.serialize stored_item))
          ⊎ Dangling (find endpoint_lt (endpoint_to_proto home_tcp) unconnected.table) unconnected))
    ⊎ ((u : Transport) × (post zeros format 4000 home_tcp stored_item unconnected ≡ ok u)
        × (length (format.serialize stored_item) ≤ max_body_length)
        × ¬ (
            Dangling (find endpoint_lt (endpoint_to_proto home_tcp) unconnected.table) unconnected))
post_outcomes_example =
    post_outcomes zeros format 4000 home_tcp stored_item unconnected (omega arith)
