-- ===== src/Tests/Nodes.antt =====
-- A node.
use mini_dht.Base.{
  true, ◌≤◌, List, [], ◌∷◌, ◌++◌, map, ◌≡◌, refl, none, some, arith, ltb, str_eq, sym,
}
use mini_dht.Base.Maps.{find}
use mini_dht.Contact.{
  ContactProto, send_store, reply_ping, send_find_value, reply_find_node, endpoint_to_proto,
}
use mini_dht.Bucket.{right_first, new_bucket, find_key, to_time_t}
use mini_dht.Bucket.Valid.{new_bucket-IsValid}
use mini_dht.Bucket.Lookup.{find_key-add_contact_self}
use mini_dht.Db.MultiKey.{MultiKeyDb, empty_db, insert, count, size, has_key}
use mini_dht.Db.Consistent.{IsConsistent, empty_db-IsConsistent}
use mini_dht.Db.Oldest.{preferring-IsOrdering}
use mini_dht.Node.State.{Node, ok}
use mini_dht.Node.Send.{new_message, send_ping_to, reply_find_node_to}
use mini_dht.Node.Store.{insert_db}
use mini_dht.Node.Handle.{handle_reply_ping, handle_send_find_value, handle_receive}
use mini_dht.Node.Sound.{IsSound, EndsSound}
use mini_dht.Node.Sound.Message.{handle_receive-IsSound}
use mini_dht.Node.Periodic.{periodic}
use mini_dht.Node.Periodic.Contacts.{Settles}
use mini_dht.Node.Periodic.Whole.{periodic-Settles}
use mini_dht.Node.Eviction.{insert_db-IsConsistent}
use mini_dht.Node.Batches.{IsBatched, concat, posted, reply_find_node_batches}
use mini_dht.Node.Routing.{handle_receive-query_id, handle_send_find_value_silent}
use mini_dht.Node.Pings.{handle_reply_ping-send_ping_to}
use mini_dht.Tests.Data.{
  me, alice, contact, alice_apart, home, home_tcp, item, test_env, message, node, knows_alice,
}

abbrev pub fresh_node : Node
fresh_node = node (new_bucket me) empty_db

pub fresh_node-IsSound : IsSound fresh_node
unfolding new_bucket
fresh_node-IsSound = record {
  contacts = new_bucket-IsValid me;
  own_key = refl;
  store = empty_db-IsConsistent;
  room = omega arith;
  signed = tt;
}

handle_receive-IsSound_example :
    EndsSound (handle_receive test_env 5000000 home_tcp (message send_store) fresh_node)
handle_receive-IsSound_example =
    handle_receive-IsSound test_env (preferring-IsOrdering 0) 5000000 home_tcp (message send_store)
      fresh_node fresh_node-IsSound

periodic-Settles_example : Settles (periodic test_env 5000000 fresh_node)
periodic-Settles_example = periodic-Settles test_env 5000000 fresh_node fresh_node-IsSound

abbrev knows_one : Node
knows_one =
    node
      (record {
        now = 0;
        local_key = me;
        map_proximity = [];
        changed = true;
        entries = (5, contact alice 4) ∷ [];
      })
      empty_db

insert_db-IsConsistent_example :
    (db' : MultiKeyDb) × (insert_db test_env 5000000 me item fresh_node
      ≡ ok (record fresh_node { db_storage = db' }))
    × IsConsistent db'
    × (count me empty_db ≡ 0 → size db' ≤ 2)
insert_db-IsConsistent_example =
    insert_db-IsConsistent test_env (preferring-IsOrdering 0) 5000000 me item fresh_node
      empty_db-IsConsistent (omega arith)

pub alice_known : (c : ContactProto) × (find_key alice knows_alice ≡ some c)
unfolding new_bucket
alice_known =
    let (c, found, _, _, _) =
      find_key-add_contact_self (right_first 0) 5000000 alice home (new_bucket me) alice_apart in
    (c, found)

reply_find_node_batches_example :
    (batches : List (List ContactProto)) × (reply_find_node_to test_env alice 7
        (node knows_alice empty_db)
      ≡ record (node knows_alice empty_db) {
        outbox =
            []
            ++ posted
                (endpoint_to_proto home_tcp)
                (record (new_message reply_find_node 7 (node knows_alice empty_db)) {
                  to_id = alice;
                })
                batches;
      })
    × IsBatched batches
    × (concat batches ≡ map (λ e. e.1) knows_alice.entries)
unfolding str_eq
reply_find_node_batches_example =
    reply_find_node_batches test_env alice 7 (node knows_alice empty_db) (alice_known.0) home_tcp
      refl (alice_known.1) refl

handle_receive-query_id_example :
    handle_receive test_env 5000000 home_tcp
      (record (message send_store) { query_id = alice })
      fresh_node
    ≡ handle_receive test_env 5000000 home_tcp (message send_store) fresh_node
handle_receive-query_id_example =
    handle_receive-query_id test_env 5000000 home_tcp alice (message send_store) fresh_node

abbrev own_record : MultiKeyDb
own_record = insert me (b't' ∷ []) 3 60 (1 ∷ []) empty_db

handle_send_find_value_silent_example :
    handle_send_find_value test_env (message send_find_value) (node (new_bucket me) own_record)
    ≡ ok (node (new_bucket me) own_record)
unfolding insert empty_db count has_key str_eq
handle_send_find_value_silent_example =
    handle_send_find_value_silent test_env (message send_find_value)
      (node (new_bucket me) own_record) (omega arith) ((λ e. alice_apart (sym e)), tt)

handle_reply_ping-send_ping_to_example :
    (n' : Node) × (handle_reply_ping test_env.order 900000000
        (message reply_ping)
        (send_ping_to test_env 5000000 home 7 fresh_node)
      ≡ ok n')
    × ((c : ContactProto) × (find_key alice n'.contact_list ≡ some c)
        × (c.ep ≡ endpoint_to_proto home_tcp)
        × (c.time ≡ some (to_time_t 900000000)))
    × (find ltb 7 n'.map_ping_ttl ≡ none)
unfolding new_bucket
handle_reply_ping-send_ping_to_example =
    handle_reply_ping-send_ping_to test_env 5000000 900000000 home 7 (message reply_ping) fresh_node
      (omega arith) refl alice_apart
