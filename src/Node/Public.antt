-- ===== src/Node/Public.antt =====
-- The public methods of `miniDHT` (Sources/miniDHT.cpp), and its constructor. The lock that each
-- takes is not modelled.
use mini_dht.Base.{ℕ, List, [], ◌∷◌, none, some, Bytes, Map, map, length, str_lt}
use mini_dht.Base.Maps.{insert_or_assign}
use mini_dht.Key.Bits.{bits_xor, to_string}
use mini_dht.Key.Digest.{key_to_string, string_to_key}
use mini_dht.Key.Local.{Hasher, Host, Files, local_key}
use mini_dht.Contact.{TcpEndpoint, EndpointProto, DataItemProto, ContactProto}
use mini_dht.Bucket.{Entry, new_bucket}
use mini_dht.Db.KeyValue.{KeyValueDb}
use mini_dht.Db.MultiKey.{MultiKeyDb}
use mini_dht.Db.KeyValue
use mini_dht.Db.MultiKey
use mini_dht.Node.State.{Env, Node, Result, ok, fault, exception, out_of_fuel, ◌>>=◌}
use mini_dht.Node.Send.{send_ping_to, send_ping_key}
use mini_dht.Node.Iterate.{iterative_store, iterative_find_node}
use mini_dht.Node.Handle.{restore_from_backup}

-- `nodes_description`: the contacts in the order of their buckets.
unfoldable pub nodes_description : Node → List ContactProto
nodes_description n = map (λ (e : Entry). e.1) n.contact_list.entries

unfoldable pub storage_size : Node → ℕ
storage_size n = MultiKey.size n.db_storage

-- `bucket_size`: the known end points, not the contacts.
unfoldable pub backup_size : Node → ℕ
backup_size n = KeyValue.size n.db_backup

unfoldable pub get_local_key : Node → Bytes
get_local_key n = n.id

unfoldable pub storage_wait_queue : Node → ℕ
storage_wait_queue n = length n.map_store_check_val

unfoldable pub set_max_record : ℕ → Node → Node
set_max_record val n = record n { max_records = val }

unfoldable pub get_max_record : Node → ℕ
get_max_record n = n.max_records

-- `build_proximity` of the class `miniDHT`, which nothing calls: by the XOR distance itself.
unfoldable pub proximity_of : Bytes → List ContactProto → Map Bytes Bytes → Map Bytes Bytes
proximity_of k [] m = m
proximity_of k (c ∷ lc) m =
    proximity_of k lc (
      insert_or_assign str_lt (to_string (bits_xor (string_to_key k) (string_to_key c.key))) c.key
        m)

-- The members as the constructor sets them, with the two data bases that it opens. `dt_` takes a
-- random number.
unfoldable pub initial_node : Bytes → ℕ → MultiKeyDb → KeyValueDb → Node
initial_node id max_records db_storage db_backup = record {
  id = id;
  max_records = max_records;
  contact_list = new_bucket id;
  map_search = [];
  db_storage = db_storage;
  db_backup = db_backup;
  map_ping_ttl = [];
  map_store_check_val = [];
  sender_endpoint = record { address_text = []; port_number = 0 };
  drawn = 1;
  outbox = [];
  calls = [];
}

module _ (env : Env) where
  -- The locked versions.
  unfoldable pub store : ℕ → Bytes → DataItemProto → Node → Result Node
  store now k b n = iterative_store env now k b n

  unfoldable pub find_node : ℕ → Bytes → Node → Result Node
  find_node now k n = iterative_find_node env now k n

  unfoldable pub ping_endpoint : ℕ → EndpointProto → ℕ → Node → Node
  ping_endpoint now epp t n = send_ping_to env now epp t n

  unfoldable pub ping_key : ℕ → Bytes → ℕ → Node → Node
  ping_key now to_id t n = send_ping_key env now to_id t n

  unfoldable pub get_local_endpoint : Node → Result TcpEndpoint
  get_local_endpoint n = elim env.local_endpoint [ none ↦ fault exception | some ep ↦ ok ep ]

  -- The constructor: the two levels of `local_key` are all that it takes where the file of the key
  -- can be written.
  unfoldable pub new_node :
      {Context : Type 0}
      → Hasher Context
      → Host
      → ℕ
      → Bytes
      → ℕ
      → Files
      → MultiKeyDb
      → KeyValueDb
      → ℕ
      → Result (Node × Files)
  unfolding initial_node
  new_node sha host port path max_records files db_storage db_backup now =
      elim (local_key sha host 2 port path now files) [
        | none ↦ fault out_of_fuel
        | some (k, files') ↦
            restore_from_backup env now
              (initial_node (key_to_string k) max_records db_storage db_backup)
            >>= (λ n. ok (n, files'))
      ]
