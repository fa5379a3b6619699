-- ===== src/Tests/Data.antt =====
-- The keys, end points, messages and nodes that the tests share.
use mini_dht.Base.{ℕ, [], ◌∷◌, none, some, Bytes, ◌≢◌, arith}
use mini_dht.Contact.{
  EndpointProto, TcpEndpoint, DataItemProto, ContactProto, MessageType, MessageProto,
}
use mini_dht.Bucket.{Bucket, right_first, new_bucket, add_contact}
use mini_dht.Db.MultiKey.{MultiKeyDb}
use mini_dht.Db.Oldest.{preferring}
use mini_dht.Node.State.{Env, Node}

abbrev pub me : Bytes
me = b'1' ∷ b'0' ∷ []

abbrev pub alice : Bytes
alice = b'2' ∷ b'0' ∷ []

abbrev pub bob : Bytes
bob = b'2' ∷ b'1' ∷ []

pub alice_apart : alice ≢ me
alice_apart e = ground (arith, e)

pub bob_apart : bob ≢ alice
bob_apart e = ground (arith, e)

abbrev pub home : EndpointProto
home = record { address = b':' ∷ b'1' ∷ []; port = b'8' ∷ b'0' ∷ [] }

abbrev pub home_tcp : TcpEndpoint
home_tcp = record { address_text = b':' ∷ b'1' ∷ []; port_number = 80 }

abbrev pub away : EndpointProto
away = record { address = b'9' ∷ []; port = b'7' ∷ [] }

abbrev pub contact : Bytes → ℕ → ContactProto
contact k t = record { key = k; ep = home; time = some t }

abbrev pub item : DataItemProto
item = record { ttl = 60; time = 3; title = b't' ∷ []; blob = 1 ∷ 2 ∷ [] }

abbrev pub test_env : Env
test_env = record {
  random = λ i. i;
  resolve = λ ep. some home_tcp;
  first_row = preferring 0;
  local_endpoint = none;
  order = right_first 0;
}

abbrev pub message : MessageType → MessageProto
message type = record {
  type = type;
  from_id = alice;
  token = 7;
  to_id = me;
  query_id = bob;
  check_val = 0;
  data_item = item;
  hint = [];
  contact_list = contact bob 4 ∷ [];
  data_item_list = item ∷ [];
}

abbrev pub node : Bucket → MultiKeyDb → Node
node b db = record {
  id = me;
  max_records = 2;
  contact_list = b;
  map_search = [];
  db_storage = db;
  db_backup = [];
  map_ping_ttl = [];
  map_store_check_val = [];
  sender_endpoint = home_tcp;
  drawn = 0;
  outbox = [];
  calls = [];
}

abbrev pub knows_alice : Bucket
knows_alice = add_contact (right_first 0) 5000000 alice home (new_bucket me)
