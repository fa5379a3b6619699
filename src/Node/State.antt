-- ===== src/Node/State.antt =====
-- The state of a node (Sources/miniDHT.h), and what a handler comes to.
-- Each public method and each handler holds `giant_lock_` while it runs, so one runs at a time; it
-- is a function on the state, and reads the clock once. Messages that are handed to a session are
-- added to `outbox`, calls of the user's callbacks to `calls`.
use mini_dht.Base.{ℕ, ◌+◌, List, Option, Bytes, Map}
use mini_dht.Contact.{EndpointProto, TcpEndpoint, DataItemProto, MessageProto}
use mini_dht.Key.Bits.{token_size, random_bitset, to_ulong}
use mini_dht.Bucket.{Bucket, Order}
use mini_dht.Search.{Search}
use mini_dht.Db.KeyValue.{KeyValueDb}
use mini_dht.Db.MultiKey.{HeaderRow, TimeRow, MultiKeyDb}

-- What the node calls and this repository does not hold: the successive results of `random()`,
-- the resolver of host names (`none` if it throws), the row that the database puts first by
-- `ORDER BY data_time.time`, what `local_endpoint` gives of `socket_`, which nothing ever opens
-- (`none` if it throws, as documented of a socket that is not open), and the order in which the
-- compiler takes the operands of the assignment in `add_contact`.
pub record Env : Type 0 where
  pub random : ℕ → ℕ
  pub resolve : EndpointProto → Option TcpEndpoint
  pub first_row : List (HeaderRow × TimeRow) → Option (HeaderRow × TimeRow)
  pub local_endpoint : Option TcpEndpoint
  pub order : Order

-- A call of a callback: its name, with keys or with data.
pub data Call : Type 0 where
  node_call : ℕ → List Bytes → Call
  value_call : ℕ → List DataItemProto → Call

pub record Node : Type 0 where
  pub id : Bytes
  pub max_records : ℕ
  pub contact_list : Bucket
  pub map_search : Map ℕ Search
  pub db_storage : MultiKeyDb
  pub db_backup : KeyValueDb
  pub map_ping_ttl : Map ℕ ℕ
  pub map_store_check_val : Map ℕ ℕ
  pub sender_endpoint : TcpEndpoint
  pub drawn : ℕ
  pub outbox : List (EndpointProto × MessageProto)
  pub calls : List Call

-- An exception that leaves the handler, behaviour that C++ leaves undefined, or a loop that has
-- not ended when the fuel is used up.
pub data Fault : Type 0 where
  exception undefined out_of_fuel : Fault

pub data Result {ℓ} (A : Type ℓ) : Type ℓ where
  ok : A → Result A
  fault : Fault → Result A

infixl 5 ◌>>=◌
abbrev pub ◌>>=◌ {ℓ κ} : {A : Type ℓ} {B : Type κ} → Result A → (A → Result B) → Result B
ok a >>= f = f a
fault e >>= f = fault e

-- `random_bitset<TOKEN_SIZE>().to_ulong()`
unfoldable pub draw_token : Env → Node → ℕ × Node
draw_token env n = (
  to_ulong (random_bitset env.random n.drawn token_size),
  record n { drawn = n.drawn + token_size },
)
