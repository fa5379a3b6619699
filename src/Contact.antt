-- ===== src/Contact.antt =====
-- The data of the protocol (Sources/miniDHT_proto.proto), and the functions on end points and
-- contacts of Sources/miniDHT_const.cpp.
-- A field that the code never asks `has_...` of is plain: an unset one holds the default that its
-- getter returns, 0 or the empty text.
pub mod Address
use mini_dht.Base.{
  ℕ, zero, suc, ◌+◌, ◌-◌, ◌*◌, ◌/◌, ◌%◌, Bool, true, false, not, ◌&&◌, List, [], ◌∷◌, ◌++◌, Option,
  none, some, Bytes, str_eq, str_lt, ltb, ◌==◌, if◌then◌else◌,
}

pub record EndpointProto : Type 0 where
  pub address : Bytes
  pub port : Bytes

pub record DataItemProto : Type 0 where
  pub ttl : ℕ
  pub time : ℕ
  pub title : Bytes
  pub blob : Bytes

pub record ContactProto : Type 0 where
  pub key : Bytes
  pub ep : EndpointProto
  pub time : Option ℕ

pub data MessageType : Type 0 where
  none_type send_ping reply_ping send_store reply_store : MessageType
  send_find_node reply_find_node send_find_value reply_find_value : MessageType

pub record MessageProto : Type 0 where
  pub type : MessageType
  pub from_id : Bytes
  pub token : ℕ
  pub to_id : Bytes
  pub query_id : Bytes
  pub check_val : ℕ
  pub data_item : DataItemProto
  pub hint : Bytes
  pub contact_list : List ContactProto
  pub data_item_list : List DataItemProto

-- `time()`: 0 where the field is not set.
abbrev pub time_of : ContactProto → ℕ
time_of c = elim c.time [ none ↦ 0 | some t ↦ t ]

-- An address and a port of the network library.
pub record TcpEndpoint : Type 0 where
  pub address_text : Bytes
  pub port_number : ℕ

-- `operator==` on end points.
unfoldable pub endpoint_eq : EndpointProto → EndpointProto → Bool
endpoint_eq a b =
    if not (str_eq a.address b.address)
    then false
    else if not (str_eq a.port b.port)
    then false
    else true

unfoldable pub endpoint_ne : EndpointProto → EndpointProto → Bool
unfolding endpoint_eq
endpoint_ne a b = not (endpoint_eq a b)

-- `operator<` on end points.
unfoldable pub endpoint_lt : EndpointProto → EndpointProto → Bool
endpoint_lt a b =
    if not (str_eq a.address b.address) then str_lt a.address b.address else str_lt a.port b.port

-- The class `less_endpoint_proto`, whose operator is private.
unfoldable pub less_endpoint_proto : EndpointProto → EndpointProto → Bool
less_endpoint_proto ep1 ep2 =
    if not (str_eq ep1.address ep2.address)
    then str_lt ep1.address ep2.address
    else str_lt ep1.port ep2.port

unfoldable pub time_eq : Option ℕ → Option ℕ → Bool
time_eq none none = true
time_eq none (some t) = false
time_eq (some s) none = false
time_eq (some s) (some t) = s == t

-- `operator==` on contacts.
unfoldable pub contact_eq : ContactProto → ContactProto → Bool
unfolding endpoint_ne time_eq
contact_eq a b =
    if not (str_eq a.key b.key)
    then false
    else if endpoint_ne a.ep b.ep
    then false
    else time_eq a.time b.time

-- `operator==` on data items.
unfoldable pub data_item_eq : DataItemProto → DataItemProto → Bool
data_item_eq l r = str_eq l.title r.title && str_eq l.blob r.blob

-- `ss << n`: the digits of `n`, at most `fuel` of them.
unfoldable pub decimal_from : ℕ → ℕ → Bytes → Bytes
decimal_from zero n acc = acc
decimal_from (suc fuel) n acc =
    let rest = decimal_from fuel (n / 10) ((b'0' + n % 10) ∷ acc) in
    if ltb n 10 then (b'0' + n) ∷ acc else rest

-- A number has no more digits than its successor counts.
unfoldable pub decimal : ℕ → Bytes
unfolding decimal_from
decimal n = decimal_from (suc n) n []

unfoldable pub endpoint_to_string : EndpointProto → Bytes
endpoint_to_string ep = ep.address ++ b':' ∷ ep.port

unfoldable pub endpoint_to_proto : TcpEndpoint → EndpointProto
unfolding decimal
endpoint_to_proto ep = record { address = ep.address_text; port = decimal ep.port_number }

-- The overload for the network library's end points.
unfoldable pub tcp_endpoint_to_string : TcpEndpoint → Bytes
unfolding decimal
tcp_endpoint_to_string ep = ep.address_text ++ b':' ∷ decimal ep.port_number

-- `proto_to_endpoint`: the first end point that the resolver gives, which throws where it has none.
unfoldable pub proto_to_endpoint :
    (EndpointProto → List TcpEndpoint) → EndpointProto → Option TcpEndpoint
proto_to_endpoint resolve epp = elim (resolve epp) [ [] ↦ none | ep ∷ eps ↦ some ep ]

unfoldable pub create_endpoint_proto : Bytes → Bytes → EndpointProto
create_endpoint_proto a p = record { address = a; port = p }

-- The overload for a port number.
unfoldable pub create_endpoint_proto_number : Bytes → ℕ → EndpointProto
unfolding create_endpoint_proto decimal
create_endpoint_proto_number a p = create_endpoint_proto a (decimal p)

-- `str.find_last_of(c)`: the text before and behind the last `c`.
unfoldable pub split_last : ℕ → Bytes → Option (Bytes × Bytes)
split_last c [] = none
split_last c (x ∷ xs) = elim (split_last c xs) [
  | some (before, after) ↦ some (x ∷ before, after)
  | none ↦ if x == c then some ([], xs) else none
]

-- `str.find(c)`
unfoldable pub find_char : ℕ → Bytes → Option ℕ
find_char c [] = none
find_char c (x ∷ xs) =
    if x == c then some 0 else elim (find_char c xs) [ none ↦ none | some i ↦ some (suc i) ]

-- The first `n` characters.
unfoldable pub prefix : ℕ → Bytes → Bytes
prefix zero xs = []
prefix (suc n) [] = []
prefix (suc n) (x ∷ xs) = x ∷ prefix n xs

-- `str[0] == '['`
unfoldable pub starts_bracket : Bytes → Bool
starts_bracket [] = false
starts_bracket (x ∷ xs) = x == b'['

-- `str.substr(1, n)`
unfoldable pub substr_one : ℕ → Bytes → Bytes
unfolding prefix
substr_one n [] = []
substr_one n (x ∷ xs) = prefix n xs

-- `none` stands for the exception "malformed IP!".
unfoldable pub string_to_endpoint_pair : Bytes → Option (Bytes × Bytes)
unfolding split_last find_char starts_bracket substr_one
string_to_endpoint_pair str = elim (split_last b':' str) [
  | none ↦ none
  | some (before, after) ↦
      if starts_bracket str
      then elim (find_char b']' str) [ none ↦ none | some pos ↦ some (substr_one pos str, after) ]
      else some (before, after)
]
