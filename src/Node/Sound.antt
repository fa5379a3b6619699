-- ===== src/Node/Sound.antt =====
-- The state of a node between two events (Sources/miniDHT.cpp), and the searches that keep it.
pub mod Message
pub mod Lookup
use mini_dht.Base.{
  ℕ, zero, suc, ◌≤◌, ◌<◌, Bool, true, false, not, List, [], ◌∷◌, ◌++◌, Option, none, some, Bytes,
  Map, str_eq, ltb, ◌==◌, if◌then◌else◌, length, ◌≡◌, refl, sym, ◌∙◌, All, Bool-cases, Option-cases,
  inl, inr, ◌⊎◌, map, arith,
}
use mini_dht.Base.Maps.{insert_or_assign, find, erase, find-insert_or_assign_self}
use mini_dht.Key.Bits.{alpha}
use mini_dht.Contact.{
  EndpointProto, TcpEndpoint, DataItemProto, ContactProto, MessageType, MessageProto, none_type,
  send_ping, reply_ping, send_store, reply_store, send_find_node, reply_find_node, send_find_value,
  reply_find_value, endpoint_to_proto,
}
use mini_dht.Bucket.{Bucket, Order, find_key, to_time_t, add_contact, build_proximity}
use mini_dht.Bucket.Valid.{IsValid, add_contact-IsValid}
use mini_dht.Search.{
  Search, SearchType, node_search, value_search, store_search, update_list, node_keys, value_keys,
  node_callback_keys,
}
use mini_dht.Db.MultiKey.{count}
use mini_dht.Db.Consistent.{IsConsistent}
use mini_dht.Db.Oldest.{IsOrdering}
use mini_dht.Node.State.{
  Env, Node, Call, node_call, value_call, Fault, Result, ok, fault, exception, undefined,
  out_of_fuel, ◌>>=◌,
}
use mini_dht.Node.Send.{send_store_to, send_find_node_to, send_find_value_to}
use mini_dht.Node.Store.{insert_db}
use mini_dht.Node.Iterate.{
  put_search, erase_search, for_each, call_node_callback, ask_nodes, reply_iterative_node_search,
  reply_iterative_value_search, reply_iterative_store_search, reply_iterative_as, reply_iterative,
}
use mini_dht.Node.Handle.{
  handle_send_ping, handle_reply_ping, in_time, handle_send_store, handle_reply_store,
  handle_send_find_node, ping_contacts, handle_reply_find_node, handle_send_find_value,
  handle_reply_find_value, handle_message_as, handle_message, is_request, handle_message_from,
  handle_receive,
}
use mini_dht.Node.Eviction.{insert_db-IsConsistent}
use mini_dht.Node.Keeps.{
  Signed, Keeps, for_each-Keeps, reply_ping_to-Keeps, reply_store_to-Keeps, send_store_to-Keeps,
  send_find_node_to-Keeps, send_find_value_to-Keeps, reply_find_value_to-Keeps,
  reply_find_node_to-Keeps, ping_contacts-Keeps,
}

-- The contact list and the store are well formed, the contact list is kept for the node's own
-- key, some record may be stored, and every message names the node as its sender.
pub record IsSound (n : Node) : Type 0 where
  pub contacts : IsValid n.contact_list
  pub own_key : n.contact_list.local_key ≡ n.id
  pub store : IsConsistent n.db_storage
  pub room : 0 < n.max_records
  pub signed : Signed n.id n.outbox

-- A handler ends in a sound state or throws: it uses no search that is gone and every loop ends.
abbrev pub EndsSound : Result Node → Type 0
EndsSound (ok n) = IsSound n
EndsSound (fault exception) = Unit
EndsSound (fault undefined) = ⊥
EndsSound (fault out_of_fuel) = ⊥

pub IsSound-Keeps : {n n' : Node} → Keeps n n' → IsSound n → IsSound n'
IsSound-Keeps {n} {n'} k s = record {
  contacts = rw k.same_contacts s.contacts;
  own_key = rw (k.same_contacts, k.same_id) s.own_key;
  store = rw k.same_store s.store;
  room = rw k.same_max s.room;
  signed = rw k.same_id (k.signed s.signed);
}

-- The searches, the callbacks and the times of pings and stores are not part of it.
pub with_other :
    (searches : Map ℕ Search) (pings stores : Map ℕ ℕ) (calls : List Call) (sender : TcpEndpoint)
    (n : Node)
    → IsSound n
    → IsSound (record n {
      map_search = searches;
      map_ping_ttl = pings;
      map_store_check_val = stores;
      calls = calls;
      sender_endpoint = sender;
    })
with_other searches pings stores calls sender n s = record {
  contacts = s.contacts;
  own_key = s.own_key;
  store = s.store;
  room = s.room;
  signed = s.signed;
}

local_key-add_contact :
    (order : Order) (now : ℕ) (k : Bytes) (ep : EndpointProto) (b : Bucket)
    → (add_contact order now k ep b).local_key ≡ b.local_key
unfolding add_contact
local_key-add_contact order now k ep b = elim (Bool-cases (str_eq k b.local_key)) [
  | inl self ↦ rw self refl
  | inr other ↦ elim (Option-cases (find_key k b)) [
    | inl missing ↦ rw (other, missing, add_contact) refl
    | inr (c, found) ↦ rw (other, found, add_contact) refl
  ]
]

pub with_contact :
    (order : Order) (now : ℕ) (k : Bytes) (ep : EndpointProto) (n : Node)
    → IsSound n
    → IsSound (record n { contact_list = add_contact order now k ep n.contact_list })
with_contact order now k ep n s = record {
  contacts = add_contact-IsValid order now k ep n.contact_list s.contacts;
  own_key = local_key-add_contact order now k ep n.contact_list ∙ s.own_key;
  store = s.store;
  room = s.room;
  signed = s.signed;
}

call_node_callback-IsSound : (s : Search) (n : Node) → IsSound n → IsSound (call_node_callback s n)
unfolding call_node_callback
call_node_callback-IsSound s n h = elim (Bool-cases s.node_callback_valid) [
  | inl valid ↦ elim (Option-cases s.node_callback) [
    | inl missing ↦ rw (valid, missing, call_node_callback) h
    | inr (c, found) ↦
        rw (valid, found, call_node_callback)
          (with_other n.map_search n.map_ping_ttl n.map_store_check_val
            (n.calls ++ node_call c (node_callback_keys s) ∷ []) n.sender_endpoint n h)
  ]
  | inr invalid ↦ rw invalid h
]

pub put_search-IsSound : (t : ℕ) (s : Search) (n : Node) → IsSound n → IsSound (put_search t s n)
unfolding put_search
put_search-IsSound t s n =
    with_other (insert_or_assign ltb t s n.map_search) n.map_ping_ttl n.map_store_check_val n.calls
      n.sender_endpoint n

pub erase_search-IsSound : (t : ℕ) (n : Node) → IsSound n → IsSound (erase_search t n)
unfolding erase_search
erase_search-IsSound t n =
    with_other (erase ltb t n.map_search) n.map_ping_ttl n.map_store_check_val n.calls
      n.sender_endpoint n

module _ (env : Env) where
  ask_nodes-EndsSound :
      (send : Bytes → Node → Node)
      → ((k : Bytes) (n : Node) → Keeps n (send k n))
      → (t : ℕ) (s : Search) (n : Node) → IsSound n
      → EndsSound (ask_nodes env send t s n)
  unfolding ask_nodes
  ask_nodes-EndsSound send keeps t s n h = elim (Option-cases (node_keys alpha s)) [
    | inl e ↦ rw (e, ask_nodes) tt
    | inr ((ks, s'), e) ↦
        rw (e, ask_nodes)
          (IsSound-Keeps (for_each-Keeps send keeps ks (put_search t s' n))
            (put_search-IsSound t s' n h))
  ]

  node_search-EndsSound :
      (lc : List ContactProto) (t : ℕ) (k : Bytes) (s : Search) (n : Node)
      → IsSound n
      → EndsSound (reply_iterative_node_search env lc t k s n)
  unfolding reply_iterative_node_search
  node_search-EndsSound lc t k s n h =
      let (full, s') = update_list lc s in
      elim (Bool-cases full) [
        | inl filled ↦
            rw filled
              (erase_search-IsSound t (call_node_callback s' n) (call_node_callback-IsSound s' n h))
        | inr open_yet ↦ rw open_yet (
            ask_nodes-EndsSound (λ key. send_find_node_to env key k t)
              (λ key n'. send_find_node_to-Keeps env key k t n') t s' n h)
      ]

  value_search-EndsSound :
      (lc : List ContactProto) (t : ℕ) (k : Bytes) (s : Search) (n : Node)
      → IsSound n
      → EndsSound (reply_iterative_value_search env lc t k s n)
  unfolding reply_iterative_value_search
  value_search-EndsSound lc t k s n h =
      ask_nodes-EndsSound (λ key. send_find_value_to env key k t [])
        (λ key n'. send_find_value_to-Keeps env key k t [] n') t ((update_list lc s).1) n h

  store_search-EndsSound :
      (lc : List ContactProto) (t : ℕ) (k : Bytes) (s : Search) (n : Node)
      → IsSound n
      → EndsSound (reply_iterative_store_search env lc t k s n)
  unfolding reply_iterative_store_search
  store_search-EndsSound lc t k s n h =
      let (full, s') = update_list lc s in
      elim (Bool-cases full) [
        | inl filled ↦ elim (Option-cases (value_keys (length s'.short_list) s')) [
          | inl e ↦ rw (filled, e) tt
          | inr ((ks, s''), e) ↦
              rw (filled, e)
                (erase_search-IsSound t
                  (for_each (λ key. send_store_to env key k s''.buffer t) ks n)
                  (IsSound-Keeps
                    (for_each-Keeps (λ key. send_store_to env key k s''.buffer t)
                      (λ key n'. send_store_to-Keeps env key k s''.buffer t n') ks n)
                    h))
        ]
        | inr open_yet ↦ rw open_yet (
            ask_nodes-EndsSound (λ key. send_find_node_to env key k t)
              (λ key n'. send_find_node_to-Keeps env key k t n') t s' n h)
      ]

  reply_iterative_as-EndsSound :
      (ty : SearchType) (lc : List ContactProto) (t : ℕ) (k : Bytes) (s : Search) (n : Node)
      → IsSound n
      → EndsSound (reply_iterative_as env ty lc t k s n)
  unfolding reply_iterative_as
  reply_iterative_as-EndsSound node_search lc t k s n h = node_search-EndsSound lc t k s n h
  reply_iterative_as-EndsSound value_search lc t k s n h = value_search-EndsSound lc t k s n h
  reply_iterative_as-EndsSound store_search lc t k s n h = store_search-EndsSound lc t k s n h

  -- A search that is known can go on.
  pub reply_iterative-EndsSound :
      (lc : List ContactProto) (t : ℕ) (k : Bytes) (s : Search) (n : Node)
      → find ltb t n.map_search ≡ some s
      → IsSound n
      → EndsSound (reply_iterative env lc t k n)
  unfolding reply_iterative
  reply_iterative-EndsSound lc t k s n e h =
      rw (e, reply_iterative) (reply_iterative_as-EndsSound s.search_type lc t k s n h)
