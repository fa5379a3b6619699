-- ===== src/Node/Sound/Lookup.antt =====
-- The three iterative searches of Sources/miniDHT.cpp, as they are started on a sound node.
use mini_dht.Base.{ℕ, Bool, false, Option, Bytes, Map, ltb, Bool-cases, inl, inr}
use mini_dht.Base.Maps.{ltb-IsStrictOrder, find-insert_or_assign_self}
use mini_dht.Contact.{DataItemProto}
use mini_dht.Bucket.{build_proximity}
use mini_dht.Search.{Search, node_search, value_search, store_search, new_search}
use mini_dht.Node.State.{Env, Node, draw_token}
use mini_dht.Node.Keeps.{noted}
use mini_dht.Node.Iterate.{
  put_search, known_contacts, start_node_lookup, iterative_store, iterative_find_node,
  iterative_find_value,
}
use mini_dht.Node.Sound.{
  IsSound, EndsSound, IsSound-Keeps, put_search-IsSound, reply_iterative-EndsSound,
}

-- The map that is kept is not part of what makes the contact list well formed.
remembered :
    (m : Map Bytes Bytes) (c : Bool) (n : Node)
    → IsSound n
    → IsSound (record n { contact_list = record n.contact_list { map_proximity = m; changed = c } })
remembered m c n s = record {
  contacts = record {
    sorted = s.contacts.sorted;
    placed = s.contacts.placed;
    others = s.contacts.others;
    distinct = s.contacts.distinct;
    small = s.contacts.small;
  };
  own_key = s.own_key;
  store = s.store;
  room = s.room;
  signed = s.signed;
}

build_proximity-IsSound :
    (k : Bytes) (n : Node)
    → IsSound n
    → IsSound (record n { contact_list = (build_proximity k n.contact_list).1 })
unfolding build_proximity
build_proximity-IsSound k n s = elim (Bool-cases n.contact_list.changed) [
  | inl changed ↦ rw changed (remembered _ false n s)
  | inr same ↦ rw same (remembered n.contact_list.map_proximity false n s)
]

module _ (env : Env) where
  -- A look-up for a search that was put in the table.
  started :
      (t : ℕ) (k : Bytes) (s : Search) (n : Node)
      → IsSound n
      → EndsSound (start_node_lookup env t k (put_search t s n))
  unfolding start_node_lookup put_search
  started t k s n h =
      let n' = put_search t s n in
      let (m, b) = build_proximity k n.contact_list in
      reply_iterative-EndsSound env (known_contacts env b m) t k s (record n' { contact_list = b })
        (find-insert_or_assign_self ltb ltb-IsStrictOrder t s n.map_search)
        (build_proximity-IsSound k n' (put_search-IsSound t s n h))

  -- A store that is started on a sound node leaves it sound or throws: it uses no search
  -- that is gone and every loop ends.
  pub iterative_store-EndsSound :
      (now : ℕ) (k : Bytes) (d : DataItemProto) (n : Node)
      → IsSound n
      → EndsSound (iterative_store env now k d n)
  unfolding iterative_store draw_token
  iterative_store-EndsSound now k d n h =
      let (t, n') = draw_token env n in
      started t k (record (new_search now n.id k store_search) { buffer = d }) n'
        (IsSound-Keeps (noted n.map_ping_ttl n.map_store_check_val _ n) h)

  pub iterative_find_node-EndsSound :
      (now : ℕ) (k : Bytes) (n : Node) → IsSound n → EndsSound (iterative_find_node env now k n)
  unfolding iterative_find_node draw_token
  iterative_find_node-EndsSound now k n h =
      let (t, n') = draw_token env n in
      started t k (record (new_search now n.id k node_search) { node_callback_valid = false }) n'
        (IsSound-Keeps (noted n.map_ping_ttl n.map_store_check_val _ n) h)

  pub iterative_find_value-EndsSound :
      (now : ℕ) (k : Bytes) (c : Option ℕ) (hint : Bytes) (n : Node)
      → IsSound n
      → EndsSound (iterative_find_value env now k c hint n)
  unfolding iterative_find_value draw_token
  iterative_find_value-EndsSound now k c hint n h =
      let (t, n') = draw_token env n in
      started t k (record (new_search now n.id k value_search) { value_callback = c; hint = hint })
        n' (IsSound-Keeps (noted n.map_ping_ttl n.map_store_check_val _ n) h)
