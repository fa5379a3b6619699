-- ===== src/Node/Iterate.antt =====
-- Sources/miniDHT.cpp: the iterative searches.
-- A token that is not in `map_search` is reached by no caller; `operator[]` would put a search
-- there whose members are not set.
use mini_dht.Base.{
  ℕ, false, List, [], ◌∷◌, ◌++◌, Option, none, some, Bytes, Map, ltb, if◌then◌else◌, length,
}
use mini_dht.Base.Maps.{insert_or_assign, find, erase}
use mini_dht.Key.Bits.{alpha}
use mini_dht.Contact.{DataItemProto, ContactProto}
use mini_dht.Bucket.{Bucket, find_key, build_proximity}
use mini_dht.Search.{
  Search, SearchType, node_search, value_search, store_search, new_search, update_list, node_keys,
  value_keys, node_callback_keys,
}
use mini_dht.Node.State.{Env, Node, node_call, Result, ok, fault, exception, undefined, draw_token}
use mini_dht.Node.Send.{send_store_to, send_find_node_to, send_find_value_to}

-- `map_search[t] = s`
unfoldable pub put_search : ℕ → Search → Node → Node
put_search t s n = record n { map_search = insert_or_assign ltb t s n.map_search }

-- `map_search.erase(t)`
unfoldable pub erase_search : ℕ → Node → Node
erase_search t n = record n { map_search = erase ltb t n.map_search }

-- One send for each of the keys.
unfoldable pub for_each : (Bytes → Node → Node) → List Bytes → Node → Node
for_each send [] n = n
for_each send (k ∷ ks) n = for_each send ks (send k n)

-- The call of the callback, with an empty callback's exception caught.
unfoldable pub call_node_callback : Search → Node → Node
call_node_callback s n =
    if s.node_callback_valid
    then (elim s.node_callback [
      | none ↦ n
      | some c ↦ record n { calls = n.calls ++ node_call c (node_callback_keys s) ∷ [] }
    ])
    else n

module _ (env : Env) where
  -- `for (i = 0; i < ALPHA && !is_node_full(); ++i) send(get_node_key())`: the sends do not touch
  -- the search, so its keys are taken first.
  unfoldable pub ask_nodes : (Bytes → Node → Node) → ℕ → Search → Node → Result Node
  unfolding put_search for_each
  ask_nodes send t s n = elim (node_keys alpha s) [
    | none ↦ fault exception
    | some (ks, s') ↦ ok (for_each send ks (put_search t s' n))
  ]

  -- `replyIterativeNodeSearch`
  unfoldable pub reply_iterative_node_search :
      List ContactProto → ℕ → Bytes → Search → Node → Result Node
  unfolding erase_search call_node_callback ask_nodes
  reply_iterative_node_search lc t k s n =
      let (full, s') = update_list lc s in
      if full
      then ok (erase_search t (call_node_callback s' n))
      else ask_nodes (λ key. send_find_node_to env key k t) t s' n

  -- `replyIterativeValueSearch`: the hint of the search is not sent.
  unfoldable pub reply_iterative_value_search :
      List ContactProto → ℕ → Bytes → Search → Node → Result Node
  unfolding ask_nodes
  reply_iterative_value_search lc t k s n =
      ask_nodes (λ key. send_find_value_to env key k t []) t ((update_list lc s).1) n

  -- `replyIterativeStoreSearch`: one round for each contact of the short list is enough.
  unfoldable pub reply_iterative_store_search :
      List ContactProto → ℕ → Bytes → Search → Node → Result Node
  unfolding erase_search for_each ask_nodes
  reply_iterative_store_search lc t k s n =
      let (full, s') = update_list lc s in
      if full
      then (elim (value_keys (length s'.short_list) s') [
        | none ↦ fault exception
        | some (ks, s'') ↦
            ok (erase_search t (for_each (λ key. send_store_to env key k s''.buffer t) ks n))
      ])
      else ask_nodes (λ key. send_find_node_to env key k t) t s' n

  unfoldable pub reply_iterative_as :
      SearchType → List ContactProto → ℕ → Bytes → Search → Node → Result Node
  unfolding reply_iterative_node_search reply_iterative_value_search reply_iterative_store_search
  reply_iterative_as node_search lc t k s n = reply_iterative_node_search lc t k s n
  reply_iterative_as value_search lc t k s n = reply_iterative_value_search lc t k s n
  reply_iterative_as store_search lc t k s n = reply_iterative_store_search lc t k s n

  -- `replyIterative`
  unfoldable pub reply_iterative : List ContactProto → ℕ → Bytes → Node → Result Node
  unfolding reply_iterative_as
  reply_iterative lc t k n = elim (find ltb t n.map_search) [
    | none ↦ fault undefined
    | some s ↦ reply_iterative_as s.search_type lc t k s n
  ]

  -- The loop of `startNodeLookup` over the proximity map.
  unfoldable pub known_contacts : Bucket → Map Bytes Bytes → List ContactProto
  known_contacts b [] = []
  known_contacts b ((d, key) ∷ m) =
      let rest = known_contacts b m in
      elim (find_key key b) [
        | none ↦ rest
        | some c ↦ record { key = key; ep = c.ep; time = none } ∷ rest
      ]

  -- `startNodeLookup`
  unfoldable pub start_node_lookup : ℕ → Bytes → Node → Result Node
  unfolding known_contacts reply_iterative
  start_node_lookup t k n =
      let (m, b) = build_proximity k n.contact_list in
      reply_iterative (known_contacts b m) t k (record n { contact_list = b })

  -- `iterativeStore_nolock`
  unfoldable pub iterative_store : ℕ → Bytes → DataItemProto → Node → Result Node
  unfolding put_search start_node_lookup draw_token
  iterative_store now k b n =
      let (t, n') = draw_token env n in
      start_node_lookup t k
        (put_search t (record (new_search now n.id k store_search) { buffer = b }) n')

  -- `iterativeFindNode_nolock`
  unfoldable pub iterative_find_node : ℕ → Bytes → Node → Result Node
  unfolding put_search start_node_lookup draw_token
  iterative_find_node now k n =
      let (t, n') = draw_token env n in
      start_node_lookup t k (
        put_search t (record (new_search now n.id k node_search) { node_callback_valid = false })
          n')

  -- `iterativeFindValue`
  unfoldable pub iterative_find_value : ℕ → Bytes → Option ℕ → Bytes → Node → Result Node
  unfolding put_search start_node_lookup draw_token
  iterative_find_value now k c hint n =
      let (t, n') = draw_token env n in
      start_node_lookup t k (
        put_search t
          (record (new_search now n.id k value_search) { value_callback = c; hint = hint }) n')
