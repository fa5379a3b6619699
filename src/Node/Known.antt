-- ===== src/Node/Known.antt =====
-- Where the keys of the contacts of a node come from (Sources/miniDHT.cpp): searches add none.
pub mod Handlers
pub mod Thread
use mini_dht.Base.{
  ℕ, Bool, false, Map, List, [], ◌∷◌, Option, none, some, Bytes, str_eq, ltb, leb, length, ◌≡◌,
  refl, sym, ◌∙◌, All, Bool-cases, Option-cases, inl, inr,
}
use mini_dht.Base.Maps.{find, ltb-IsStrictOrder, find-insert_or_assign_self}
use mini_dht.Key.Bits.{alpha, bucket_size}
use mini_dht.Contact.{EndpointProto, DataItemProto, ContactProto}
use mini_dht.Bucket.{
  Entry, Bucket, Order, bucket_number, find_key, to_time_t, new_contact, insert_new, evict,
  erase_first, time_positions, refresh, refresh_entry, add_contact, build_proximity,
}
use mini_dht.Bucket.Multimap.{count, erase_at, All-insert, All-erase_at}
use mini_dht.Bucket.Valid.{All-refresh_entry}
use mini_dht.Search.{
  Search, SearchType, node_search, value_search, store_search, new_search, update_list, node_keys,
  value_keys,
}
use mini_dht.Node.State.{Env, Node, Result, ok, fault, ◌>>=◌, draw_token}
use mini_dht.Node.Send.{send_store_to, send_find_node_to, send_find_value_to}
use mini_dht.Node.Iterate.{
  put_search, erase_search, for_each, call_node_callback, ask_nodes, reply_iterative_node_search,
  reply_iterative_value_search, reply_iterative_store_search, reply_iterative_as, reply_iterative,
  known_contacts, start_node_lookup, iterative_store, iterative_find_node, iterative_find_value,
}
use mini_dht.Node.Keeps.{
  Keeps, for_each-Keeps, send_store_to-Keeps, send_find_node_to-Keeps, send_find_value_to-Keeps,
}

module _ (P : Bytes → Type 0) where
  -- The keys of a list of contacts.
  abbrev pub Keyed : List Entry → Type 0
  Keyed = All (λ e. P e.1.key)

  -- Every contact has one of these keys, and the node has this id.
  pub record IsKnown (id : Bytes) (n : Node) : Type 0 where
    pub contacts : Keyed n.contact_list.entries
    pub same_id : n.id ≡ id

  -- What a handler ends in, if it ends without a fault.
  abbrev pub EndsKnown : Bytes → Result Node → Type 0
  EndsKnown id (ok n) = IsKnown id n
  EndsKnown id (fault e) = Unit

  pub IsKnown-Keeps : {id : Bytes} {n n' : Node} → Keeps n n' → IsKnown id n → IsKnown id n'
  IsKnown-Keeps k s = record {
    contacts = rw k.same_contacts s.contacts;
    same_id = k.same_id ∙ s.same_id;
  }

  pub then_known :
      {id : Bytes} (r : Result Node) (f : Node → Result Node)
      → EndsKnown id r
      → ((n : Node) → IsKnown id n → EndsKnown id (f n))
      → EndsKnown id (r >>= f)
  then_known (ok n) f s g = g n s
  then_known (fault e) f s g = tt

  erase_first-Keyed : (m : Map ℕ ℕ) (es : List Entry) → Keyed es → Keyed (erase_first m es)
  unfolding erase_first
  erase_first-Keyed [] es a = a
  erase_first-Keyed ((t, i) ∷ m) es a = All-erase_at (λ e. P e.1.key) i es a

  insert_new-Keyed :
      (order : Order) (n : ℕ) (c : ContactProto) (es : List Entry)
      → P c.key
      → Keyed es
      → Keyed (insert_new order n c es)
  unfolding insert_new evict
  insert_new-Keyed order n c es p a = elim (Bool-cases (leb bucket_size (count n es))) [
    | inl full ↦ rw full (
        All-insert (λ e. P e.1.key) n c (erase_first (time_positions order n 0 es []) es) p
          (erase_first-Keyed (time_positions order n 0 es []) es a))
    | inr room ↦ rw room (All-insert (λ e. P e.1.key) n c es p a)
  ]

  pub add_contact-Keyed :
      (order : Order) (now : ℕ) (k : Bytes) (ep : EndpointProto) (b : Bucket)
      → P k
      → Keyed b.entries
      → Keyed (add_contact order now k ep b).entries
  unfolding add_contact new_contact
  add_contact-Keyed order now k ep b p a = elim (Bool-cases (str_eq k b.local_key)) [
    | inl self ↦ rw self a
    | inr other ↦ elim (Option-cases (find_key k b)) [
      | inl missing ↦
          rw (other, missing, add_contact)
            (insert_new-Keyed order (bucket_number b.local_key k) (new_contact k ep (to_time_t now))
              b.entries p a)
      | inr (c, found) ↦
          rw (other, found, add_contact)
            (All-refresh_entry (λ m j. P j) (bucket_number b.local_key k) k ep (to_time_t now)
              b.entries a)
    ]
  ]

  module _ (id : Bytes) where
    call_node_callback-IsKnown :
        (s : Search) (n : Node) → IsKnown id n → IsKnown id (call_node_callback s n)
    unfolding call_node_callback
    call_node_callback-IsKnown s n h = elim (Bool-cases s.node_callback_valid) [
      | inl valid ↦ elim (Option-cases s.node_callback) [
        | inl missing ↦ rw (valid, missing, call_node_callback) h
        | inr (c, found) ↦
            rw (valid, found, call_node_callback)
              (record { contacts = h.contacts; same_id = h.same_id })
      ]
      | inr invalid ↦ rw invalid h
    ]

    module _ (env : Env) where
      ask_nodes-EndsKnown :
          (send : Bytes → Node → Node)
          → ((k : Bytes) (n : Node) → Keeps n (send k n))
          → (t : ℕ) (s : Search) (n : Node) → IsKnown id n
          → EndsKnown id (ask_nodes env send t s n)
      unfolding ask_nodes put_search
      ask_nodes-EndsKnown send keeps t s n h = elim (Option-cases (node_keys alpha s)) [
        | inl e ↦ rw (e, ask_nodes) tt
        | inr ((ks, s'), e) ↦
            rw (e, ask_nodes)
              (IsKnown-Keeps (for_each-Keeps send keeps ks (put_search t s' n))
                (record { contacts = h.contacts; same_id = h.same_id }))
      ]

      search-EndsKnown :
          (ty : SearchType) (lc : List ContactProto) (t : ℕ) (k : Bytes) (s : Search) (n : Node)
          → IsKnown id n
          → EndsKnown id (reply_iterative_as env ty lc t k s n)
      unfolding reply_iterative_as reply_iterative_node_search reply_iterative_value_search
          reply_iterative_store_search erase_search
      search-EndsKnown node_search lc t k s n h =
          let (full, s') = update_list lc s in
          elim (Bool-cases full) [
            | inl filled ↦
                let called = call_node_callback-IsKnown s' n h in
                rw filled (record { contacts = called.contacts; same_id = called.same_id })
            | inr open_yet ↦ rw open_yet (
                ask_nodes-EndsKnown (λ key. send_find_node_to env key k t)
                  (λ key n'. send_find_node_to-Keeps env key k t n') t s' n h)
          ]
      search-EndsKnown value_search lc t k s n h =
          ask_nodes-EndsKnown (λ key. send_find_value_to env key k t [])
            (λ key n'. send_find_value_to-Keeps env key k t [] n') t ((update_list lc s).1) n h
      search-EndsKnown store_search lc t k s n h =
          let (full, s') = update_list lc s in
          elim (Bool-cases full) [
            | inl filled ↦ elim (Option-cases (value_keys (length s'.short_list) s')) [
              | inl e ↦ rw (filled, e) tt
              | inr ((ks, s''), e) ↦
                  let sent : IsKnown id
                      (for_each (λ key. send_store_to env key k s''.buffer t) ks n) =
                    IsKnown-Keeps
                      (for_each-Keeps (λ key. send_store_to env key k s''.buffer t)
                        (λ key n'. send_store_to-Keeps env key k s''.buffer t n') ks n)
                      h in
                  rw (filled, e) (record { contacts = sent.contacts; same_id = sent.same_id })
            ]
            | inr open_yet ↦ rw open_yet (
                ask_nodes-EndsKnown (λ key. send_find_node_to env key k t)
                  (λ key n'. send_find_node_to-Keeps env key k t n') t s' n h)
          ]

      pub reply_iterative-EndsKnown :
          (lc : List ContactProto) (t : ℕ) (k : Bytes) (n : Node)
          → IsKnown id n
          → EndsKnown id (reply_iterative env lc t k n)
      unfolding reply_iterative
      reply_iterative-EndsKnown lc t k n h = elim (Option-cases (find ltb t n.map_search)) [
        | inl e ↦ rw (e, reply_iterative) tt
        | inr (s, e) ↦ rw (e, reply_iterative) (search-EndsKnown s.search_type lc t k s n h)
      ]

      -- A look-up for a search that was put in the table.
      looked_up :
          (t : ℕ) (k : Bytes) (s : Search) (n : Node)
          → IsKnown id n
          → EndsKnown id (start_node_lookup env t k (put_search t s n))
      unfolding start_node_lookup put_search build_proximity
      looked_up t k s n h =
          let (m, b) = build_proximity k n.contact_list in
          reply_iterative-EndsKnown (known_contacts env b m) t k
            (record (put_search t s n) { contact_list = b })
            (elim (Bool-cases n.contact_list.changed) [
              | inl changed ↦ rw changed (record { contacts = h.contacts; same_id = h.same_id })
              | inr same ↦ rw same (record { contacts = h.contacts; same_id = h.same_id })
            ])

      pub iterative_store-EndsKnown :
          (now : ℕ) (k : Bytes) (d : DataItemProto) (n : Node)
          → IsKnown id n
          → EndsKnown id (iterative_store env now k d n)
      unfolding iterative_store draw_token
      iterative_store-EndsKnown now k d n h =
          let (t, n') = draw_token env n in
          looked_up t k (record (new_search now n.id k store_search) { buffer = d }) n'
            (record { contacts = h.contacts; same_id = h.same_id })

      pub iterative_find_node-EndsKnown :
          (now : ℕ) (k : Bytes) (n : Node)
          → IsKnown id n
          → EndsKnown id (iterative_find_node env now k n)
      unfolding iterative_find_node draw_token
      iterative_find_node-EndsKnown now k n h =
          let (t, n') = draw_token env n in
          looked_up t k (record (new_search now n.id k node_search) { node_callback_valid = false })
            n' (record { contacts = h.contacts; same_id = h.same_id })

      pub iterative_find_value-EndsKnown :
          (now : ℕ) (k : Bytes) (c : Option ℕ) (hint : Bytes) (n : Node)
          → IsKnown id n
          → EndsKnown id (iterative_find_value env now k c hint n)
      unfolding iterative_find_value draw_token
      iterative_find_value-EndsKnown now k c hint n h =
          let (t, n') = draw_token env n in
          looked_up t k
            (record (new_search now n.id k value_search) { value_callback = c; hint = hint }) n'
            (record { contacts = h.contacts; same_id = h.same_id })
