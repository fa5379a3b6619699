-- ===== src/Bucket/Lookup.antt =====
-- What `find_key` finds after `add_contact`.
use mini_dht.Base.{
  ℕ, zero, suc, ◌≤◌, ◌<◌, ◌≡◌, refl, sym, ◌∙◌, ◌≢◌, ◌⊎◌, false, List, [], ◌∷◌, none, some, arith,
  Bytes, str_eq, str_eq_iff, ==_iff, Bool-cases, Option-cases, inl, inr,
}
use mini_dht.Key.Bits.{bucket_size}
use mini_dht.Contact.{EndpointProto, ContactProto, endpoint_ne}
use mini_dht.Contact.Address.{endpoint_eq_sound}
use mini_dht.Bucket.Multimap.{insert, count, erase_at, entry_at}
use mini_dht.Bucket.{
  Bucket, Entry, Order, bucket_number, is_entry, find_entry, find_key, refresh, refresh_entry,
  new_contact, insert_new, add_contact, to_time_t,
}
use mini_dht.Bucket.Valid.{is_entry_iff, insert_new_cases, key-refresh}

module _ (n : ℕ) (k : Bytes) where
  find_entry-insert_self :
      (c : ContactProto) (es : List Entry)
      → c.key ≡ k
      → find_entry n k es ≡ none
      → find_entry n k (insert n c es) ≡ some c
  unfolding find_entry insert
  find_entry-insert_self c [] e h = ground (arith, is_entry_iff n k (n, c))
  find_entry-insert_self c (x ∷ es) e h =
      ground (arith, is_entry_iff n k (n, c), find_entry-insert_self c es e)

  find_entry-insert_ne :
      (m : ℕ) (c : ContactProto) (es : List Entry)
      → k ≢ c.key
      → find_entry n k (insert m c es) ≡ find_entry n k es
  unfolding find_entry insert
  find_entry-insert_ne m c [] e = elim (Bool-cases (is_entry n k (m, c))) [
    | inl hit ↦ absurd (e (sym ((is_entry_iff n k (m, c)).0 hit).1))
    | inr miss ↦ rw miss
  ]
  find_entry-insert_ne m c (x ∷ es) e = elim (Bool-cases (is_entry n k (m, c))) [
    | inl hit ↦ absurd (e (sym ((is_entry_iff n k (m, c)).0 hit).1))
    | inr miss ↦ ground (arith, miss, find_entry-insert_ne m c es e)
  ]

  find_entry-none-erase_at :
      (i : ℕ) (es : List Entry) → find_entry n k es ≡ none → find_entry n k (erase_at i es) ≡ none
  unfolding find_entry erase_at
  find_entry-none-erase_at i [] h = refl
  find_entry-none-erase_at zero (x ∷ es) h = ground arith
  find_entry-none-erase_at (suc i) (x ∷ es) h = ground (arith, find_entry-none-erase_at i es)

  -- An entry of another number can go unnoticed.
  find_entry-erase_at_ne :
      (i : ℕ) (es : List Entry) (e : Entry)
      → entry_at i es ≡ some e
      → e.0 ≢ n
      → find_entry n k (erase_at i es) ≡ find_entry n k es
  unfolding find_entry erase_at entry_at
  find_entry-erase_at_ne i [] e at other = refl
  find_entry-erase_at_ne zero (x ∷ es) e at other = ground (arith, is_entry_iff n k x)
  find_entry-erase_at_ne (suc i) (x ∷ es) e at other =
      ground (arith, find_entry-erase_at_ne i es e at other)

is_entry-refresh :
    (m : ℕ) (j : Bytes) (x : Entry) (ep : EndpointProto) (t : ℕ)
    → is_entry m j (x.0, refresh ep t x.1) ≡ is_entry m j x
unfolding is_entry
is_entry-refresh m j x ep t = rw (key-refresh ep t x.1)

module _ (n : ℕ) (k : Bytes) where
  find_entry-refresh_entry_self :
      (ep : EndpointProto) (t : ℕ) (es : List Entry) (c : ContactProto)
      → find_entry n k es ≡ some c
      → find_entry n k (refresh_entry n k ep t es) ≡ some (refresh ep t c)
  unfolding find_entry refresh_entry
  find_entry-refresh_entry_self ep t [] c h = cc
  find_entry-refresh_entry_self ep t (x ∷ es) c h =
      ground (arith, is_entry-refresh n k x ep t, find_entry-refresh_entry_self ep t es c)

  find_entry-refresh_entry_ne :
      (m : ℕ) (j : Bytes) (ep : EndpointProto) (t : ℕ) (es : List Entry)
      → k ≢ j
      → find_entry n k (refresh_entry m j ep t es) ≡ find_entry n k es
  unfolding find_entry refresh_entry
  find_entry-refresh_entry_ne m j ep t [] other = refl
  find_entry-refresh_entry_ne m j ep t (x ∷ es) other = elim (Bool-cases (is_entry m j x)) [
    | inl hit ↦ elim (Bool-cases (is_entry n k x)) [
      | inl both ↦
          absurd (other (sym ((is_entry_iff n k x).0 both).1 ∙ ((is_entry_iff m j x).0 hit).1))
      | inr miss ↦ ground (arith, is_entry-refresh n k x ep t)
    ]
    | inr miss ↦ ground (arith, miss, find_entry-refresh_entry_ne m j ep t es other)
  ]

refresh_fields :
    (ep : EndpointProto) (t : ℕ) (c : ContactProto)
    → ((refresh ep t c).ep ≡ ep) × ((refresh ep t c).time ≡ some t)
unfolding refresh endpoint_ne
refresh_fields ep t c = ground (arith, endpoint_eq_sound c.ep ep)

find_entry-key :
    (n : ℕ) (k : Bytes) (es : List Entry) (c : ContactProto)
    → find_entry n k es ≡ some c
    → c.key ≡ k
unfolding find_entry
find_entry-key n k [] c h = cc
find_entry-key n k (x ∷ es) c h = ground (arith, is_entry_iff n k x, find_entry-key n k es c)

-- After `add_contact` of a key that is not the node's own, the key is found, with the end point
-- given and the time of the call, whether it was known before or not, and also where a contact was
-- evicted for it.
pub find_key-add_contact_self :
    (order : Order) (now : ℕ) (k : Bytes) (ep : EndpointProto) (b : Bucket)
    → k ≢ b.local_key
    → (c : ContactProto) × (find_key k (add_contact order now k ep b) ≡ some c)
      × (c.key ≡ k)
      × (c.ep ≡ ep)
      × (c.time ≡ some (to_time_t now))
unfolding add_contact find_key new_contact
find_key-add_contact_self order now k ep b other = elim (Option-cases (find_key k b)) [
  | inl missing ↦
      (new_contact k ep t, rw (self, missing, add_contact) (found_new missing), refl, refl, refl)
  | inr (c, found) ↦ (
    refresh ep t c,
    rw (self, found, add_contact) (find_entry-refresh_entry_self n k ep t b.entries c found),
    key-refresh ep t c ∙ find_entry-key n k b.entries c found,
    (refresh_fields ep t c).0,
    (refresh_fields ep t c).1,
  )
]
  where
    n : ℕ
    n = bucket_number b.local_key k

    t : ℕ
    t = to_time_t now

    found_new :
        find_key k b ≡ none
        → find_entry n k (insert_new order n (new_contact k ep t) b.entries)
          ≡ some (new_contact k ep t)
    found_new missing =
        insert_new_cases (λ es. find_entry n k es ≡ some (new_contact k ep t)) order n
          (new_contact k ep t) b.entries
          (λ room. find_entry-insert_self n k (new_contact k ep t) b.entries refl missing)
          λ i old full.
            find_entry-insert_self n k (new_contact k ep t) (erase_at i b.entries) refl
              (find_entry-none-erase_at n k i b.entries missing)

    self : str_eq k b.local_key ≡ false
    self = ground (arith, str_eq_iff k b.local_key)

-- After `add_contact` of a key, any other key is found as before, if the bucket of the added key
-- has room or the other key belongs to another bucket.
pub find_key-add_contact_ne :
    (order : Order) (now : ℕ) (k j : Bytes) (ep : EndpointProto) (b : Bucket)
    → j ≢ k
    → (count (bucket_number b.local_key k) b.entries < bucket_size)
      ⊎ (bucket_number b.local_key j ≢ bucket_number b.local_key k)
    → find_key j (add_contact order now k ep b) ≡ find_key j b
unfolding add_contact find_key
find_key-add_contact_ne order now k j ep b other safe = elim (Bool-cases (str_eq k b.local_key)) [
  | inl self ↦ rw self
  | inr apart ↦ elim (Option-cases (find_key k b)) [
    | inl missing ↦
        rw (apart, missing, add_contact)
          (insert_new_cases (λ es. find_entry m j es ≡ find_entry m j b.entries) order n new
            b.entries (λ room. find_entry-insert_ne m j n new b.entries other)
            λ i old full.
              find_entry-insert_ne m j n new (erase_at i b.entries) other
              ∙ find_entry-erase_at_ne m j i b.entries old.entry old.found
                  (λ e. elsewhere full (sym e ∙ (==_iff old.entry.0 n).0 old.numbered)))
    | inr (c, found) ↦
        rw (apart, found, add_contact)
          (find_entry-refresh_entry_ne m j n k ep (to_time_t now) b.entries other)
  ]
]
  where
    m : ℕ
    m = bucket_number b.local_key j

    n : ℕ
    n = bucket_number b.local_key k

    new : ContactProto
    new = new_contact k ep (to_time_t now)

    elsewhere : bucket_size ≤ count n b.entries → m ≢ n
    elsewhere full e = elim safe [ inl room ↦ absurd (omega arith) | inr apart ↦ apart e ]
