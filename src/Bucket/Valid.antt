-- ===== src/Bucket/Valid.antt =====
-- The invariant of the contact list, and that `add_contact` keeps it.
use mini_dht.Base.{
  ℕ, zero, suc, ◌≤◌, ◌<◌, ◌≡◌, refl, sym, ◌∙◌, ap, ◌≢◌, Bool, true, false, List, [], ◌∷◌, none,
  some, arith, Bytes, str_eq, str_eq_iff, ltb, leb, ◌==◌, ==_iff, All, Bool-cases, Option-cases,
  inl, inr, ◌↔◌,
}
use mini_dht.Key.Bits.{bucket_size}
use mini_dht.Contact.{EndpointProto, ContactProto}
use mini_dht.Bucket.Multimap.{
  insert, count, erase_at, IsSorted, count-insert, All-insert, insert-IsSorted, All-erase_at,
  erase_at-IsSorted, count-erase_at,
}
use mini_dht.Bucket.{
  Bucket, Entry, Order, new_bucket, bucket_number, is_entry, find_entry, find_key, refresh,
  refresh_entry, new_contact, insert_new, add_contact, to_time_t,
}
use mini_dht.Bucket.Evict.{Earliest, evict-Earliest}

-- No two entries have the same key.
abbrev pub Distinct : List Entry → Type 0
Distinct [] = Unit
Distinct (e ∷ es) = All (λ f. f.1.key ≢ e.1.key) es × Distinct es

-- Entries stand under the number of their key, by rising numbers, at most BUCKET_SIZE to a number,
-- with different keys and never the node's own.
pub record IsValid (b : Bucket) : Type 0 where
  pub sorted : IsSorted b.entries
  pub placed : All (λ e. e.0 ≡ bucket_number b.local_key e.1.key) b.entries
  pub others : All (λ e. e.1.key ≢ b.local_key) b.entries
  pub distinct : Distinct b.entries
  pub small : (n : ℕ) → count n b.entries ≤ bucket_size

pub new_bucket-IsValid : (k : Bytes) → IsValid (new_bucket k)
unfolding new_bucket count
new_bucket-IsValid k = record {
  sorted = tt;
  placed = tt;
  others = tt;
  distinct = tt;
  small = λ n. omega arith;
}

pub is_entry_iff :
    (n : ℕ) (k : Bytes) (e : Entry) → (is_entry n k e ≡ true) ↔ ((e.0 ≡ n) × (e.1.key ≡ k))
unfolding is_entry
is_entry_iff n k e =
    (λ h. ground (arith, str_eq_iff e.1.key k), λ h. ground (arith, str_eq_iff e.1.key k))

-- A search that misses: no entry has the key, if entries stand under their numbers.
pub find_entry-none :
    (local k : Bytes) (es : List Entry)
    → All (λ e. e.0 ≡ bucket_number local e.1.key) es
    → find_entry (bucket_number local k) k es ≡ none
    → All (λ e. e.1.key ≢ k) es
unfolding find_entry
find_entry-none local k [] p h = tt
find_entry-none local k (e ∷ es) p h = elim (Bool-cases (is_entry (bucket_number local k) k e)) [
  | inl hit ↦ absurd (some-ne-none (rw hit at h))
  | inr miss ↦ (
    λ same. true-ne-false (
        sym
          ((is_entry_iff (bucket_number local k) k e).1 (p.0 ∙ ap (bucket_number local) same, same))
        ∙ miss),
    find_entry-none local k es p.1 (rw miss at h),
  )
]
  where
    some-ne-none : {c : ContactProto} → some c ≡ none → ⊥
    some-ne-none q = cc

    true-ne-false : ◌≡◌ {A = Bool} true false → ⊥
    true-ne-false q = cc

Distinct-insert :
    (n : ℕ) (c : ContactProto) (es : List Entry)
    → All (λ e. e.1.key ≢ c.key) es
    → Distinct es
    → Distinct (insert n c es)
unfolding insert
Distinct-insert n c [] a d = (tt, tt)
Distinct-insert n c (e ∷ es) a d = elim (Bool-cases (ltb n e.0)) [
  | inl before ↦ rw before (a, d)
  | inr behind ↦ rw behind (
    All-insert (λ f. f.1.key ≢ e.1.key) n c es (λ q. a.0 (sym q)) d.0,
    Distinct-insert n c es a.1 d.1,
  )
]

pub Distinct-erase_at : (i : ℕ) (es : List Entry) → Distinct es → Distinct (erase_at i es)
unfolding erase_at
Distinct-erase_at i [] d = tt
Distinct-erase_at zero (e ∷ es) d = d.1
Distinct-erase_at (suc i) (e ∷ es) d =
    (All-erase_at (λ f. f.1.key ≢ e.1.key) i es d.0, Distinct-erase_at i es d.1)

-- A contact that is refreshed keeps its key.
pub key-refresh : (ep : EndpointProto) (t : ℕ) (c : ContactProto) → (refresh ep t c).key ≡ c.key
unfolding refresh
key-refresh ep t c = ground arith

module _ {ℓ} (P : ℕ → Bytes → Type ℓ) (n : ℕ) (k : Bytes) (ep : EndpointProto) (t : ℕ) where
  -- What holds of numbers and keys is kept.
  pub All-refresh_entry :
      (es : List Entry)
      → All (λ e. P e.0 e.1.key) es
      → All (λ e. P e.0 e.1.key) (refresh_entry n k ep t es)
  unfolding refresh_entry
  All-refresh_entry [] h = tt
  All-refresh_entry (e ∷ es) h = elim (Bool-cases (is_entry n k e)) [
    | inl hit ↦ rw hit (rw (key-refresh ep t e.1) h.0, h.1)
    | inr miss ↦ rw miss (h.0, All-refresh_entry es h.1)
  ]

module _ (n : ℕ) (k : Bytes) (ep : EndpointProto) (t : ℕ) where
  refresh_entry-IsSorted : (es : List Entry) → IsSorted es → IsSorted (refresh_entry n k ep t es)
  unfolding refresh_entry
  refresh_entry-IsSorted [] h = tt
  refresh_entry-IsSorted (e ∷ es) h = elim (Bool-cases (is_entry n k e)) [
    | inl hit ↦ rw hit h
    | inr miss ↦
        rw miss (All-refresh_entry (λ m j. e.0 ≤ m) n k ep t es h.0, refresh_entry-IsSorted es h.1)
  ]

  refresh_entry-Distinct : (es : List Entry) → Distinct es → Distinct (refresh_entry n k ep t es)
  unfolding refresh_entry
  refresh_entry-Distinct [] h = tt
  refresh_entry-Distinct (e ∷ es) h = elim (Bool-cases (is_entry n k e)) [
    | inl hit ↦ rw (hit, key-refresh ep t e.1) h
    | inr miss ↦
        rw miss
          (All-refresh_entry (λ m j. j ≢ e.1.key) n k ep t es h.0, refresh_entry-Distinct es h.1)
  ]

  count-refresh_entry : (m : ℕ) (es : List Entry) → count m (refresh_entry n k ep t es) ≡ count m es
  unfolding count refresh_entry
  count-refresh_entry m [] = refl
  count-refresh_entry m (e ∷ es) = ground (arith, count-refresh_entry m es)

-- What the eviction of an entry from a full bucket comes to.
pub insert_new_cases {ℓ} :
    (P : List Entry → Type ℓ) (order : Order) (n : ℕ) (c : ContactProto) (es : List Entry)
    → (count n es < bucket_size → P (insert n c es))
    → ((i : ℕ) → Earliest order n es i → bucket_size ≤ count n es → P (insert n c (erase_at i es)))
    → P (insert_new order n c es)
unfolding insert_new
insert_new_cases P order n c es room full = elim (Bool-cases (leb bucket_size (count n es))) [
  | inl h ↦
      let (i, old, e) = evict-Earliest order n es (ground arith) in
      rw (h, e) (full i old (ground arith))
  | inr h ↦ rw h (room (ground arith))
]

module _ (local k : Bytes) (c : ContactProto) (es : List Entry) (same : c.key ≡ k) where
  -- A new entry under the number of its key, in a list that lacks the key.
  insert-IsValid :
      {b : Bucket}
      → b.local_key ≡ local
      → b.entries ≡ insert (bucket_number local k) c es
      → k ≢ local
      → All (λ e. e.1.key ≢ k) es
      → IsSorted es
      → All (λ e. e.0 ≡ bucket_number local e.1.key) es
      → All (λ e. e.1.key ≢ local) es
      → Distinct es
      → ((n : ℕ) → count n es ≤ bucket_size)
      → count (bucket_number local k) es < bucket_size
      → IsValid b
  insert-IsValid at e other fresh sorted placed others distinct small room =
      let n = bucket_number local k in
      record {
        sorted = rw e (insert-IsSorted n c es sorted);
        placed =
            rw (e, at)
              (All-insert (λ f. f.0 ≡ bucket_number local f.1.key) n c es
                (ap (bucket_number local) (sym same)) placed);
        others =
            rw (e, at)
              (All-insert (λ f. f.1.key ≢ local) n c es (λ q. other (sym same ∙ q)) others);
        distinct = rw e (Distinct-insert n c es (rw same fresh) distinct);
        small = λ m.
            rw (e, count-insert m n c es)
              (elim (Bool-cases (n == m)) [
                | inl hit ↦ rw (hit, ← (==_iff n m).0 hit) room
                | inr miss ↦ rw miss (small m)
              ]);
      }

-- An eviction makes room in its bucket and adds to none.
count-erase_at-Earliest :
    (order : Order) (n i : ℕ) (es : List Entry)
    → Earliest order n es i
    → count n es ≤ bucket_size
    → (count n (erase_at i es) < bucket_size) × ((m : ℕ) → count m (erase_at i es) ≤ count m es)
count-erase_at-Earliest order n i es old small = (
  ground (arith, count-erase_at n i es old.entry old.found, old.numbered),
  λ m. ground (arith, count-erase_at m i es old.entry old.found),
)

module _ (order : Order) (now : ℕ) (k : Bytes) (ep : EndpointProto) (b : Bucket)
    (v : IsValid b) where
  new_number : ℕ
  new_number = bucket_number b.local_key k

  new_one : ContactProto
  new_one = new_contact k ep (to_time_t now)

  add_missing :
      str_eq k b.local_key ≡ false
      → find_key k b ≡ none
      → IsValid (record b {
        now = now;
        entries = insert_new order new_number new_one b.entries;
        changed = true;
      })
  unfolding new_number new_one find_key new_contact
  add_missing other missing =
      let fresh = find_entry-none b.local_key k b.entries v.placed missing in
      let apart : k ≢ b.local_key =
        λ e. false-ne-true (sym other ∙ (str_eq_iff k b.local_key).1 e) in
      insert_new_cases (λ es. IsValid (record b { now = now; entries = es; changed = true })) order
        new_number new_one b.entries
        (λ room.
          insert-IsValid b.local_key k new_one b.entries refl refl refl apart fresh v.sorted
            v.placed v.others v.distinct v.small room)
        λ i old full.
          let (room, fewer) =
            count-erase_at-Earliest order new_number i b.entries old (v.small new_number) in
          insert-IsValid b.local_key k new_one (erase_at i b.entries) refl refl refl apart
            (All-erase_at (λ e. e.1.key ≢ k) i b.entries fresh)
            (erase_at-IsSorted i b.entries v.sorted)
            (All-erase_at (λ e. e.0 ≡ bucket_number b.local_key e.1.key) i b.entries v.placed)
            (All-erase_at (λ e. e.1.key ≢ b.local_key) i b.entries v.others)
            (Distinct-erase_at i b.entries v.distinct) (λ m. omega (arith, fewer m, v.small m)) room
    where
      false-ne-true : ◌≡◌ {A = Bool} false true → ⊥
      false-ne-true q = cc

  refresh_found :
      IsValid
        (record b { now = now; entries = refresh_entry new_number k ep (to_time_t now) b.entries })
  refresh_found =
      let t = to_time_t now in
      let n = new_number in
      record {
        sorted = refresh_entry-IsSorted n k ep t b.entries v.sorted;
        placed =
            All-refresh_entry (λ m j. m ≡ bucket_number b.local_key j) n k ep t b.entries v.placed;
        others = All-refresh_entry (λ m j. j ≢ b.local_key) n k ep t b.entries v.others;
        distinct = refresh_entry-Distinct n k ep t b.entries v.distinct;
        small = λ m. rw (count-refresh_entry n k ep t m b.entries) (v.small m);
      }

-- `add_contact` keeps a well-formed contact list well formed, also where it evicts: sorted by
-- number, each contact filed under the number of bits it shares with the node's key, no key twice
-- and not the node's own, and no bucket with more than BUCKET_SIZE contacts.
pub add_contact-IsValid :
    (order : Order) (now : ℕ) (k : Bytes) (ep : EndpointProto) (b : Bucket)
    → IsValid b
    → IsValid (add_contact order now k ep b)
unfolding add_contact new_number new_one
add_contact-IsValid order now k ep b v = elim (Bool-cases (str_eq k b.local_key)) [
  | inl self ↦ rw self v
  | inr other ↦ elim (Option-cases (find_key k b)) [
    | inl missing ↦ rw (other, missing, add_contact) (add_missing order now k ep b v other missing)
    | inr (c, found) ↦ rw (other, found, add_contact) (refresh_found order now k ep b v)
  ]
]
