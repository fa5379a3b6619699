-- ===== src/Node/Eviction.antt =====
-- `insert_db` of Sources/miniDHT.cpp: the loop that makes room, and the tables after it.
use mini_dht.Base.{
  ℕ, zero, suc, ◌+◌, ◌≤◌, ◌<◌, false, List, [], ◌∷◌, ◌++◌, Bytes, str_eq, ltb, leb, ◌==◌, ◌≡◌, refl,
  sym, ◌∙◌, ap, inl, inr, arith, All, filter_by, count_by, length, Bool-cases, map, not, Option,
  inl, inr, ◌*◌, Option-cases, List-cases, count_by_none, All-filter_by, length-append, ==_iff,
}
use mini_dht.Contact.{DataItemProto}
use mini_dht.Db.MultiKey.{
  HeaderRow, TimeRow, ItemRow, MultiKeyDb, has_key, has_title, id_in, insert, remove_oldest,
  delete_where, count, size, cross, find_no_blob,
}
use mini_dht.Db.Consistent.{IsConsistent, insert-IsConsistent, update-IsConsistent}
use mini_dht.Base.Lists.{length-map}
use mini_dht.Db.Rows.{length-cross, selected_times}
use mini_dht.Db.Oldest.{OldRow, IsOrdering, remove_oldest-size}
use mini_dht.Node.State.{Env, Node, ok, fault, out_of_fuel}
use mini_dht.Node.Store.{refresh_item, drop_oldest, insert_db}

abbrev pub OtherTitle : Bytes → DataItemProto → Type 0
OtherTitle title d = str_eq d.title title ≡ false

abbrev FoundRow : Type 0
FoundRow = HeaderRow × (TimeRow × ItemRow)

abbrev found_item : FoundRow → DataItemProto
found_item r = record { ttl = r.1.0.ttl; time = r.1.0.time; title = r.0.title; blob = [] }

All-append_right {ℓ} : {A : Type ℓ} (P : A → Type 0) (xs ys : List A) → All P (xs ++ ys) → All P ys
All-append_right P [] ys a = a
All-append_right P (x ∷ xs) ys a = All-append_right P xs ys a.1

All-of_map {ℓ κ} :
    {A : Type ℓ} {B : Type κ} (P : B → Type 0) (f : A → B) (xs : List A)
    → All P (map f xs)
    → All (λ x. P (f x)) xs
All-of_map P f [] a = tt
All-of_map P f (x ∷ xs) a = (a.0, All-of_map P f xs a.1)

-- The titles that are found are those of all headers with the key, if there is a row to pair.
title_absent :
    (k title : Bytes) (y : TimeRow × ItemRow) (ys : List (TimeRow × ItemRow)) (hs : List HeaderRow)
    → All {A = FoundRow}
        (λ r. str_eq r.0.title title ≡ false)
        (cross (filter_by (has_key k) hs) (y ∷ ys))
    → count_by (has_title k title) hs ≡ 0
unfolding cross has_title has_key
title_absent k title y ys [] a = refl
title_absent k title y ys (h ∷ hs) a = elim (Bool-cases (str_eq h.key k)) [
  | inl same ↦
      let rest : List FoundRow = cross (filter_by (has_key k) hs) (y ∷ ys) in
      let b : All {A = FoundRow} (λ r. str_eq r.0.title title ≡ false)
          ((h, y) ∷ map {B = FoundRow} (λ z. (h, z)) ys ++ rest) =
        rw (same, cross) at a in
      rw (same, b.0)
        (title_absent k title y ys hs (
          All-append_right {A = FoundRow} (λ r. str_eq r.0.title title ≡ false)
            (map {B = FoundRow} (λ z. (h, z)) ys) rest b.1))
  | inr other ↦ rw other (title_absent k title y ys hs (rw other at a))
]

zero_product : (a b : ℕ) → a * b ≡ 0 → a ≤ b → a ≡ 0
zero_product zero b e le = refl
zero_product (suc a) zero e le = absurd (omega arith)
zero_product (suc a) (suc b) e le = absurd (omega (arith, e))

fewer_titles :
    (k title : Bytes) (hs : List HeaderRow)
    → (count_by (has_title k title) hs ≤ count_by (has_key k) hs)
      × (count_by (has_key k) hs ≤ length hs)
unfolding has_title has_key
fewer_titles k title [] = (omega arith, omega arith)
fewer_titles k title (h ∷ hs) =
    let (a, b) = fewer_titles k title hs in (ground (arith, a), ground (arith, b))

-- If no item that is found has the title, no header has the key and the title.
title_fresh :
    (k title : Bytes) (db : MultiKeyDb)
    → IsConsistent db
    → All (OtherTitle title) (find_no_blob k db)
    → count_by (has_title k title) db.headers ≡ 0
unfolding find_no_blob
title_fresh k title db c a =
    let ts = filter_by (λ t. id_in t.time_id (has_key k) db.headers) db.times in
    let b : All {A = FoundRow} (λ r. str_eq r.0.title title ≡ false)
        (cross (filter_by (has_key k) db.headers) (cross ts db.items)) =
      All-of_map (OtherTitle title) found_item
        (cross (filter_by (has_key k) db.headers) (cross ts db.items)) a in
    let (le, few) = fewer_titles k title db.headers in
    elim (List-cases (cross ts db.items)) [
      | inl e ↦
          let both : length ts * length db.items ≡ 0 =
            sym (length-cross ts db.items) ∙ ap length e in
          let n : length ts ≡ count_by (has_key k) db.headers = selected_times (has_key k) db c in
          let m : length db.items ≡ length db.headers =
            sym (length-map (λ i. i.item_id) db.items)
            ∙ ap length c.items
            ∙ length-map (λ h. h.id) db.headers in
          let none_left =
            zero_product (length ts) (length db.items) both (omega (arith, n, m, few)) in
          omega (arith, none_left, n, le)
      | inr (y, ys, e) ↦ title_absent k title y ys db.headers (rw e at b)
    ]

remove_oldest-All :
    (first_row : List OldRow → Option OldRow) (P : HeaderRow → Type 0) (db : MultiKeyDb)
    → All P db.headers
    → All P (remove_oldest first_row db).headers
unfolding remove_oldest delete_where
remove_oldest-All first_row P db a = elim (Option-cases (first_row (cross db.headers db.times))) [
  | inl e ↦ rw (e, remove_oldest, All) a
  | inr (r, e) ↦
      rw (e, remove_oldest, All) (All-filter_by P (λ g. not (g.id == r.0.id)) db.headers a)
]

pub key_absent :
    (k : Bytes) (hs : List HeaderRow)
    → All (λ h. has_key k h ≡ false) hs
    → count_by (has_key k) hs ≡ 0
key_absent k [] a = refl
key_absent k (h ∷ hs) a = rw a.0 (key_absent k hs a.1)

size-insert :
    (k title : Bytes) (time ttl : ℕ) (blob : Bytes) (db : MultiKeyDb)
    → size (insert k title time ttl blob db) ≡ size db + 1
unfolding insert size
size-insert k title time ttl blob db =
    length-append db.headers (record { id = db.next_id; key = k; title = title } ∷ [])

-- The rows that the loop of `insert_db` has passed have other titles.
refresh_item-IsConsistent :
    (now : ℕ) (k : Bytes) (d : DataItemProto) (db : MultiKeyDb)
    → IsConsistent db
    → (xs : List DataItemProto)
    → (All (OtherTitle d.title) xs → count_by (has_title k d.title) db.headers ≡ 0)
    → IsConsistent (refresh_item now k d xs db)
unfolding refresh_item
refresh_item-IsConsistent now k d db c [] absent =
    insert-IsConsistent k d.title d.time d.ttl d.blob db (absent tt) c
refresh_item-IsConsistent now k d db c (x ∷ xs) absent =
    elim (Bool-cases (str_eq x.title d.title)) [
      | inl same ↦ elim (Bool-cases (ltb (now + x.time) (now + d.time))) [
        | inl newer ↦ rw (same, newer) (update-IsConsistent k d.title d.time d.ttl db c)
        | inr older ↦ rw (same, older) c
      ]
      | inr other ↦ rw other (refresh_item-IsConsistent now k d db c xs (λ a. absent (other, a)))
    ]

module _ (env : Env) where
  -- If no record may be kept, the loop that makes room has not ended after any number of rounds.
  pub drop_oldest_endless :
      (fuel : ℕ) (db : MultiKeyDb) → drop_oldest env fuel 0 db ≡ fault out_of_fuel
  unfolding drop_oldest
  drop_oldest_endless zero db = ground arith
  drop_oldest_endless (suc fuel) db =
      ground (arith, drop_oldest_endless fuel (remove_oldest env.first_row db))

  pub drop_oldest_ends :
      IsOrdering env.first_row
      → (fuel max_records : ℕ) (db : MultiKeyDb) → IsConsistent db
      → 0 < max_records
      → size db ≤ fuel
      → (db' : MultiKeyDb) × (drop_oldest env fuel max_records db ≡ ok db')
        × (size db' < max_records)
        × IsConsistent db'
        × ((P : HeaderRow → Type 0) → All P db.headers → All P db'.headers)
  unfolding drop_oldest
  drop_oldest_ends order zero max_records db c pos enough =
      (db, ground arith, omega arith, c, λ P a. a)
  drop_oldest_ends order (suc fuel) max_records db c pos enough =
      elim (Bool-cases (leb max_records (size db))) [
        | inl full ↦
            let filled : max_records ≤ size db = ground arith in
            let (less, c') = remove_oldest-size env.first_row order db c (omega arith) in
            let (db', e, small, cons, keeps) =
              drop_oldest_ends order fuel max_records (remove_oldest env.first_row db) c' pos
                (omega arith) in
            rw full (db', e, small, cons, λ P a. keeps P (remove_oldest-All env.first_row P db a))
        | inr room ↦ rw room (db, refl, ground arith, c, λ P a. a)
      ]

  -- In a consistent store that may hold a record, with a database that orders its rows as it
  -- documents, `insert_db` ends and leaves a consistent store; if the key is new, the store holds
  -- no more than `max_records` headers after it.
  pub insert_db-IsConsistent :
      IsOrdering env.first_row
      → (now : ℕ) (k : Bytes) (d : DataItemProto) (n : Node) → IsConsistent n.db_storage
      → 0 < n.max_records
      → (db' : MultiKeyDb) × (insert_db env now k d n ≡ ok (record n { db_storage = db' }))
        × IsConsistent db'
        × (count k n.db_storage ≡ 0 → size db' ≤ n.max_records)
  unfolding insert_db count
  insert_db-IsConsistent order now k d n c pos = elim (Bool-cases (count k n.db_storage == 0)) [
    | inl absent ↦
        let (db', e, room, c', keeps) =
          drop_oldest_ends order (size n.db_storage) n.max_records n.db_storage c pos
            (omega arith) in
        let gone : count_by (has_key k) db'.headers ≡ 0 = key_absent k db'.headers (
          keeps (λ h. has_key k h ≡ false)
            (count_by_none (has_key k) n.db_storage.headers
              ((==_iff (count k n.db_storage) 0).0 absent))) in
        let (le, _) = fewer_titles k d.title db'.headers in
        rw (absent, e)
          (
            insert k d.title d.time d.ttl d.blob db',
            refl,
            insert-IsConsistent k d.title d.time d.ttl d.blob db' (omega (arith, gone, le)) c',
            λ z. omega (arith, room, size-insert k d.title d.time d.ttl d.blob db'),
          )
    | inr present ↦ rw present (
      refresh_item now k d (find_no_blob k n.db_storage) n.db_storage,
      refl,
      refresh_item-IsConsistent now k d n.db_storage c (find_no_blob k n.db_storage)
          (title_fresh k d.title n.db_storage c),
      λ e. ground arith,
    )
  ]
