-- ===== src/Db/Rows.antt =====
-- What the statements of the two `find`s select.
use mini_dht.Base.{
  ℕ, ◌*◌, ◌≡◌, refl, sym, ◌∙◌, ap, Bool, true, false, List, [], ◌∷◌, ◌++◌, map, none, some, arith,
  Bytes, str_eq_self, length, length-append, filter_by, filter_by-append, length-filter_by,
  count_by,
}
use mini_dht.Base.Lists.{filter_by_congr, filter_by-map, filter_by_none, filter_by-not, length-map}
use mini_dht.Db.MultiKey.{
  HeaderRow, TimeRow, ItemRow, MultiKeyDb, has_key, has_title, id_in, delete_where, remove, insert,
  cross, rows_of, row_item, find, first_item, find_titled, count,
}
use mini_dht.Db.Consistent.{
  header_ids, IdsApart, IsConsistent, id_in_self, new_header, insert_new, insert-IsConsistent,
  has_title_self,
}

pub length-cross {ℓ κ} :
    {A : Type ℓ} {B : Type κ} (xs : List A) (ys : List B)
    → length (cross xs ys) ≡ length xs * length ys
unfolding cross
length-cross {A} {B} [] ys = omega arith
length-cross {A} {B} (x ∷ xs) ys = omega (
  arith,
  length-append (map {B = A × B} (λ y. (x, y)) ys) (cross xs ys),
  length-map {B = A × B} (λ y. (x, y)) ys,
  length-cross xs ys,
)

module _ (p : HeaderRow → Bool) where
  -- The ids that a test on headers selects are those of the headers that pass.
  selected_ids :
      (hs : List HeaderRow)
      → IdsApart hs
      → filter_by (λ i. id_in i p hs) (header_ids hs) ≡ header_ids (filter_by p hs)
  selected_ids hs a =
      filter_by-map (λ i. id_in i p hs) (λ h. h.id) hs
      ∙ ap header_ids (filter_by_congr (λ h. id_in h.id p hs) p hs (id_in_self p hs a))

  pub selected_times :
      (db : MultiKeyDb)
      → IsConsistent db
      → length (filter_by (λ t. id_in t.time_id p db.headers) db.times) ≡ count_by p db.headers
  selected_times db c =
      sym (length-map (λ t. t.time_id) (filter_by (λ t. id_in t.time_id p db.headers) db.times))
      ∙ ap length (
          sym (filter_by-map (λ i. id_in i p db.headers) (λ t. t.time_id) db.times)
          ∙ ap (filter_by (λ i. id_in i p db.headers)) c.times
          ∙ selected_ids db.headers c.apart)
      ∙ length-map (λ h. h.id) (filter_by p db.headers)
      ∙ length-filter_by p db.headers

  selected_items :
      (db : MultiKeyDb)
      → IsConsistent db
      → length (filter_by (λ i. id_in i.item_id p db.headers) db.items) ≡ count_by p db.headers
  selected_items db c =
      sym (length-map (λ i. i.item_id) (filter_by (λ i. id_in i.item_id p db.headers) db.items))
      ∙ ap length (
          sym (filter_by-map (λ i. id_in i p db.headers) (λ i. i.item_id) db.items)
          ∙ ap (filter_by (λ i. id_in i p db.headers)) c.items
          ∙ selected_ids db.headers c.apart)
      ∙ length-map (λ h. h.id) (filter_by p db.headers)
      ∙ length-filter_by p db.headers

  pub length-rows_of :
      (db : MultiKeyDb)
      → IsConsistent db
      → length (rows_of p db)
        ≡ count_by p db.headers * (count_by p db.headers * count_by p db.headers)
  unfolding rows_of
  length-rows_of db c = rw (
    length-cross (filter_by p db.headers) (
        cross (filter_by (λ t. id_in t.time_id p db.headers) db.times)
          (filter_by (λ i. id_in i.item_id p db.headers) db.items)),
    length-cross (filter_by (λ t. id_in t.time_id p db.headers) db.times)
        (filter_by (λ i. id_in i.item_id p db.headers) db.items),
    selected_times db c,
    selected_items db c,
    length-filter_by p db.headers,
  )

-- In a consistent store with `n` titles under a key, `find` returns n³ rows: the three tables are
-- not joined on the id.
pub length-find :
    (k : Bytes) (db : MultiKeyDb)
    → IsConsistent db
    → length (find k db) ≡ count k db * (count k db * count k db)
unfolding find count
length-find k db c = length-map row_item (rows_of (has_key k) db) ∙ length-rows_of (has_key k) db c

append-one {ℓ} : {A : Type ℓ} (xs : List A) (y : A) → length (xs ++ y ∷ []) ≡ 1 → xs ≡ []
append-one [] y h = refl
append-one (x ∷ xs) y h = absurd (omega (arith, length-append xs (y ∷ [])))

id_in-snoc :
    (p : HeaderRow → Bool) (g : HeaderRow) (hs : List HeaderRow)
    → p g ≡ true
    → id_in g.id p (hs ++ g ∷ []) ≡ true
unfolding id_in
id_in-snoc p g [] h = ground arith
id_in-snoc p g (f ∷ hs) h = ground (arith, id_in-snoc p g hs h)

pub id_in-snoc_ne :
    (p : HeaderRow → Bool) (g : HeaderRow) (i : ℕ) (hs : List HeaderRow)
    → p g ≡ false
    → id_in i p (hs ++ g ∷ []) ≡ id_in i p hs
unfolding id_in
id_in-snoc_ne p g i [] h = ground arith
id_in-snoc_ne p g i (f ∷ hs) h = ground (arith, id_in-snoc_ne p g i hs h)

module _ (k title : Bytes) (time ttl : ℕ) (blob : Bytes) (db : MultiKeyDb) (c : IsConsistent db)
    (new : count_by (has_title k title) db.headers ≡ 0) (p : HeaderRow → Bool) where
  abbrev new_time : TimeRow
  new_time = record { time_id = db.next_id; time = time; ttl = ttl }

  abbrev new_item : ItemRow
  new_item = record { item_id = db.next_id; blob = blob }

  abbrev new_headers : List HeaderRow
  new_headers = db.headers ++ new_header k title time ttl blob db ∷ []

  abbrev new_db : MultiKeyDb
  new_db = insert k title time ttl blob db

  new_db-IsConsistent : IsConsistent new_db
  new_db-IsConsistent = insert-IsConsistent k title time ttl blob db new c

  module _ (others : count_by p db.headers ≡ 0)
      (hit : p (new_header k title time ttl blob db) ≡ true) where
    headers_selected : filter_by p new_headers ≡ new_header k title time ttl blob db ∷ []
    headers_selected = rw (
      filter_by-append p db.headers (new_header k title time ttl blob db ∷ []),
      filter_by_none p db.headers others,
      hit,
    )

    one_header : count_by p new_headers ≡ 1
    one_header = sym (length-filter_by p new_headers) ∙ ap length headers_selected

    new_id : id_in db.next_id p new_headers ≡ true
    new_id = id_in-snoc p (new_header k title time ttl blob db) db.headers hit

    -- No time row that was there belongs to the new header.
    times_unselected : filter_by (λ t. id_in t.time_id p new_headers) db.times ≡ []
    times_unselected =
        let q = λ (t : TimeRow). id_in t.time_id p new_headers in
        let split : filter_by q (db.times ++ new_time ∷ [])
            ≡ filter_by q db.times ++ new_time ∷ [] =
          rw (filter_by-append q db.times (new_time ∷ []), new_id) in
        append-one (filter_by q db.times) new_time (
          ap length (sym split)
          ∙ rw (insert_new k title time ttl blob db new) at
              (selected_times p new_db new_db-IsConsistent)
          ∙ one_header)

    times_selected :
        filter_by (λ t. id_in t.time_id p new_headers) (db.times ++ new_time ∷ []) ≡ new_time ∷ []
    times_selected = rw (
      filter_by-append (λ t. id_in t.time_id p new_headers) db.times (new_time ∷ []),
      new_id,
      times_unselected,
    )

    items_selected :
        filter_by (λ i. id_in i.item_id p new_headers) (db.items ++ new_item ∷ []) ≡ new_item ∷ []
    items_selected =
        let q = λ (i : ItemRow). id_in i.item_id p new_headers in
        let split : filter_by q (db.items ++ new_item ∷ [])
            ≡ filter_by q db.items ++ new_item ∷ [] =
          rw (filter_by-append q db.items (new_item ∷ []), new_id) in
        split
        ∙ ap (λ l. l ++ new_item ∷ [])
            (append-one (filter_by q db.items) new_item (
              ap length (sym split)
              ∙ rw (insert_new k title time ttl blob db new) at
                  (selected_items p new_db new_db-IsConsistent)
              ∙ one_header))

    -- A test that the new header alone passes selects its three rows and nothing else.
    rows_of-insert :
        rows_of p new_db ≡ (new_header k title time ttl blob db, (new_time, new_item)) ∷ []
    unfolding rows_of cross
    rows_of-insert =
        rw (
          insert_new k title time ttl blob db new,
          headers_selected,
          times_selected,
          items_selected,
        )

no_title_of_key :
    (k title : Bytes) (hs : List HeaderRow)
    → count_by (has_key k) hs ≡ 0
    → count_by (has_title k title) hs ≡ 0
unfolding has_key has_title
no_title_of_key k title [] h = refl
no_title_of_key k title (g ∷ hs) h = ground (arith, no_title_of_key k title hs)

-- In a consistent store, a key that is new is found after an insertion, with exactly the item
-- inserted.
pub find-insert :
    (k title : Bytes) (time ttl : ℕ) (blob : Bytes) (db : MultiKeyDb)
    → IsConsistent db
    → count k db ≡ 0
    → find k (insert k title time ttl blob db)
      ≡ record { ttl = ttl; time = time; title = title; blob = blob } ∷ []
unfolding find count has_key
find-insert k title time ttl blob db c h = ap (map row_item) (
    rows_of-insert k title time ttl blob db c (no_title_of_key k title db.headers h) (has_key k) h
      (str_eq_self k))

-- In a consistent store, a pair of key and title that is new is found after an insertion, also
-- where the key has other titles.
pub find_titled-insert :
    (k title : Bytes) (time ttl : ℕ) (blob : Bytes) (db : MultiKeyDb)
    → IsConsistent db
    → count_by (has_title k title) db.headers ≡ 0
    → find_titled k title (insert k title time ttl blob db)
      ≡ some (record { ttl = ttl; time = time; title = title; blob = blob })
unfolding find_titled
find_titled-insert k title time ttl blob db c h =
    ap (λ r. first_item (map row_item r))
      (rows_of-insert k title time ttl blob db c h (has_title k title) h
        (has_title_self k title db.next_id))

-- After `remove` of a key and a title, `find` by that key and title finds nothing.
pub find_titled-remove :
    (k title : Bytes) (db : MultiKeyDb) → find_titled k title (remove k title db) ≡ none
unfolding find_titled remove delete_where rows_of cross
find_titled-remove k title db = rw (filter_by-not (has_title k title) db.headers)
