-- ===== src/Db/View.antt =====
-- What the store of data (Sources/miniDHT_db.cpp) is to those who use it: a map from pairs of key
-- and title to items.
pub mod Refines
pub mod Contents
use mini_dht.Base.{
  ℕ, zero, suc, ◌*◌, ◌≡◌, refl, sym, ◌∙◌, ap, Bool, true, false, not, ◌&&◌, List, [], ◌∷◌, map,
  Option, none, some, arith, Bytes, str_eq, str_eq_iff, str_eq_self, length, if◌then◌else◌,
  filter_by, count_by, Bool-cases, inl, inr,
}
use mini_dht.Base.Lists.{length-map}
use mini_dht.Contact.{DataItemProto}
use mini_dht.Db.MultiKey.{
  HeaderRow, TimeRow, ItemRow, MultiKeyDb, has_title, id_in, remove, insert, update, cross, rows_of,
  row_item, first_item, find_titled,
}
use mini_dht.Db.Consistent.{
  IsConsistent, insert-IsConsistent, delete_where-IsConsistent, update-IsConsistent, has_title_self,
}
use mini_dht.Db.Rows.{length-rows_of, find_titled-insert, find_titled-remove}
use mini_dht.Db.Frame.{
  Disjoint, updated, rows_of-delete_where, rows_of-insert_other, rows_of-update_other, times-update,
  map_agree,
}

-- The item under a key and a title.
abbrev pub View : Type 0
View = Bytes → Bytes → Option DataItemProto

abbrev pub view : MultiKeyDb → View
view db k title = find_titled k title db

-- The statements that change the store.
pub data Operation : Type 0 where
  inserted : (k title : Bytes) (time ttl : ℕ) (blob : Bytes) → Operation
  retimed : (k title : Bytes) (time ttl : ℕ) → Operation
  removed : (k title : Bytes) → Operation

unfoldable pub apply : Operation → MultiKeyDb → MultiKeyDb
apply (inserted k title time ttl blob) db = insert k title time ttl blob db
apply (retimed k title time ttl) db = update k title time ttl db
apply (removed k title) db = remove k title db

unfoldable pub same_pair : Bytes → Bytes → Bytes → Bytes → Bool
same_pair k title k' title' = str_eq k' k && str_eq title' title

-- An item with another time.
unfoldable pub retime : ℕ → ℕ → Option DataItemProto → Option DataItemProto
retime time ttl none = none
retime time ttl (some d) = some (record d { time = time; ttl = ttl })

unfoldable pub apply_view : Operation → View → View
unfolding same_pair retime
apply_view (inserted k title time ttl blob) v k' title' =
    if same_pair k title k' title'
    then some (record { ttl = ttl; time = time; title = title; blob = blob })
    else v k' title'
apply_view (retimed k title time ttl) v k' title' =
    if same_pair k title k' title' then retime time ttl (v k' title') else v k' title'
apply_view (removed k title) v k' title' = if same_pair k title k' title' then none else v k' title'

-- A pair is inserted only where it is new.
unfoldable pub Allowed : Operation → View → Type 0
Allowed (inserted k title time ttl blob) v = v k title ≡ none
Allowed (retimed k title time ttl) v = Unit
Allowed (removed k title) v = Unit

unfoldable pub run : List Operation → MultiKeyDb → MultiKeyDb
run [] db = db
run (o ∷ os) db = run os (apply o db)

unfoldable pub run_view : List Operation → View → View
run_view [] v = v
run_view (o ∷ os) v = run_view os (apply_view o v)

unfoldable pub AllAllowed : List Operation → View → Type 0
AllAllowed [] v = Unit
AllAllowed (o ∷ os) v = Allowed o v × AllAllowed os (apply_view o v)

cube : (n : ℕ) → n * (n * n) ≡ 0 → n ≡ 0
cube zero e = refl
cube (suc n) e = grind arith

no_rows :
    (rs : List (HeaderRow × (TimeRow × ItemRow)))
    → first_item (map row_item rs) ≡ none
    → length rs ≡ 0
unfolding first_item
no_rows [] e = refl
no_rows (r ∷ rs) e = absurd (cc)

pub absent_count :
    (k title : Bytes) (db : MultiKeyDb)
    → IsConsistent db
    → find_titled k title db ≡ none
    → count_by (has_title k title) db.headers ≡ 0
unfolding find_titled
absent_count k title db c e =
    cube (count_by (has_title k title) db.headers)
      (sym (length-rows_of (has_title k title) db c) ∙ no_rows (rows_of (has_title k title) db) e)

pub pair-Disjoint :
    (k title k' title' : Bytes)
    → same_pair k title k' title' ≡ false
    → Disjoint (has_title k' title') (has_title k title)
unfolding same_pair has_title
pair-Disjoint k title k' title' other h hit =
    ground (arith, str_eq_iff h.key k', str_eq_iff h.title title')

abbrev set_time : ℕ → ℕ → TimeRow → TimeRow
set_time time ttl t = record t { time = time; ttl = ttl }

-- A product with an empty table.
cross-empty {ℓ κ} : {A : Type ℓ} {B : Type κ} (xs : List A) → cross {B = B} xs [] ≡ []
unfolding cross
cross-empty [] = refl
cross-empty (x ∷ xs) = cross-empty xs

retime_rows :
    (time ttl : ℕ) (hs : List HeaderRow) (ts : List TimeRow) (is : List ItemRow)
    → first_item (map row_item (cross hs (cross (map (set_time time ttl) ts) is)))
      ≡ retime time ttl (first_item (map row_item (cross hs (cross ts is))))
unfolding cross first_item retime
retime_rows time ttl [] ts is = refl
retime_rows time ttl (h ∷ hs) [] is = rw (cross-empty {B = TimeRow × ItemRow} hs) refl
retime_rows time ttl (h ∷ hs) (t ∷ ts) [] =
    rw
      (
        cross-empty {B = ItemRow} ts,
        cross-empty {B = ItemRow} (map (set_time time ttl) ts),
        cross-empty {B = TimeRow × ItemRow} hs,
      )
      refl
retime_rows time ttl (h ∷ hs) (t ∷ ts) (i ∷ is) = refl

pub find_titled-update :
    (k title : Bytes) (time ttl : ℕ) (db : MultiKeyDb)
    → find_titled k title (update k title time ttl db) ≡ retime time ttl (find_titled k title db)
unfolding find_titled rows_of update
find_titled-update k title time ttl db =
    let r = has_title k title in
    let times : filter_by (λ t. id_in t.time_id r db.headers)
          (map (updated k title time ttl db.headers) db.times)
        ≡ map (set_time time ttl) (filter_by (λ t. id_in t.time_id r db.headers) db.times) =
      times-update r k title time ttl db.headers db.times
      ∙ map_agree (λ (t : TimeRow). id_in t.time_id r db.headers)
          (updated k title time ttl db.headers) (set_time time ttl) db.times
          (λ t hit. rw hit refl) in
    rw times (
      retime_rows time ttl (filter_by r db.headers)
        (filter_by (λ t. id_in t.time_id r db.headers) db.times)
        (filter_by (λ i. id_in i.item_id r db.headers) db.items))

-- The pair that an operation is about.
pub same_pair_sound :
    (k title k' title' : Bytes) → same_pair k title k' title' ≡ true → (k' ≡ k) × (title' ≡ title)
unfolding same_pair
same_pair_sound k title k' title' e =
    (ground (arith, str_eq_iff k' k), ground (arith, str_eq_iff k' k, str_eq_iff title' title))

pub pair_apart :
    (k title k' title' : Bytes) (i : ℕ)
    → same_pair k title k' title' ≡ false
    → has_title k' title' (record { id = i; key = k; title = title }) ≡ false
unfolding same_pair has_title
pair_apart k title k' title' i other = ground (
  arith,
  str_eq_iff k k',
  str_eq_iff title title',
  ap (λ (z : Bytes). str_eq z k),
  str_eq_self k,
  str_eq_self title,
)
