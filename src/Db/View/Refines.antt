-- ===== src/Db/View/Refines.antt =====
-- The statements on the three tables (Sources/miniDHT_db.cpp) do what they mean on the map.
use mini_dht.Base.{ℕ, ◌≡◌, refl, ◌∙◌, ap, List, [], ◌∷◌, map, none, Bytes, Bool-cases, inl, inr}
use mini_dht.Db.MultiKey.{
  MultiKeyDb, has_title, remove, insert, update, row_item, first_item, find_titled,
}
use mini_dht.Db.Consistent.{
  IsConsistent, insert-IsConsistent, delete_where-IsConsistent, update-IsConsistent,
}
use mini_dht.Db.Rows.{find_titled-insert, find_titled-remove}
use mini_dht.Db.Frame.{rows_of-delete_where, rows_of-insert_other, rows_of-update_other}
use mini_dht.Db.View.{
  View, view, Operation, inserted, retimed, removed, apply, same_pair, retime, apply_view, Allowed,
  run, run_view, AllAllowed, absent_count, pair-Disjoint, find_titled-update, same_pair_sound,
  pair_apart,
}

-- One operation, at the pair that it is about and at any other.
module _ (db : MultiKeyDb) (c : IsConsistent db) (v : View)
    (agrees : (k title : Bytes) → find_titled k title db ≡ v k title) (k' title' : Bytes) where
  find_titled-insert_any :
      (k title : Bytes) (time ttl : ℕ) (blob : Bytes)
      → v k title ≡ none
      → find_titled k' title' (insert k title time ttl blob db)
        ≡ apply_view (inserted k title time ttl blob) v k' title'
  unfolding apply_view find_titled
  find_titled-insert_any k title time ttl blob new =
      let none_yet = absent_count k title db c (agrees k title ∙ new) in
      elim (Bool-cases (same_pair k title k' title')) [
        | inl same ↦
            let (ek, et) = same_pair_sound k title k' title' same in
            rw (same, ek, et) (find_titled-insert k title time ttl blob db c none_yet)
        | inr other ↦ rw other (
            ap (λ rs. first_item (map row_item rs))
              (rows_of-insert_other (has_title k' title') k title time ttl blob db none_yet c
                (pair_apart k title k' title' db.next_id other))
            ∙ agrees k' title')
      ]

  find_titled-update_any :
      (k title : Bytes) (time ttl : ℕ)
      → find_titled k' title' (update k title time ttl db)
        ≡ apply_view (retimed k title time ttl) v k' title'
  unfolding apply_view find_titled
  find_titled-update_any k title time ttl = elim (Bool-cases (same_pair k title k' title')) [
    | inl same ↦
        let (ek, et) = same_pair_sound k title k' title' same in
        rw (same, ek, et)
          (find_titled-update k title time ttl db ∙ ap (retime time ttl) (agrees k title))
    | inr other ↦ rw other (
        ap (λ rs. first_item (map row_item rs))
          (rows_of-update_other (has_title k' title') k title time ttl db
            (pair-Disjoint k title k' title' other) c)
        ∙ agrees k' title')
  ]

  find_titled-remove_any :
      (k title : Bytes)
      → find_titled k' title' (remove k title db) ≡ apply_view (removed k title) v k' title'
  unfolding apply_view find_titled remove
  find_titled-remove_any k title = elim (Bool-cases (same_pair k title k' title')) [
    | inl same ↦
        let (ek, et) = same_pair_sound k title k' title' same in
        rw (same, ek, et) (find_titled-remove k title db)
    | inr other ↦ rw other (
        ap (λ rs. first_item (map row_item rs))
          (rows_of-delete_where (has_title k' title') (has_title k title) db
            (pair-Disjoint k title k' title' other) c)
        ∙ agrees k' title')
  ]

apply-IsConsistent :
    (o : Operation) (db : MultiKeyDb) (v : View)
    → IsConsistent db
    → ((k title : Bytes) → find_titled k title db ≡ v k title)
    → Allowed o v
    → IsConsistent (apply o db)
unfolding apply Allowed remove
apply-IsConsistent (inserted k title time ttl blob) db v c agrees new =
    insert-IsConsistent k title time ttl blob db (absent_count k title db c (agrees k title ∙ new))
      c
apply-IsConsistent (retimed k title time ttl) db v c agrees a =
    update-IsConsistent k title time ttl db c
apply-IsConsistent (removed k title) db v c agrees a =
    delete_where-IsConsistent (has_title k title) db c

find_titled-apply :
    (o : Operation) (db : MultiKeyDb) (v : View)
    → IsConsistent db
    → ((k title : Bytes) → find_titled k title db ≡ v k title)
    → Allowed o v
    → (k title : Bytes) → find_titled k title (apply o db) ≡ apply_view o v k title
unfolding apply Allowed
find_titled-apply (inserted k title time ttl blob) db v c agrees new k' title' =
    find_titled-insert_any db c v agrees k' title' k title time ttl blob new
find_titled-apply (retimed k title time ttl) db v c agrees a k' title' =
    find_titled-update_any db c v agrees k' title' k title time ttl
find_titled-apply (removed k title) db v c agrees a k' title' =
    find_titled-remove_any db c v agrees k' title' k title

run_refines :
    (os : List Operation) (db : MultiKeyDb) (v : View)
    → IsConsistent db
    → ((k title : Bytes) → find_titled k title db ≡ v k title)
    → AllAllowed os v
    → IsConsistent (run os db)
      × ((k title : Bytes) → find_titled k title (run os db) ≡ run_view os v k title)
unfolding run run_view AllAllowed
run_refines [] db v c agrees a = (c, agrees)
run_refines (o ∷ os) db v c agrees (first, rest) =
    run_refines os (apply o db) (apply_view o v) (apply-IsConsistent o db v c agrees first)
      (find_titled-apply o db v c agrees first) rest

-- The store is a map from pairs of key and title to items: from a consistent store, after any list
-- of insertions of pairs that are new, of updates of times and of removals, the store is
-- consistent and `find` by key and title gives for every pair what the map gives after the same
-- list, an exception being no entry.
pub find_titled-run :
    (os : List Operation) (db : MultiKeyDb)
    → IsConsistent db
    → AllAllowed os (view db)
    → IsConsistent (run os db)
      × ((k title : Bytes) → find_titled k title (run os db) ≡ run_view os (view db) k title)
find_titled-run os db c a = run_refines os db (view db) c (λ k title. refl) a
