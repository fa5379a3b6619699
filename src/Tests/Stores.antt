-- ===== src/Tests/Stores.antt =====
-- The two tables.
use mathlib.Core.Quot
use mini_dht.Base.{arith, ap, List, [], ◌∷◌, Bytes, ◌≡◌, refl, Option, ◌==◌, inl}
use mini_dht.Db.MultiKey.{
  HeaderRow, MultiKeyDb, has_key, delete_where, empty_db, insert, remove_oldest, find_titled,
  rows_of, cross, first_item,
}
use mini_dht.Db.View.{
  Operation, inserted, retimed, removed, view, Allowed, AllAllowed, run, run_view,
}
use mini_dht.Db.View.Refines.{find_titled-run}
use mini_dht.Db.View.Contents.{Apart, put, drop, target, change, change_commutes}
use mini_dht.Db.Consistent.{
  IsConsistent, empty_db-IsConsistent, delete_where-IsConsistent, insert-IsConsistent,
}
use mini_dht.Db.Oldest.{OldRow, IsOrdering, remove_oldest_arbitrary}
use mini_dht.Tests.Data.{alice, bob}

abbrev title : Bytes
title = b't' ∷ []

abbrev one_record : MultiKeyDb
one_record = insert alice title 3 60 (1 ∷ []) empty_db

one_record-IsConsistent : IsConsistent one_record
unfolding empty_db
one_record-IsConsistent =
    insert-IsConsistent alice title 3 60 (1 ∷ []) empty_db refl empty_db-IsConsistent

delete_where-IsConsistent_example : IsConsistent (delete_where (has_key alice) one_record)
delete_where-IsConsistent_example =
    delete_where-IsConsistent (has_key alice) one_record one_record-IsConsistent

abbrev first_header : HeaderRow
first_header = record { id = 1; key = alice; title = title }

remove_oldest_arbitrary_example :
    (first_row : List OldRow → Option OldRow) × IsOrdering first_row
    × (remove_oldest first_row one_record ≡ delete_where (λ g. g.id == 1) one_record)
unfolding insert empty_db
remove_oldest_arbitrary_example =
    remove_oldest_arbitrary one_record first_header one_record-IsConsistent (inl refl)

abbrev operations : List Operation
operations = inserted alice title 4 60 (1 ∷ []) ∷ retimed alice title 9 30 ∷ removed bob title ∷ []

operations_allowed : AllAllowed operations (view empty_db)
unfolding AllAllowed Allowed empty_db find_titled rows_of cross first_item
operations_allowed = (refl, (tt, (tt, tt)))

find_titled-run_example :
    IsConsistent (run operations empty_db)
    × ((k t : Bytes)
        → find_titled k t (run operations empty_db) ≡ run_view operations (view empty_db) k t)
find_titled-run_example =
    find_titled-run operations empty_db empty_db-IsConsistent operations_allowed

one_put-Apart : Apart (put alice title 5 60 (2 ∷ [])) (drop bob title)
unfolding target
one_put-Apart e = ground (arith, ap (λ (z : Bytes × Bytes). z.0) e)

change_commutes_example :
    change
      (put alice title 5 60 (2 ∷ []))
      (change (drop bob title) (Quot.mk (one_record, one_record-IsConsistent)))
    ≡ change
        (drop bob title)
        (change (put alice title 5 60 (2 ∷ [])) (Quot.mk (one_record, one_record-IsConsistent)))
change_commutes_example =
    change_commutes (put alice title 5 60 (2 ∷ [])) (drop bob title) one_put-Apart
      (Quot.mk (one_record, one_record-IsConsistent))
