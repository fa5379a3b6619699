-- ===== src/Node/Thread/Replaced.antt =====
-- A record that is replaced between two segments of the thread of `periodic` (Sources/miniDHT.cpp).
use mini_dht.Base.{
  ℕ, ◌<◌, false, List, [], ◌∷◌, none, Bytes, str_eq, ◌≡◌, refl, ◌∙◌, ap, arith, length,
}
use mini_dht.Contact.{DataItemProto}
use mini_dht.Db.MultiKey.{
  MultiKeyDb, DataItemHeader, HeaderRow, has_title, insert, count, size, find_titled, rows_of,
  first_item,
}
use mini_dht.Db.Consistent.{IsConsistent}
use mini_dht.Db.Oldest.{IsOrdering}
use mini_dht.Node.State.{Env, Node, ok, fault, undefined}
use mini_dht.Node.Store.{insert_db}
use mini_dht.Node.Eviction.{drop_oldest_ends}
use mini_dht.Node.Periodic.{is_over, revisit}
use mini_dht.Node.Thread.{records, segment, go_to}

no_headers : (hs : List HeaderRow) → length hs < 1 → hs ≡ []
no_headers [] e = refl
no_headers (h ∷ hs) e = absurd (omega (arith, e))

-- A table that holds one header, of another key, has no row for this one.
find_titled_other :
    (k title : Bytes) (g : HeaderRow) (db : MultiKeyDb)
    → db.headers ≡ g ∷ []
    → str_eq g.key k ≡ false
    → find_titled k title db ≡ none
unfolding find_titled rows_of has_title first_item
find_titled_other k title g db one other = rw (one, other) refl

module _ (env : Env) where
  -- A new record in a store that may keep only one.
  inserted :
      IsOrdering env.first_row
      → (now : ℕ) (k : Bytes) (d : DataItemProto) (n : Node) → IsConsistent n.db_storage
      → n.max_records ≡ 1
      → count k n.db_storage ≡ 0
      → (n' : Node) × (insert_db env now k d n ≡ ok n')
        × ((g : HeaderRow) × (n'.db_storage.headers ≡ g ∷ []) × (g.key ≡ k))
  unfolding insert_db insert size
  inserted order now k d n c one absent =
      let (db', e, small, c', keeps) =
        drop_oldest_ends env order (size n.db_storage) n.max_records n.db_storage c
          (omega (arith, one)) (omega arith) in
      let empty : db'.headers ≡ [] = no_headers db'.headers (omega (arith, small, one)) in
      rw (absent, e)
        (
          record n { db_storage = insert k d.title d.time d.ttl d.blob db' },
          refl,
          (record { id = db'.next_id; key = k; title = d.title }, rw empty refl, refl),
        )

  -- In a node that may keep one record, with a consistent store and a database that orders its
  -- rows as it documents, a record that is stored under a new key, after the thread of `periodic`
  -- has listed the headers, brings the thread, at each listed header of another key that is not
  -- over, to the error path of `find`, which unlocks a mutex that is not locked and is undefined.
  pub replaced_record_faults :
      IsOrdering env.first_row
      → (now later check_time : ℕ) (k : Bytes) (d : DataItemProto) (h : DataItemHeader)
        (hs : List DataItemHeader) (n : Node)
      → IsConsistent n.db_storage
      → n.max_records ≡ 1
      → count k n.db_storage ≡ 0
      → str_eq k h.key ≡ false
      → is_over check_time h ≡ false
      → (n' : Node) × (insert_db env now k d n ≡ ok n')
        × (segment env later (records check_time (h ∷ hs)) n' ≡ fault undefined)
  unfolding segment revisit go_to
  replaced_record_faults order now later check_time k d h hs n c one absent other valid =
      let (n', e, (g, alone, same)) = inserted order now k d n c one absent in
      let missing : find_titled h.key h.title n'.db_storage ≡ none =
        find_titled_other h.key h.title g n'.db_storage alone
          (ap (λ z. str_eq z h.key) same ∙ other) in
      (n', e, rw (valid, missing, revisit) refl)
