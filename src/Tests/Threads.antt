-- ===== src/Tests/Threads.antt =====
-- The thread of `periodic`.
use mini_dht.Base.{[], ◌∷◌, ◌≡◌, refl, str_eq}
use mini_dht.Bucket.{new_bucket}
use mini_dht.Db.MultiKey.{
  DataItemHeader, insert, empty_db, count, has_key, list_headers, joined, cross, has_title,
}
use mini_dht.Db.Consistent.{IsConsistent, empty_db-IsConsistent, insert-IsConsistent}
use mini_dht.Db.Oldest.{preferring-IsOrdering}
use mini_dht.Node.State.{Node, ok, fault, undefined}
use mini_dht.Node.Store.{insert_db}
use mini_dht.Node.Thread.{snapshot, records, segment}
use mini_dht.Node.Periodic.{is_over}
use mini_dht.Node.Thread.Replaced.{replaced_record_faults}
use mini_dht.Tests.Data.{me, alice, bob, item, test_env, node}

-- A node that keeps one record, which its thread has listed.
abbrev full_node : Node
full_node = record (node (new_bucket me) (insert alice (b't' ∷ []) 3 60 (1 ∷ []) empty_db)) {
  max_records = 1;
}

abbrev listed : DataItemHeader
listed = record { key = alice; title = b't' ∷ []; time = 3; ttl = 60 }

snapshot_listed :
    segment test_env 5000000 snapshot full_node ≡ ok (records 5000000 (listed ∷ []), full_node)
unfolding segment insert empty_db list_headers joined cross has_title str_eq
snapshot_listed = refl

full_node-IsConsistent : IsConsistent full_node.db_storage
unfolding empty_db
full_node-IsConsistent =
    insert-IsConsistent alice (b't' ∷ []) 3 60 (1 ∷ []) empty_db refl empty_db-IsConsistent

replaced_record_faults_example :
    (n' : Node) × (insert_db test_env 5100000 bob item full_node ≡ ok n')
    × (segment test_env 5200000 (records 5000000 (listed ∷ [])) n' ≡ fault undefined)
unfolding insert empty_db count has_key str_eq is_over
replaced_record_faults_example =
    replaced_record_faults test_env (preferring-IsOrdering 0) 5100000 5200000 5000000 bob item
      listed [] full_node full_node-IsConsistent refl refl refl refl
