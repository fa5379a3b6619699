-- ===== src/Tests/Starts.antt =====
-- The key that a node keeps, and a node from its start.
use mathlib.Core.List.{append_assoc, append-nil}
use mini_dht.Base.{true, [], ◌∷◌, ◌++◌, some, Bytes, ◌≡◌, refl, arith, str_eq, str_lt}
use mini_dht.Base.Maps.{find}
use mini_dht.Key.Bits.{Bits}
use mini_dht.Key.Digest.{key_to_string}
use mini_dht.Key.Local.{Hasher, Host, Files, uid_file, digest_key_from_string, local_key, read_word}
use mini_dht.Key.Kept.{IsStreaming, local_key_kept}
use mini_dht.Contact.{decimal, decimal_from}
use mini_dht.Db.MultiKey.{empty_db}
use mini_dht.Db.Consistent.{empty_db-IsConsistent}
use mini_dht.Db.Oldest.{preferring-IsOrdering}
use mini_dht.Node.State.{Node, ok}
use mini_dht.Db.KeyValue.{list_value}
use mini_dht.Node.Handle.{restore_from_backup}
use mini_dht.Node.Public.{new_node, initial_node, set_max_record}
use mini_dht.Node.Run.{begun, after, moved, limited, Run-IsSound}
use mini_dht.Node.Thread.{segment}
use mini_dht.Node.Sound.{IsSound}
use mini_dht.Tests.Data.{test_env}

-- A digest that keeps all that it is given.
abbrev keeping : Hasher Bytes
keeping = record { init = []; update = λ c b. c ++ b; final = λ c. c }

keeping-IsStreaming : IsStreaming keeping
keeping-IsStreaming = record { in_parts = λ c a b. append_assoc c a b; nothing = λ c. append-nil c }

abbrev home_host : Host
home_host = record { host_name = b'h' ∷ []; iso_time = λ n. b'T' ∷ []; can_write = λ name. true }

local_key_kept_example :
    (k : Bits) × (files : Files) × (local_key keeping home_host 2 80 [] 0 [] ≡ some (k, files))
    × (local_key keeping home_host 1 80 [] 5 files ≡ some (k, files))
local_key_kept_example = local_key_kept keeping home_host 80 [] 0 5 [] refl

-- A node whose key is in its file.
abbrev stored_files : Files
stored_files = (uid_file [] 80, b'k' ∷ []) ∷ []

abbrev started : Node
started =
    initial_node (key_to_string (digest_key_from_string keeping (read_word (b'k' ∷ [])))) 10
      empty_db []

starts :
    new_node test_env keeping home_host 80 [] 10 stored_files empty_db [] 5000000
    ≡ ok (started, stored_files)
unfolding new_node local_key find uid_file str_eq str_lt decimal decimal_from restore_from_backup
    list_value
starts = refl

Run-IsSound_example : IsSound (set_max_record 5 started)
unfolding segment
Run-IsSound_example =
    Run-IsSound keeping home_host 80 [] 10 stored_files stored_files empty_db [] test_env 5000000
      4000000 (preferring-IsOrdering 0) (omega arith) empty_db-IsConsistent starts
      (after (moved 5000000 begun refl) (limited 5 started (omega arith)))
