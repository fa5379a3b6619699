-- ===== src/Tests/Searches.antt =====
-- The searches.
use mini_dht.Base.{List, [], ◌∷◌, ◌++◌, Bytes, ◌≡◌, refl, some, length}
use mini_dht.Contact.{ContactProto}
use mini_dht.Search.{Search, node_search, new_search, is_empty, update_list, value_keys}
use mini_dht.Search.Nearest.{IsNearest, update_list-IsNearest}
use mini_dht.Search.Ask.{IsDrained, value_keys-IsDrained}
use mini_dht.Tests.Data.{me, alice, bob, contact}

abbrev received : List ContactProto
received = contact alice 4 ∷ contact bob 5 ∷ []

abbrev running : Search
running = record (new_search 8 me bob node_search) { short_list = contact alice 2 ∷ [] }

update_list-IsNearest_example :
    IsNearest bob (received ++ contact alice 2 ∷ []) (update_list received running).1.short_list
unfolding new_search is_empty
update_list-IsNearest_example = update_list-IsNearest received running refl

value_keys-IsDrained_example :
    (ks : List Bytes) × (t : Search) × (value_keys (length running.short_list) running
      ≡ some (ks, t))
    × IsDrained running ks t
value_keys-IsDrained_example = value_keys-IsDrained running
