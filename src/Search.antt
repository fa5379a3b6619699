-- ===== src/Search.antt =====
-- Sources/miniDHT_search.h and Sources/miniDHT_search.cpp: one running search.
-- The `assert`s, that the end points and keys of the short list are not empty, are compiled out
-- with NDEBUG and have no counterpart. A callback is the number that the caller knows it by.
pub mod Free
pub mod Nearest
pub mod Ask
use mini_dht.Base.{
  ℕ, zero, suc, ◌+◌, ◌-◌, Bool, true, false, not, ◌&&◌, List, [], ◌∷◌, ◌++◌, map, Option, none,
  some, Bytes, str_lt, ltb, leb, ◌==◌, if◌then◌else◌, length, take, Map, count_by,
}
use mini_dht.Base.Maps.{insert_or_assign, find}
use mini_dht.Key.Bits.{Bits, key_size, bucket_size, bits_xor, to_string, common_bits}
use mini_dht.Key.Digest.{string_to_key}
use mini_dht.Contact.{EndpointProto, DataItemProto, ContactProto, contact_eq}

pub data SearchType : Type 0 where
  node_search value_search store_search : SearchType

pub record Search : Type 0 where
  pub short_list : List ContactProto
  pub map_node_busy : Map Bytes Bool
  pub map_value_busy : Map Bytes Bool
  pub ttl : ℕ
  pub destination : Bytes
  pub source : Bytes
  pub search_type : SearchType
  pub node_callback_valid : Bool
  pub node_callback : Option ℕ
  pub value_callback : Option ℕ
  pub buffer : DataItemProto
  pub bucket_nb : ℕ
  pub hint : Bytes

abbrev pub empty_item : DataItemProto
empty_item = record { ttl = 0; time = 0; title = []; blob = [] }

-- The constructor with a source, a destination and a type.
unfoldable pub new_search : ℕ → Bytes → Bytes → SearchType → Search
new_search now src dest t = record {
  short_list = [];
  map_node_busy = [];
  map_value_busy = [];
  ttl = now;
  destination = dest;
  source = src;
  search_type = t;
  node_callback_valid = false;
  node_callback = none;
  value_callback = none;
  buffer = empty_item;
  bucket_nb = common_bits (string_to_key dest) (string_to_key src);
  hint = [];
}

-- `map.find(key) != map.end()`
unfoldable pub is_busy : Map Bytes Bool → Bytes → Bool
is_busy m k = elim (find str_lt k m) [ none ↦ false | some v ↦ true ]

-- The loop of `nb_node_left`.
unfoldable pub count_free : Map Bytes Bool → List ContactProto → ℕ
count_free m [] = 0
count_free m (c ∷ cs) = if is_busy m c.key then count_free m cs else suc (count_free m cs)

-- The loop of `is_node_full` and of `is_value_full`.
unfoldable pub all_busy : Map Bytes Bool → List ContactProto → Bool
all_busy m [] = true
all_busy m (c ∷ cs) = if not (is_busy m c.key) then false else all_busy m cs

-- The loop of the four getters: the first contact that is not busy.
unfoldable pub first_free : Map Bytes Bool → List ContactProto → Option ContactProto
first_free m [] = none
first_free m (c ∷ cs) = if not (is_busy m c.key) then some c else first_free m cs

unfoldable pub nb_node_left : Search → ℕ
unfolding count_free
nb_node_left s = count_free s.map_node_busy s.short_list

unfoldable pub is_node_full : Search → Bool
is_node_full s = all_busy s.map_node_busy s.short_list

unfoldable pub is_value_full : Search → Bool
is_value_full s = all_busy s.map_value_busy s.short_list

unfoldable pub short_list_in_bucket : Search → ℕ
short_list_in_bucket s =
    count_by (λ c. common_bits (string_to_key c.key) (string_to_key s.destination) == s.bucket_nb)
      s.short_list

unfoldable pub is_bucket_full : Search → Bool
unfolding short_list_in_bucket
is_bucket_full s = if leb bucket_size (short_list_in_bucket s) then true else is_node_full s

abbrev pub mark_node : Bytes → Search → Search
mark_node k s = record s { map_node_busy = insert_or_assign str_lt k true s.map_node_busy }

abbrev pub mark_value : Bytes → Search → Search
mark_value k s = record s { map_value_busy = insert_or_assign str_lt k true s.map_value_busy }

-- `none` stands for the exception "no endpoint found!".
unfoldable pub get_node_endpoint : Search → Option (EndpointProto × Search)
get_node_endpoint s = elim (first_free s.map_node_busy s.short_list) [
  | none ↦ none
  | some c ↦ some (c.ep, mark_node c.key s)
]

-- `none` stands for the exception "no key found!".
unfoldable pub get_node_key : Search → Option (Bytes × Search)
get_node_key s = elim (first_free s.map_node_busy s.short_list) [
  | none ↦ none
  | some c ↦ some (c.key, mark_node c.key s)
]

unfoldable pub get_value_endpoint : Search → Option (EndpointProto × Search)
get_value_endpoint s = elim (first_free s.map_value_busy s.short_list) [
  | none ↦ none
  | some c ↦ some (c.ep, mark_value c.key s)
]

unfoldable pub get_value_key : Search → Option (Bytes × Search)
get_value_key s = elim (first_free s.map_value_busy s.short_list) [
  | none ↦ none
  | some c ↦ some (c.key, mark_value c.key s)
]

-- `(source_bs ^ dest_bs).to_string()`
unfoldable pub distance : Bytes → ContactProto → Bytes
distance dest c = to_string (bits_xor (string_to_key c.key) (string_to_key dest))

-- `map_sorted[...] = c` for each contact.
unfoldable pub sort_in : Bytes → List ContactProto → Map Bytes ContactProto → Map Bytes ContactProto
sort_in dest [] m = m
sort_in dest (c ∷ cs) m = sort_in dest cs (insert_or_assign str_lt (distance dest c) c m)

abbrev pub contacts : Map Bytes ContactProto → List ContactProto
contacts = map (λ e. e.1)

-- The loop over `map_sorted`, with `left` contacts to go before the `break`.
unfoldable pub first_contacts : ℕ → Map Bytes ContactProto → List ContactProto
first_contacts left [] = []
first_contacts left ((d, c) ∷ m) =
    let rest = first_contacts (left - 1) m in c ∷ (if leb left 1 then [] else rest)

unfoldable pub list_eq : List ContactProto → List ContactProto → Bool
list_eq [] [] = true
list_eq [] (d ∷ ds) = false
list_eq (c ∷ cs) [] = false
list_eq (c ∷ cs) (d ∷ ds) = contact_eq c d && list_eq cs ds

unfoldable pub is_empty : List ContactProto → Bool
is_empty [] = true
is_empty (c ∷ cs) = false

unfoldable pub sorted_contacts : List ContactProto → Search → Map Bytes ContactProto
sorted_contacts lc s = sort_in s.destination s.short_list (sort_in s.destination lc [])

unfoldable pub update_list : List ContactProto → Search → Bool × Search
unfolding is_empty
update_list lc s =
    if is_empty lc
    then (is_bucket_full s, s)
    else let temp = first_contacts bucket_size (sorted_contacts lc s) in
      if not (is_empty s.short_list) && list_eq s.short_list temp
      then (true, s)
      else (is_bucket_full (record s { short_list = temp }), record s { short_list = temp })

-- The keys that `call_node_callback` hands to the callback.
unfoldable pub node_callback_keys : Search → List Bytes
node_callback_keys s = map (λ c. c.key) s.short_list

-- The keys that `for (i = 0; i < ALPHA && !is_node_full(); ++i) ... get_node_key() ...` asks, with
-- `rounds` left; `none` stands for an exception of `get_node_key`.
unfoldable pub node_keys : ℕ → Search → Option (List Bytes × Search)
node_keys zero s = some ([], s)
node_keys (suc rounds) s =
    let next : Option (List Bytes × Search) = elim (get_node_key s) [
      | none ↦ none
      | some (k, s') ↦ elim (node_keys rounds s') [
        | none ↦ none
        | some (ks, s'') ↦ some (k ∷ ks, s'')
      ]
    ] in
    if is_node_full s then some ([], s) else next

-- The keys that `while (!is_value_full()) ... get_value_key() ...` asks; `none` stands for an
-- exception of `get_value_key`, or for a loop that has not ended when the fuel is used up.
unfoldable pub value_keys : ℕ → Search → Option (List Bytes × Search)
value_keys zero s = if is_value_full s then some ([], s) else none
value_keys (suc fuel) s =
    let next : Option (List Bytes × Search) = elim (get_value_key s) [
      | none ↦ none
      | some (k, s') ↦ elim (value_keys fuel s') [
        | none ↦ none
        | some (ks, s'') ↦ some (k ∷ ks, s'')
      ]
    ] in
    if is_value_full s then some ([], s) else next
