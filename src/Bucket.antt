-- ===== src/Bucket.antt =====
-- Sources/miniDHT_bucket.h and Sources/miniDHT_bucket.cpp: the contact list, a multimap from the
-- number of common bits to contacts.
-- The multimap is the list of its entries in iteration order: by rising number, and in the order
-- of insertion among equal numbers. `find(n)` with `count(n)` steps is read as the run of the
-- entries with number `n`, so the entry that these loops stop at is the first one of the list
-- with that number and the key; an iterator that is kept is the entry's position.
pub mod Multimap
pub mod Evict
pub mod Valid
pub mod Remove
pub mod Proximity
pub mod Lookup
pub mod Random
use mini_dht.Base.{
  ℕ, zero, suc, ◌+◌, ◌-◌, ◌/◌, ◌%◌, Bool, true, false, not, ◌&&◌, List, [], ◌∷◌, ◌++◌, Option, none,
  some, Bytes, str_eq, str_lt, ltb, leb, ◌==◌, if◌then◌else◌, length, Map,
}
use mini_dht.Base.Maps.{insert_or_assign}
use mini_dht.Key.Bits.{
  Bits, key_size, bucket_size, bit, tabulate, bits_xor, bits_not, to_string, common_bits,
}
use mini_dht.Key.Digest.{string_to_key, key_to_string}
use mini_dht.Contact.{EndpointProto, ContactProto, time_of, endpoint_eq, endpoint_ne}
use Multimap.{insert, count, erase_at}

abbrev pub Entry : Type 0
Entry = ℕ × ContactProto

pub record Bucket : Type 0 where
  pub now : ℕ
  pub local_key : Bytes
  pub map_proximity : Map Bytes Bytes
  pub changed : Bool
  pub entries : List Entry

-- The constructor.
unfoldable pub new_bucket : Bytes → Bucket
new_bucket k = record { now = 0; local_key = k; map_proximity = []; changed = true; entries = [] }

-- `to_time_t`: a point in time is a number of microseconds since 1970.
unfoldable pub to_time_t : ℕ → ℕ
to_time_t t = t / 1000000

-- The number under which a key is filed.
unfoldable pub bucket_number : Bytes → Bytes → ℕ
bucket_number local k = common_bits (string_to_key local) (string_to_key k)

unfoldable pub is_entry : ℕ → Bytes → Entry → Bool
is_entry n k e = e.0 == n && str_eq e.1.key k

-- The loop of `find_key` and of `operator[]`.
unfoldable pub find_entry : ℕ → Bytes → List Entry → Option ContactProto
unfolding is_entry
find_entry n k [] = none
find_entry n k (e ∷ es) = if is_entry n k e then some e.1 else find_entry n k es

-- `find_key`: the contact that the iterator stands at, `none` for `end()`.
unfoldable pub find_key : Bytes → Bucket → Option ContactProto
find_key k b = find_entry (bucket_number b.local_key k) k b.entries

-- `operator[]`; `none` stands for the exception "unknown key".
unfoldable pub endpoint_of : Bytes → Bucket → Option EndpointProto
unfolding find_key
endpoint_of k b = elim (find_key k b) [ none ↦ none | some c ↦ some c.ep ]

-- In `map_time_ite[ite->second.time()] = ite++` either operand may come first before C++17, and the
-- right one does from C++17 on: the time is then read from the contact behind the one whose
-- position is kept. `right_first` comes with what a read at `end()` gives, which is undefined.
pub data Order : Type 0 where
  left_first : Order
  right_first : ℕ → Order

-- `ite->second.time()` for an entry, with the entries behind it.
unfoldable pub time_read : Order → Entry → List Entry → ℕ
time_read left_first e es = time_of e.1
time_read (right_first past) e [] = past
time_read (right_first past) e (f ∷ es) = time_of f.1

-- `map_time_ite`: for each time that is read, the last position with number `n` it is read for.
unfoldable pub time_positions : Order → ℕ → ℕ → List Entry → Map ℕ ℕ → Map ℕ ℕ
unfolding time_read
time_positions order n pos [] m = m
time_positions order n pos (e ∷ es) m =
    time_positions order n (suc pos) es
      (if e.0 == n then insert_or_assign ltb (time_read order e es) pos m else m)

-- `erase(map_time_ite.begin()->second)`
unfoldable pub erase_first : Map ℕ ℕ → List Entry → List Entry
unfolding erase_at
erase_first [] es = es
erase_first ((t, pos) ∷ m) es = erase_at pos es

unfoldable pub evict : Order → ℕ → List Entry → List Entry
unfolding erase_first time_positions
evict order n es = erase_first (time_positions order n 0 es []) es

-- A contact that is known: a new end point if it differs, and the time.
unfoldable pub refresh : EndpointProto → ℕ → ContactProto → ContactProto
refresh ep t c =
    if endpoint_ne c.ep ep then record c { ep = ep; time = some t } else record c { time = some t }

unfoldable pub refresh_entry : ℕ → Bytes → EndpointProto → ℕ → List Entry → List Entry
unfolding is_entry refresh
refresh_entry n k ep t [] = []
refresh_entry n k ep t (e ∷ es) =
    if is_entry n k e then (e.0, refresh ep t e.1) ∷ es else e ∷ refresh_entry n k ep t es

unfoldable pub new_contact : Bytes → EndpointProto → ℕ → ContactProto
new_contact k ep t = record { key = k; ep = ep; time = some t }

unfoldable pub insert_new : Order → ℕ → ContactProto → List Entry → List Entry
insert_new order n c es = insert n c (if leb bucket_size (count n es) then evict order n es else es)

-- `now` is what `update_time()` returns.
unfoldable pub add_contact : Order → ℕ → Bytes → EndpointProto → Bucket → Bucket
unfolding find_key new_contact insert_new
add_contact order now k ep b =
    if str_eq k b.local_key
    then b
    else let n = bucket_number b.local_key k in
      elim (find_key k b) [
        | none ↦ record b {
          now = now;
          entries = insert_new order n (new_contact k ep (to_time_t now)) b.entries;
          changed = true;
        }
        | some c ↦ record b { now = now; entries = refresh_entry n k ep (to_time_t now) b.entries }
      ]

-- What a loop over the contact list that erases comes to: the entries that are left, or a step
-- past `end()`, which is undefined, or no fuel left.
pub data Scan : Type 0 where
  done : List Entry → Scan
  past_end : Scan
  no_fuel : Scan

-- The loop of `remove_contact`, with the entries before the iterator and those from it on. After
-- an erasure the iterator is set to `begin()`, and `continue` moves it on by one; `fuel` counts
-- the erasures.
unfoldable pub remove_scan : ℕ → EndpointProto → List Entry → List Entry → Scan
remove_scan fuel ep before [] = done before
remove_scan zero ep before (e ∷ es) =
    let next = remove_scan zero ep (before ++ e ∷ []) es in
    if endpoint_eq e.1.ep ep then no_fuel else next
remove_scan (suc fuel) ep before (e ∷ es) =
    let next = remove_scan (suc fuel) ep (before ++ e ∷ []) es in
    let again : Scan = elim (before ++ es) [
      | [] ↦ past_end
      | first ∷ rest ↦ remove_scan fuel ep (first ∷ []) rest
    ] in
    if endpoint_eq e.1.ep ep then again else next

unfoldable pub remove_contact : EndpointProto → Bucket → Scan
unfolding remove_scan
remove_contact ep b = remove_scan (length b.entries) ep [] b.entries

-- The loop of `build_proximity`: the complement of the XOR distance, as text, to the key.
unfoldable pub proximity_map : Bits → List Entry → Map Bytes Bytes → Map Bytes Bytes
proximity_map search_key [] m = m
proximity_map search_key (e ∷ es) m =
    let result = bits_not (bits_xor search_key (string_to_key e.1.key)) in
    proximity_map search_key es (insert_or_assign str_lt (to_string result) e.1.key m)

-- The map, and the bucket that keeps it.
unfoldable pub build_proximity : Bytes → Bucket → Map Bytes Bytes × Bucket
unfolding proximity_map
build_proximity k b =
    if not b.changed
    then (b.map_proximity, b)
    else let m = proximity_map (string_to_key k) b.entries [] in
      (m, record b { map_proximity = m; changed = false })

-- `random_key_in_bucket` before it is written as text; `random n` is the first number drawn.
unfoldable pub random_bits_in_bucket : (ℕ → ℕ) → ℕ → ℕ → Bytes → Bits
random_bits_in_bucket random n bn local =
    let ret = string_to_key local in
    tabulate key_size λ i. if ltb i bn then bit ret i else not (random (n + (i - bn)) % 2 == 0)

unfoldable pub random_key_in_bucket : (ℕ → ℕ) → ℕ → ℕ → Bucket → Bytes
random_key_in_bucket random n bn b = key_to_string (random_bits_in_bucket random n bn b.local_key)
