-- ===== src/Bucket/Proximity.antt =====
-- `build_proximity` and its cache.
use mini_dht.Base.{◌≡◌, arith, Bytes}
use mini_dht.Key.Bits.{bits_xor, bits_not, to_string}
use mini_dht.Key.Digest.{string_to_key}
use mini_dht.Bucket.{Bucket, build_proximity}

-- A second call of `build_proximity` right after a first gets the map of the first, whatever key
-- it asks for.
pub build_proximity_stale :
    (k j : Bytes) (b : Bucket)
    → (build_proximity j (build_proximity k b).1).0 ≡ (build_proximity k b).0
unfolding build_proximity
build_proximity_stale k j b = ground arith

-- The text under which a contact's key is filed.
abbrev pub proximity : Bytes → Bytes → Bytes
proximity k j = to_string (bits_not (bits_xor (string_to_key k) (string_to_key j)))

Filed : Bytes → Bytes × Bytes → Type 0
Filed k (d, j) = d ≡ proximity k j
