-- ===== src/Tests/Buckets.antt =====
-- The contact list.
use mini_dht.Base.{
  ℕ, List, [], ◌∷◌, ◌≡◌, refl, Bool, true, false, not, xor, ◌==◌, ◌%◌, if◌then◌else◌, some, arith,
}
use mini_dht.Key.Bits.{bit}
use mini_dht.Key.Digest.{string_to_key}
use mini_dht.Contact.{ContactProto}
use mini_dht.Bucket.{
  Bucket, Entry, left_first, right_first, new_bucket, find_key, add_contact, to_time_t, evict,
  erase_first, time_positions, time_read, remove_contact,
}
use mini_dht.Base.Maps.{insert_or_assign}
use mini_dht.Bucket.Multimap.{count, erase_at}
use mini_dht.Bucket.Evict.{Earliest, evict-Earliest}
use mini_dht.Bucket.Valid.{IsValid, new_bucket-IsValid, add_contact-IsValid}
use mini_dht.Bucket.Lookup.{find_key-add_contact_self}
use mini_dht.Bucket.Remove.{removal, remove_contact-removal}
use mini_dht.Tests.Data.{me, alice, bob, alice_apart, home, contact, knows_alice}

add_contact-IsValid_example : IsValid (add_contact (right_first 0) 6000000 bob home knows_alice)
add_contact-IsValid_example =
    add_contact-IsValid (right_first 0) 6000000 bob home knows_alice (
      add_contact-IsValid (right_first 0) 5000000 alice home (new_bucket me)
        (new_bucket-IsValid me))

find_key-add_contact_self_example :
    (c : ContactProto) × (find_key alice knows_alice ≡ some c)
    × (c.key ≡ alice)
    × (c.ep ≡ home)
    × (c.time ≡ some (to_time_t 5000000))
unfolding new_bucket
find_key-add_contact_self_example =
    find_key-add_contact_self (right_first 0) 5000000 alice home (new_bucket me) alice_apart

abbrev two_entries : List Entry
two_entries = (5, contact alice 9) ∷ (5, contact bob 4) ∷ []

evict-Earliest_example :
    (i : ℕ) × Earliest left_first 5 two_entries i
    × (evict left_first 5 two_entries ≡ erase_at i two_entries)
unfolding count
evict-Earliest_example = evict-Earliest left_first 5 two_entries (omega arith)

-- With `ite++` first, the contact before the oldest one is dropped.
evict_right_first : evict (right_first 7) 5 two_entries ≡ (5, contact bob 4) ∷ []
unfolding evict erase_first time_positions time_read insert_or_assign erase_at
evict_right_first = refl

abbrev bucket_of : List Entry → Bucket
bucket_of es = record { now = 0; local_key = me; map_proximity = []; changed = true; entries = es }

remove_contact-removal_example :
    remove_contact home (bucket_of two_entries) ≡ removal home two_entries
remove_contact-removal_example = remove_contact-removal home (bucket_of two_entries)

-- A generator whose first bit differs from the highest one of the key.
abbrev other_bit : ℕ → ℕ
other_bit i = if bit (string_to_key me) 255 then 0 else 1

other_bit_differs : (b : Bool) → xor b (not ((if b then 0 else 1) % 2 == 0)) ≡ true
other_bit_differs true = refl
other_bit_differs false = refl
