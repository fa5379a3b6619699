-- ===== src/Bucket/Random.antt =====
-- `random_key_in_bucket`, which keeps the low bits of the node's key and draws the high ones.
use mini_dht.Base.{
  ℕ, suc, ◌+◌, ◌-◌, ◌%◌, ◌<◌, ◌≡◌, true, false, not, xor, arith, Bytes, length, ltb, ◌==◌,
  if◌then◌else◌, [], ◌∷◌,
}
use mini_dht.Key.Bits.{Bits, key_size, bit, common_bits}
use mini_dht.Key.Digest.{string_to_key}
use mini_dht.Key.Reversal.{bit-tabulate, length-tabulate, length-string_to_key}
use mini_dht.Key.Prefix.{common_bits-cons}
use mini_dht.Bucket.{random_bits_in_bucket}

-- The bits with an index below the bucket's number are those of the node's own key, the others
-- are drawn.
pub bit-random_bits_in_bucket :
    (random : ℕ → ℕ) (n bn : ℕ) (local : Bytes) (i : ℕ)
    → i < key_size
    → bit (random_bits_in_bucket random n bn local) i
      ≡ (if ltb i bn then bit (string_to_key local) i else not (random (n + (i - bn)) % 2 == 0))
unfolding random_bits_in_bucket
bit-random_bits_in_bucket random n bn local i h =
    bit-tabulate key_size
      (λ i. if ltb i bn then bit (string_to_key local) i else not (random (n + (i - bn)) % 2 == 0))
      i h

common_bits_top :
    (m : ℕ) (a b : Bits)
    → length a ≡ suc m
    → length b ≡ suc m
    → xor (bit a m) (bit b m) ≡ true
    → common_bits a b ≡ 0
unfolding bit
common_bits_top m [] b p q h = absurd (omega arith)
common_bits_top m (x ∷ xs) [] p q h = absurd (omega arith)
common_bits_top m (x ∷ xs) (y ∷ ys) p q h = ground (arith, common_bits-cons x y xs ys)

length-random_bits_in_bucket :
    (random : ℕ → ℕ) (n bn : ℕ) (local : Bytes)
    → length (random_bits_in_bucket random n bn local) ≡ key_size
unfolding random_bits_in_bucket
length-random_bits_in_bucket random n bn local =
    length-tabulate key_size
      (λ i. if ltb i bn then bit (string_to_key local) i else not (random (n + (i - bn)) % 2 == 0))

not-ltb : (bn : ℕ) → bn < key_size → ltb 255 bn ≡ false
not-ltb bn h = ground arith

-- For any bucket number below the size of a key, the random key comes out in bucket 0 as soon as
-- the draw for the highest bit differs from the node's own bit.
pub random_bits_in_bucket-common_bits :
    (random : ℕ → ℕ) (n bn : ℕ) (local : Bytes)
    → bn < key_size
    → xor (bit (string_to_key local) 255) (not (random (n + (255 - bn)) % 2 == 0)) ≡ true
    → common_bits (string_to_key local) (random_bits_in_bucket random n bn local) ≡ 0
random_bits_in_bucket-common_bits random n bn local h differs =
    common_bits_top 255 (string_to_key local) (random_bits_in_bucket random n bn local)
      (length-string_to_key local) (length-random_bits_in_bucket random n bn local)
      (rw (bit-random_bits_in_bucket random n bn local 255 (omega arith), not-ltb bn h) differs)
