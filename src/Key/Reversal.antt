-- ===== src/Key/Reversal.antt =====
-- `key_to_string` after `string_to_key`: the bytes come back in the opposite order.
use mathlib.Core.List.{reverse, reverse-cons, append-nil}
use mini_dht.Base.{
  ℕ, zero, suc, ◌+◌, ◌*◌, ◌/◌, ◌%◌, ◌^◌, ◌<◌, ◌≤◌, ◌≡◌, refl, sym, ap, ◌∙◌, Bool, List, [], ◌∷◌,
  ◌++◌, arith, length, All, Bytes,
}
use mini_dht.Key.Bits.{key_size, bit, tabulate}
use mini_dht.Key.Digest.{
  byte_at, digest_bit, digest_to_bitset, string_to_key, bit_value, bits_byte, hex_digit, hex_byte,
  hex_text, key_text, key_to_string, digest_to_string, digest_length, read_digest,
}
use mini_dht.Key.Hex.{read_digest-digest_to_string}

pub length-tabulate : (n : ℕ) (f : ℕ → Bool) → length (tabulate n f) ≡ n
unfolding tabulate
length-tabulate zero f = refl
length-tabulate (suc n) f = ap suc (length-tabulate n f)

pub bit-tabulate : (n : ℕ) (f : ℕ → Bool) (i : ℕ) → i < n → bit (tabulate n f) i ≡ f i
unfolding tabulate bit
bit-tabulate zero f i h = absurd (omega arith)
bit-tabulate (suc n) f i h = ground (arith, length-tabulate n f, bit-tabulate n f i)

pub length-string_to_key : (s : Bytes) → length (string_to_key s) ≡ key_size
unfolding string_to_key digest_to_bitset
length-string_to_key s = length-tabulate key_size (digest_bit (read_digest digest_length s))

-- Bit `i`, the `j`-th of byte `n`.
bit-digest_to_bitset :
    (d : List ℕ) (size n j i : ℕ)
    → n < 32
    → j < 8
    → i ≡ 8 * n + j
    → 8 * n + 8 ≤ size
    → bit_value (bit (digest_to_bitset size d) i) ≡ byte_at d n / 2 ^ j % 2
unfolding digest_to_bitset digest_bit
bit-digest_to_bitset d size n j i p q e fits =
    let row : i / 8 % 32 ≡ n = omega arith in
    let column : i % 8 ≡ j = omega arith in
    rw (bit-tabulate size (digest_bit d) i (omega arith), row, column) (ground arith)

bits_byte-digest :
    (d : List ℕ) (size n : ℕ)
    → n < 32
    → 8 * n + 8 ≤ size
    → byte_at d n < 256
    → bits_byte (digest_to_bitset size d) (8 * n) ≡ byte_at d n
unfolding bits_byte
bits_byte-digest d size n p fits q =
    let b = λ (j : ℕ) (i : ℕ). bit-digest_to_bitset d size n j i p in
    omega (
      arith,
      b 0 (8 * n) (omega arith) (omega arith) fits,
      b 1 (8 * n + 1) (omega arith) (omega arith) fits,
      b 2 (8 * n + 2) (omega arith) (omega arith) fits,
      b 3 (8 * n + 3) (omega arith) (omega arith) fits,
      b 4 (8 * n + 4) (omega arith) (omega arith) fits,
      b 5 (8 * n + 5) (omega arith) (omega arith) fits,
      b 6 (8 * n + 6) (omega arith) (omega arith) fits,
      b 7 (8 * n + 7) (omega arith) (omega arith) fits,
    )

hex_text-hex_byte : (v : ℕ) → hex_text v ≡ hex_byte v
unfolding hex_text hex_byte hex_digit
hex_text-hex_byte v = ground arith

-- The first `n` bytes, the last one first.
last_bytes : ℕ → List ℕ → List ℕ
last_bytes zero d = []
last_bytes (suc n) d = byte_at d n ∷ last_bytes n d

last_bytes-cons :
    (n : ℕ) (x : ℕ) (xs : List ℕ) → last_bytes (suc n) (x ∷ xs) ≡ last_bytes n xs ++ x ∷ []
unfolding last_bytes byte_at
last_bytes-cons zero x xs = refl
last_bytes-cons (suc n) x xs = ap (◌∷◌ (byte_at xs n)) (last_bytes-cons n x xs)

last_bytes-reverse : (d : List ℕ) → last_bytes (length d) d ≡ reverse d
unfolding last_bytes
last_bytes-reverse [] = refl
last_bytes-reverse (x ∷ xs) =
    last_bytes-cons (length xs) x xs
    ∙ ap (λ t. t ++ x ∷ []) (last_bytes-reverse xs)
    ∙ sym (reverse-cons x xs)

byte_at-lt : (d : List ℕ) (n : ℕ) → All (λ c. c < 256) d → byte_at d n < 256
unfolding byte_at
byte_at-lt [] n h = omega arith
byte_at-lt (x ∷ xs) zero h = h.0
byte_at-lt (x ∷ xs) (suc n) h = byte_at-lt xs n h.1

key_text-last_bytes :
    (size n : ℕ) (d : List ℕ)
    → n ≤ 32
    → 8 * n ≤ size
    → All (λ c. c < 256) d
    → key_text n (digest_to_bitset size d) ≡ digest_to_string (last_bytes n d)
unfolding key_text digest_to_string last_bytes
key_text-last_bytes size zero d p fits h = refl
key_text-last_bytes size (suc n) d p fits h = rw (
  bits_byte-digest d size n (omega arith) (omega arith) (byte_at-lt d n h),
  hex_text-hex_byte (byte_at d n),
  key_text-last_bytes size n d (omega arith) (omega arith) h,
)

reads :
    (d : List ℕ)
    → length d ≡ digest_length
    → All (λ c. c < 256) d
    → read_digest digest_length (digest_to_string d) ≡ d
reads d len h =
    ap (λ n. read_digest n (digest_to_string d)) (sym len)
    ∙ ap (read_digest (length d)) (sym (append-nil (digest_to_string d)))
    ∙ read_digest-digest_to_string d [] h

-- A key that is read from the text of a digest of 32 bytes is written with its bytes in the
-- opposite order.
pub key_to_string-string_to_key :
    (d : List ℕ)
    → length d ≡ digest_length
    → All (λ c. c < 256) d
    → key_to_string (string_to_key (digest_to_string d)) ≡ digest_to_string (reverse d)
unfolding key_to_string string_to_key
key_to_string-string_to_key d len h =
    ap (λ t. key_text 32 (digest_to_bitset key_size t)) (reads d len h)
    ∙ key_text-last_bytes key_size 32 d (omega arith) (omega arith) h
    ∙ ap digest_to_string (ap (λ n. last_bytes n d) (sym len) ∙ last_bytes-reverse d)
