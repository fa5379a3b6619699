-- ===== src/Key/Hex.antt =====
-- Keys and digests as text, there and back.
use mini_dht.Base.{
  ℕ, ◌+◌, ◌*◌, ◌/◌, ◌%◌, ◌<◌, ◌≡◌, refl, ap, false, List, [], ◌∷◌, ◌++◌, some, arith, length, All,
  Bytes, ◌==◌,
}
use mini_dht.Key.Digest.{
  hex_digit, digest_to_string, is_space, read_char, read_or_zero, digit_value, strtoul_byte,
  parse_digits, read_digest,
}

is_space-hex_digit : (d : ℕ) → d < 16 → is_space (hex_digit d) ≡ false
unfolding is_space hex_digit
is_space-hex_digit d h = ground arith

digit_value-hex_digit : (d : ℕ) → d < 16 → digit_value (hex_digit d) ≡ some d
unfolding digit_value hex_digit
digit_value-hex_digit d h = ground arith

hex_digit-not-sign :
    (d : ℕ) → d < 16 → ((hex_digit d == b'+') ≡ false) × ((hex_digit d == b'-') ≡ false)
unfolding hex_digit
hex_digit-not-sign d h = ground arith

read_or_zero-hex_digit :
    (d : ℕ) (s : Bytes) → d < 16 → read_or_zero (hex_digit d ∷ s) ≡ (hex_digit d, s)
unfolding read_or_zero read_char
read_or_zero-hex_digit d s h = ground (arith, is_space-hex_digit d h)

strtoul_byte-hex_digit :
    (c d : ℕ) → c < 16 → d < 16 → strtoul_byte (hex_digit c) (hex_digit d) ≡ c * 16 + d
unfolding strtoul_byte parse_digits
strtoul_byte-hex_digit c d p q =
    ground (arith, hex_digit-not-sign c p, digit_value-hex_digit c p, digit_value-hex_digit d q)

-- `operator>>` reads back the digest of bytes that `operator<<` wrote, whatever text follows it.
pub read_digest-digest_to_string :
    (d : List ℕ) (rest : Bytes)
    → All (λ c. c < 256) d
    → read_digest (length d) (digest_to_string d ++ rest) ≡ d
unfolding read_digest digest_to_string
read_digest-digest_to_string [] rest h = refl
read_digest-digest_to_string (c ∷ cs) rest h =
    rw
      (
        read_or_zero-hex_digit (c / 16) _ (omega arith),
        read_or_zero-hex_digit (c % 16) _ (omega arith),
        strtoul_byte-hex_digit (c / 16) (c % 16) (omega arith) (omega arith),
        read_digest-digest_to_string cs rest h.1,
      )
      (ap (λ x. x ∷ cs) (omega arith))
