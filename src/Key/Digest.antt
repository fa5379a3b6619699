-- ===== src/Key/Digest.antt =====
-- Sources/miniDHT_const.cpp, digests as text, and the conversions between digests, keys and
-- text of Sources/miniDHT_const.h. A `digest_t` is the list of its bytes `c[0]`, `c[1]`, ...
use mini_dht.Base.{
  ℕ, zero, suc, ◌+◌, ◌-◌, ◌*◌, ◌/◌, ◌%◌, ◌^◌, Bool, true, false, not, ◌&&◌, ◌||◌, List, [], ◌∷◌,
  ◌++◌, Option, none, some, Bytes, ltb, leb, ◌==◌, if◌then◌else◌,
}
use mini_dht.Key.Bits.{Bits, key_size, bit, tabulate}

-- miniDHT_const.h, line 61.
abbrev pub digest_length : ℕ
digest_length = 32

unfoldable pub byte_at : List ℕ → ℕ → ℕ
byte_at [] i = 0
byte_at (x ∷ xs) zero = x
byte_at (x ∷ xs) (suc i) = byte_at xs i

unfoldable pub digest_eq : List ℕ → List ℕ → Bool
digest_eq [] [] = true
digest_eq [] (y ∷ ys) = false
digest_eq (x ∷ xs) [] = false
digest_eq (x ∷ xs) (y ∷ ys) = if not (x == y) then false else digest_eq xs ys

unfoldable pub digest_ne : List ℕ → List ℕ → Bool
unfolding digest_eq
digest_ne a b = not (digest_eq a b)

unfoldable pub hex_digit : ℕ → ℕ
hex_digit d = if ltb d 10 then b'0' + d else b'a' + (d - 10)

-- `sprintf("%02x", v)` for a byte.
unfoldable pub hex_byte : ℕ → Bytes
unfolding hex_digit
hex_byte v = hex_digit (v / 16) ∷ hex_digit (v % 16) ∷ []

-- `operator<<`
unfoldable pub digest_to_string : List ℕ → Bytes
unfolding hex_byte
digest_to_string [] = []
digest_to_string (c ∷ cs) = hex_byte c ++ digest_to_string cs

unfoldable pub is_space : ℕ → Bool
is_space c = c == 32 || (leb 9 c && leb c 13)

-- `is >> c` for a `char`: skips white space; `none` at the end of the stream.
unfoldable pub read_char : Bytes → Option (ℕ × Bytes)
unfolding is_space
read_char [] = none
read_char (c ∷ cs) = if is_space c then read_char cs else some (c, cs)

-- The value of a digit in base 16.
unfoldable pub digit_value : ℕ → Option ℕ
digit_value c =
    if leb b'0' c && leb c b'9'
    then some (c - b'0')
    else if leb b'a' c && leb c b'f'
    then some (c - b'a' + 10)
    else if leb b'A' c && leb c b'F'
    then some (c - b'A' + 10)
    else none

-- `strtoul(s, NULL, 16)` on the digits of a text of at most two characters, that ends at the
-- first character that is no digit. A prefix "0x" with nothing behind it reads as 0 too.
unfoldable pub parse_digits : ℕ → ℕ → ℕ
unfolding digit_value
parse_digits c d = elim (digit_value c) [
  | none ↦ 0
  | some v ↦ elim (digit_value d) [ none ↦ v | some w ↦ v * 16 + w ]
]

unfoldable pub parse_digit : ℕ → ℕ
unfolding digit_value
parse_digit c = elim (digit_value c) [ none ↦ 0 | some v ↦ v ]

-- With a sign in front; the result is stored in an `unsigned char`.
unfoldable pub strtoul_byte : ℕ → ℕ → ℕ
unfolding parse_digits parse_digit
strtoul_byte c d =
    if c == b'+'
    then parse_digit d
    else if c == b'-'
    then (256 - parse_digit d) % 256
    else parse_digits c d

-- `is >> hex_hash[i]` where the buffer held 0: the character read and the rest of the stream.
unfoldable pub read_or_zero : Bytes → ℕ × Bytes
unfolding read_char
read_or_zero s = elim (read_char s) [ none ↦ (0, []) | some (c, rest) ↦ (c, rest) ]

-- `operator>>` for `n` bytes.
unfoldable pub read_digest : ℕ → Bytes → List ℕ
unfolding read_or_zero strtoul_byte
read_digest zero s = []
read_digest (suc n) s =
    let (c, s') = read_or_zero s in
    let (d, s'') = read_or_zero s' in strtoul_byte c d ∷ read_digest n s''

unfoldable pub digest_bit : List ℕ → ℕ → Bool
unfolding byte_at
digest_bit d i = byte_at d (i / 8 % digest_length) / 2 ^ (i % 8) % 2 == 1

unfoldable pub digest_to_bitset : ℕ → List ℕ → Bits
digest_to_bitset size d = tabulate size (digest_bit d)

unfoldable pub string_to_key : Bytes → Bits
string_to_key s = digest_to_bitset key_size (read_digest digest_length s)

abbrev pub bit_value : Bool → ℕ
bit_value b = if b then 1 else 0

-- `byte[j] = b[i + j]` for the eight `j`, then `byte.to_ulong()`.
unfoldable pub bits_byte : Bits → ℕ → ℕ
unfolding bit
bits_byte b i =
    bit_value (bit b i)
    + 2 * bit_value (bit b (i + 1))
    + 4 * bit_value (bit b (i + 2))
    + 8 * bit_value (bit b (i + 3))
    + 16 * bit_value (bit b (i + 4))
    + 32 * bit_value (bit b (i + 5))
    + 64 * bit_value (bit b (i + 6))
    + 128 * bit_value (bit b (i + 7))

-- `std::hex << v`, after a "0" where the value is below 16.
unfoldable pub hex_text : ℕ → Bytes
unfolding hex_digit
hex_text v =
    if ltb v 16 then b'0' ∷ hex_digit v ∷ [] else hex_digit (v / 16) ∷ hex_digit (v % 16) ∷ []

-- The loop of `key_to_string` with `n` bytes to go, the highest first.
unfoldable pub key_text : ℕ → Bits → Bytes
unfolding hex_text bits_byte
key_text zero b = []
key_text (suc n) b = hex_text (bits_byte b (8 * n)) ++ key_text n b

-- At `KEY_SIZE` the test `SIZE % 8` never throws.
unfoldable pub key_to_string : Bits → Bytes
key_to_string b = key_text (key_size / 8) b

-- A bit set of another size throws.
unfoldable pub sized_key_to_string : ℕ → Bits → Option Bytes
sized_key_to_string size b = if size % 8 == 0 then some (key_text (size / 8) b) else none
