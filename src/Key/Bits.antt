-- ===== src/Key/Bits.antt =====
-- Sources/miniDHT_const.h: bit sets, their order, `common_bits` and `random_bitset`.
-- A `std::bitset<SIZE>` is the list of its bits in the order of `to_string`, bit SIZE - 1 first.
use mini_dht.Base.{
  ℕ, zero, suc, ◌+◌, ◌%◌, Bool, true, false, not, xor, List, [], ◌∷◌, map, ◌||◌, Bytes, length,
  ◌==◌, if◌then◌else◌,
}

abbrev pub Bits : Type 0
Bits = List Bool

-- miniDHT_const.h, line 47.
abbrev pub key_size : ℕ
key_size = 256

-- Line 49.
abbrev pub token_size : ℕ
token_size = 32

-- Line 52.
abbrev pub alpha : ℕ
alpha = 3

-- Line 54.
abbrev pub bucket_size : ℕ
bucket_size = 5

-- `b[i]`: the head of the list is the bit with the largest index.
unfoldable pub bit : Bits → ℕ → Bool
bit [] i = false
bit (x ∷ xs) i = if i == length xs then x else bit xs i

-- `for (i = 0; i < size; ++i) b[i] = f(i);`
unfoldable pub tabulate : ℕ → (ℕ → Bool) → Bits
tabulate zero f = []
tabulate (suc n) f = f n ∷ tabulate n f

unfoldable pub bits_eq : Bits → Bits → Bool
bits_eq [] [] = true
bits_eq [] (y ∷ ys) = false
bits_eq (x ∷ xs) [] = false
bits_eq (x ∷ xs) (y ∷ ys) = if xor x y then false else bits_eq xs ys

-- `a ^ b`
unfoldable pub bits_xor : Bits → Bits → Bits
bits_xor [] ys = []
bits_xor (x ∷ xs) [] = []
bits_xor (x ∷ xs) (y ∷ ys) = xor x y ∷ bits_xor xs ys

-- `~a`
unfoldable pub bits_not : Bits → Bits
bits_not = map not

-- `a.to_string()`: bytes '0' and '1', the highest bit first.
unfoldable pub to_string : Bits → Bytes
to_string = map (λ b. if b then b'1' else b'0')

-- The loop of `operator<`, from the highest bit down.
unfoldable pub bits_lt_loop : Bits → Bits → Bool
bits_lt_loop [] ys = false
bits_lt_loop (x ∷ xs) [] = false
bits_lt_loop (x ∷ xs) (y ∷ ys) =
    if x
    then (if not y then false else bits_lt_loop xs ys)
    else (if y then true else bits_lt_loop xs ys)

unfoldable pub bits_lt : Bits → Bits → Bool
unfolding bits_lt_loop bits_eq
bits_lt a b = if bits_eq a b then false else bits_lt_loop a b

unfoldable pub bits_le : Bits → Bits → Bool
unfolding bits_lt bits_eq
bits_le a b = bits_lt a b || bits_eq a b

-- The loop of `common_bits` from index `i`; past the last bit `i` is SIZE.
unfoldable pub common_bits_from : ℕ → Bits → Bits → ℕ
common_bits_from i [] ys = i
common_bits_from i (x ∷ xs) [] = i
common_bits_from i (x ∷ xs) (y ∷ ys) = if xor x y then i else common_bits_from (suc i) xs ys

unfoldable pub common_bits : Bits → Bits → ℕ
unfolding common_bits_from
common_bits a b = common_bits_from 0 a b

-- Successive calls of `random()` return `random 0`, `random 1`, ...; a draw starts at call `n`.
unfoldable pub random_bitset : (ℕ → ℕ) → ℕ → ℕ → Bits
unfolding tabulate
random_bitset random n size = tabulate size (λ i. not (random (n + i) % 2 == 0))

-- `b.to_ulong()`
unfoldable pub to_ulong_from : ℕ → Bits → ℕ
to_ulong_from acc [] = acc
to_ulong_from acc (x ∷ xs) = to_ulong_from (acc + acc + (if x then 1 else 0)) xs

unfoldable pub to_ulong : Bits → ℕ
unfolding to_ulong_from
to_ulong b = to_ulong_from 0 b
