-- ===== src/Key/Prefix.antt =====
-- Laws of `common_bits`: the common prefix of two keys, and how it bounds their XOR distance.
use mini_dht.Base.{
  ℕ, zero, suc, ◌+◌, ◌≤◌, ◌<◌, ◌≡◌, refl, ◌↔◌, true, [], ◌∷◌, arith, length, str_lt, xor,
  if◌then◌else◌,
}
use mini_dht.Key.Bits.{Bits, common_bits, common_bits_from, bits_xor, to_string}

pub common_bits_from-add :
    (i : ℕ) (a b : Bits) → common_bits_from i a b ≡ i + common_bits_from 0 a b
unfolding common_bits_from
common_bits_from-add i [] b = omega arith
common_bits_from-add i (x ∷ xs) [] = omega arith
common_bits_from-add i (x ∷ xs) (y ∷ ys) =
    ground (arith, common_bits_from-add (suc i) xs ys, common_bits_from-add 1 xs ys)

-- The clauses of `common_bits` as a plain recursion.
pub common_bits-cons :
    (x y : _) (xs ys : Bits)
    → common_bits (x ∷ xs) (y ∷ ys) ≡ (if xor x y then 0 else suc (common_bits xs ys))
unfolding common_bits common_bits_from
common_bits-cons x y xs ys = ground (arith, common_bits_from-add 1 xs ys)

pub common_bits_comm : (a b : Bits) → length a ≡ length b → common_bits a b ≡ common_bits b a
common_bits_comm [] [] h = refl
common_bits_comm [] (y ∷ ys) h = absurd (omega arith)
common_bits_comm (x ∷ xs) [] h = absurd (omega arith)
common_bits_comm (x ∷ xs) (y ∷ ys) h =
    ground (arith, common_bits-cons x y xs ys, common_bits-cons y x ys xs, common_bits_comm xs ys)

pub common_bits-le-length : (a b : Bits) → common_bits a b ≤ length a
unfolding common_bits common_bits_from
common_bits-le-length [] b = omega arith
common_bits-le-length (x ∷ xs) [] = omega arith
common_bits-le-length (x ∷ xs) (y ∷ ys) =
    ground (arith, common_bits-cons x y xs ys, common_bits-le-length xs ys)

pub common_bits_self : (a : Bits) → common_bits a a ≡ length a
unfolding common_bits common_bits_from
common_bits_self [] = refl
common_bits_self (x ∷ xs) = ground (arith, common_bits-cons x x xs xs, common_bits_self xs)

eq_of_common_bits : (a b : Bits) → length a ≡ length b → common_bits a b ≡ length a → a ≡ b
eq_of_common_bits [] [] h e = refl
eq_of_common_bits [] (y ∷ ys) h e = absurd (omega arith)
eq_of_common_bits (x ∷ xs) [] h e = absurd (omega arith)
eq_of_common_bits (x ∷ xs) (y ∷ ys) h e =
    ground (arith, common_bits-cons x y xs ys, eq_of_common_bits xs ys)

-- Two keys of one size are equal exactly when all their bits are common.
pub common_bits-eq-length_iff :
    (a b : Bits) → length a ≡ length b → (common_bits a b ≡ length a) ↔ (a ≡ b)
common_bits-eq-length_iff a b h = (eq_of_common_bits a b h, λ e. rw e (common_bits_self b))

-- The common prefix is an ultrametric: what two keys share with a third they share.
pub common_bits_trans :
    (n : ℕ) (a b c : Bits) → n ≤ common_bits a b → n ≤ common_bits b c → n ≤ common_bits a c
unfolding common_bits common_bits_from
common_bits_trans zero a b c p q = omega arith
common_bits_trans (suc n) [] b c p q = absurd (omega arith)
common_bits_trans (suc n) (x ∷ xs) [] c p q = absurd (omega arith)
common_bits_trans (suc n) (x ∷ xs) (y ∷ ys) [] p q = absurd (omega arith)
common_bits_trans (suc n) (x ∷ xs) (y ∷ ys) (z ∷ zs) p q = ground (
  arith,
  common_bits-cons x y xs ys,
  common_bits-cons y z ys zs,
  common_bits-cons x z xs zs,
  common_bits_trans n xs ys zs,
)

-- Of two keys of one size with `d`, the one that shares more leading bits with `d` is strictly
-- nearer to `d` in the XOR distance, as the text of the distance is ordered.
pub common_bits-str_lt :
    (a b d : Bits)
    → length a ≡ length d
    → length b ≡ length d
    → common_bits a d < common_bits b d
    → str_lt (to_string (bits_xor b d)) (to_string (bits_xor a d)) ≡ true
unfolding bits_xor to_string str_lt
common_bits-str_lt [] [] [] p q h = absurd (omega arith)
common_bits-str_lt (x ∷ xs) (y ∷ ys) (z ∷ zs) p q h =
    ground
      (arith, common_bits-cons x z xs zs, common_bits-cons y z ys zs, common_bits-str_lt xs ys zs)
common_bits-str_lt a b d p q h = absurd (omega arith)
