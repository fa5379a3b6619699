-- ===== src/Key/Order.antt =====
-- `operator<` on keys against the order of their text, by which `std::map` sorts the distances.
use mini_dht.Base.{◌≡◌, refl, true, false, [], ◌∷◌, arith, length, str_lt, inl, inr, Bool-cases}
use mini_dht.Key.Bits.{Bits, bits_eq, bits_lt, bits_lt_loop, to_string}

bits_lt_loop-str_lt :
    (a b : Bits) → length a ≡ length b → bits_lt_loop a b ≡ str_lt (to_string a) (to_string b)
unfolding bits_lt_loop to_string str_lt
bits_lt_loop-str_lt [] [] h = refl
bits_lt_loop-str_lt [] (y ∷ ys) h = absurd (omega arith)
bits_lt_loop-str_lt (x ∷ xs) [] h = absurd (omega arith)
bits_lt_loop-str_lt (true ∷ xs) (true ∷ ys) h = bits_lt_loop-str_lt xs ys (omega arith)
bits_lt_loop-str_lt (true ∷ xs) (false ∷ ys) h = refl
bits_lt_loop-str_lt (false ∷ xs) (true ∷ ys) h = refl
bits_lt_loop-str_lt (false ∷ xs) (false ∷ ys) h = bits_lt_loop-str_lt xs ys (omega arith)

pub bits_eq_sound : (a b : Bits) → bits_eq a b ≡ true → a ≡ b
unfolding bits_eq
bits_eq_sound [] [] h = refl
bits_eq_sound [] (y ∷ ys) h = ground arith
bits_eq_sound (x ∷ xs) [] h = ground arith
bits_eq_sound (x ∷ xs) (y ∷ ys) h = ground (arith, bits_eq_sound xs ys)

bits_lt_loop_self : (a : Bits) → bits_lt_loop a a ≡ false
unfolding bits_lt_loop
bits_lt_loop_self [] = refl
bits_lt_loop_self (true ∷ a) = bits_lt_loop_self a
bits_lt_loop_self (false ∷ a) = bits_lt_loop_self a

-- On keys of one size `operator<` is the lexicographic order of their `to_string`.
pub bits_lt-str_lt :
    (a b : Bits) → length a ≡ length b → bits_lt a b ≡ str_lt (to_string a) (to_string b)
unfolding bits_lt
bits_lt-str_lt a b h = elim (Bool-cases (bits_eq a b)) [
  | inl same ↦ rw same (cc (bits_lt_loop_self a, bits_eq_sound a b same, bits_lt_loop-str_lt a b h))
  | inr other ↦ rw other (bits_lt_loop-str_lt a b h)
]
