-- ===== src/Base/Slices.antt =====
-- Parts of a list of bytes, and writes into one.
use Prim.Native.Nat.{ℕ, zero, suc, ◌+◌, ◌-◌, ◌≤◌}
use mathlib.Core.Path.{◌≡◌, refl, ap}
use mathlib.Core.List.{List, [], ◌∷◌, ◌++◌}
use mathlib.Core.Option.{Option, none, some}
use native.Mathlib.Omega.{arith}
use mini_dht.Base.Tests.{leb, if◌then◌else◌}
use mini_dht.Base.Lists.{length, take, length-append}

module _ {ℓ} {A : Type ℓ} where
  abbrev pub drop : ℕ → List A → List A
  drop zero xs = xs
  drop (suc n) [] = []
  drop (suc n) (x ∷ xs) = drop n xs

  -- `memcpy` of `xs` to position `i` of a buffer; `none` is a write past its end.
  unfoldable pub put_at : ℕ → List A → List A → Option (List A)
  put_at i xs b =
      if leb (i + length xs) (length b)
      then some (take i b ++ (xs ++ drop (i + length xs) b))
      else none

  pub length-take : (n : ℕ) (xs : List A) → n ≤ length xs → length (take n xs) ≡ n
  length-take zero xs h = refl
  length-take (suc n) [] h = absurd (omega arith)
  length-take (suc n) (x ∷ xs) h = omega (arith, length-take n xs (omega arith))

  pub length-drop : (n : ℕ) (xs : List A) → length (drop n xs) ≡ length xs - n
  length-drop zero xs = omega arith
  length-drop (suc n) [] = omega arith
  length-drop (suc n) (x ∷ xs) = omega (arith, length-drop n xs)

  pub take-append : (n : ℕ) (xs ys : List A) → length xs ≡ n → take n (xs ++ ys) ≡ xs
  take-append zero [] ys h = refl
  take-append zero (x ∷ xs) ys h = absurd (omega (arith, h))
  take-append (suc n) [] ys h = absurd (omega (arith, h))
  take-append (suc n) (x ∷ xs) ys h =
      ap (λ (z : List A). x ∷ z) (take-append n xs ys (omega (arith, h)))

  pub drop-append : (n : ℕ) (xs ys : List A) → length xs ≡ n → drop n (xs ++ ys) ≡ ys
  drop-append zero [] ys h = refl
  drop-append zero (x ∷ xs) ys h = absurd (omega (arith, h))
  drop-append (suc n) [] ys h = absurd (omega (arith, h))
  drop-append (suc n) (x ∷ xs) ys h = drop-append n xs ys (omega (arith, h))

  -- A write that fits leaves what stands before it, the size, and itself at its place.
  pub put_at_fits :
      (i : ℕ) (xs b : List A)
      → i + length xs ≤ length b
      → (post : List A) × (put_at i xs b ≡ some (take i b ++ (xs ++ post)))
        × (length (take i b ++ (xs ++ post)) ≡ length b)
  unfolding put_at
  put_at_fits i xs b fits = (
    drop (i + length xs) b,
    ground arith,
    omega (
      arith,
      length-append (take i b) (xs ++ drop (i + length xs) b),
      length-append xs (drop (i + length xs) b),
      length-take i b,
      length-drop (i + length xs) b,
    ),
  )
