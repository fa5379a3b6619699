-- ===== src/Base/Maps.antt =====
-- `std::map` as a list of pairs in rising order of the keys, over the key's strict order `lt`.
use mathlib.Core.Path.{◌≡◌, refl}
use mathlib.Core.Bool.{Bool, true, false}
use mathlib.Core.Option.{Option, none, some}
use mathlib.Core.List.{List, [], ◌∷◌}
use native.Mathlib.Omega.{arith}
use mini_dht.Base.Tests.{ltb, if◌then◌else◌, Bool-cases}
use mini_dht.Base.Lists.{All, All-weaken}
use mathlib.Core.Logic.{inl, inr, ◌≢◌}
use mini_dht.Base.Text.{str_lt, str_lt_self, str_lt_trans, str_lt-connected}

-- What `std::map` asks of its comparison: a strict order in which unordered keys are equal.
pub record IsStrictOrder {ℓ} {K : Type ℓ} (lt : K → K → Bool) : Type ℓ where
  pub irreflexive : (a : K) → lt a a ≡ false
  pub transitive : (a b c : K) → lt a b ≡ true → lt b c ≡ true → lt a c ≡ true
  pub connected : (a b : K) → lt a b ≡ false → lt b a ≡ false → a ≡ b

pub str_lt-IsStrictOrder : IsStrictOrder str_lt
str_lt-IsStrictOrder = record {
  irreflexive = str_lt_self;
  transitive = str_lt_trans;
  connected = str_lt-connected;
}

pub ltb-IsStrictOrder : IsStrictOrder ltb
ltb-IsStrictOrder = record {
  irreflexive = λ a. ground arith;
  transitive = λ a b c p q. ground arith;
  connected = λ a b p q. ground arith;
}

abbrev pub Map {ℓ κ} : Type ℓ → Type κ → Type (ℓ ⊔ κ)
Map K V = List (K × V)

-- A test that passes.
abbrev pub Holds : Bool → Type 0
Holds b = b ≡ true

module _ {ℓ κ} {K : Type ℓ} {V : Type κ} (lt : K → K → Bool) where
  -- `m[k] = v`
  unfoldable pub insert_or_assign : K → V → Map K V → Map K V
  insert_or_assign k v [] = (k, v) ∷ []
  insert_or_assign k v ((j, w) ∷ m) =
      if lt j k
      then (j, w) ∷ insert_or_assign k v m
      else if lt k j
      then (k, v) ∷ (j, w) ∷ m
      else (k, v) ∷ m

  -- `m.find(k)`, `none` for `m.end()`
  unfoldable pub find : K → Map K V → Option V
  find k [] = none
  find k ((j, w) ∷ m) = if lt j k then find k m else if lt k j then find k m else some w

  -- `m.erase(k)`
  unfoldable pub erase : K → Map K V → Map K V
  erase k [] = []
  erase k ((j, w) ∷ m) =
      if lt j k then (j, w) ∷ erase k m else if lt k j then (j, w) ∷ erase k m else erase k m

  -- Iteration goes by rising keys.
  abbrev pub Ascending : Map K V → Type (ℓ ⊔ κ)
  Ascending [] = Unit
  Ascending ((k, v) ∷ m) = All (λ e. Holds (lt k e.0)) m × Ascending m

  pub All-insert_or_assign {μ} :
      (P : K × V → Type μ) (k : K) (v : V) (m : Map K V)
      → P (k, v)
      → All P m
      → All P (insert_or_assign k v m)
  unfolding insert_or_assign
  All-insert_or_assign P k v [] p h = (p, tt)
  All-insert_or_assign P k v ((j, w) ∷ m) p h = elim (Bool-cases (lt j k)) [
    | inl before ↦ rw before (h.0, All-insert_or_assign P k v m p h.1)
    | inr other ↦ elim (Bool-cases (lt k j)) [
      | inl after ↦ rw (other, after) (p, h)
      | inr same ↦ rw (other, same) (p, h.1)
    ]
  ]

  pub All-erase {μ} : (P : K × V → Type μ) (k : K) (m : Map K V) → All P m → All P (erase k m)
  unfolding erase
  All-erase P k [] h = tt
  All-erase P k ((j, w) ∷ m) h = elim (Bool-cases (lt j k)) [
    | inl before ↦ rw before (h.0, All-erase P k m h.1)
    | inr other ↦ elim (Bool-cases (lt k j)) [
      | inl after ↦ rw (other, after) (h.0, All-erase P k m h.1)
      | inr same ↦ rw (other, same) (All-erase P k m h.1)
    ]
  ]

  module _ (order : IsStrictOrder lt) where
    pub find-insert_or_assign_self :
        (k : K) (v : V) (m : Map K V) → find k (insert_or_assign k v m) ≡ some v
    unfolding find insert_or_assign
    find-insert_or_assign_self k v [] = ground (arith, order.irreflexive k)
    find-insert_or_assign_self k v ((j, w) ∷ m) =
        ground (arith, order.irreflexive k, find-insert_or_assign_self k v m)

    pub find-insert_or_assign_ne :
        (j k : K) (v : V) (m : Map K V) → j ≢ k → find j (insert_or_assign k v m) ≡ find j m
    unfolding find insert_or_assign
    find-insert_or_assign_ne j k v [] other = ground (arith, order.connected j k)
    find-insert_or_assign_ne j k v ((i, w) ∷ m) other =
        ground
          (arith, order.connected j k, order.connected i k, find-insert_or_assign_ne j k v m other)

    pub find-erase_self : (k : K) (m : Map K V) → find k (erase k m) ≡ none
    unfolding find erase
    find-erase_self k [] = refl
    find-erase_self k ((j, w) ∷ m) = ground (arith, find-erase_self k m)

    pub find-erase_ne : (j k : K) (m : Map K V) → j ≢ k → find j (erase k m) ≡ find j m
    unfolding find erase
    find-erase_ne j k [] other = refl
    find-erase_ne j k ((i, w) ∷ m) other =
        ground (arith, order.connected i j, order.connected i k, find-erase_ne j k m other)

    -- The keys of the map stay a list without repetition.
    pub insert_or_assign-Ascending :
        (k : K) (v : V) (m : Map K V) → Ascending m → Ascending (insert_or_assign k v m)
    unfolding insert_or_assign
    insert_or_assign-Ascending k v [] h = (tt, tt)
    insert_or_assign-Ascending k v ((j, w) ∷ m) h = elim (Bool-cases (lt j k)) [
      | inl before ↦ rw before (
        All-insert_or_assign (λ e. Holds (lt j e.0)) k v m before h.0,
        insert_or_assign-Ascending k v m h.1,
      )
      | inr other ↦ elim (Bool-cases (lt k j)) [
        | inl after ↦
            rw (other, after)
              (
                (
                  after,
                  All-weaken {P = λ e. Holds (lt j e.0)} {Q = λ e. Holds (lt k e.0)}
                      (λ e less. order.transitive k j e.0 after less) m h.0,
                ),
                h,
              )
        | inr same ↦ rw (other, same, order.connected k j same other) h
      ]
    ]
