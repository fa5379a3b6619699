-- ===== src/Search/Ask.antt =====
-- The loops that ask contacts: at most ALPHA of them in a round, and all of them for a store.
use mini_dht.Base.{
  ℕ, zero, suc, ◌≤◌, ◌≡◌, refl, sym, ◌∙◌, ap, ◌≢◌, ◌⊎◌, Bool, true, false, List, [], ◌∷◌, some,
  arith, Bytes, str_lt, str_eq, str_eq_iff, Map, Bool-cases, inl, inr, All, All-weaken, length,
}
use mini_dht.Base.Lists.{Any}
use mini_dht.Base.Maps.{insert_or_assign}
use mini_dht.Contact.{ContactProto}
use mini_dht.Search.{
  Search, is_busy, count_free, all_busy, is_node_full, is_value_full, mark_node, mark_value,
  node_keys, value_keys,
}
use mini_dht.Search.Free.{
  is_busy_self, is_busy-ne, all_busy_iff, get_node_key_lem, get_value_key_lem,
}

-- No key twice.
abbrev pub Once : List Bytes → Type 0
Once [] = Unit
Once (k ∷ ks) = All (λ j. j ≢ k) ks × Once ks

-- The keys `ks` are asked of the contacts `cs`, of which `m` marks the busy ones.
pub record IsAsked (m : Map Bytes Bool) (cs : List ContactProto) (ks : List Bytes) : Type 0 where
  pub fresh : All (λ k. is_busy m k ≡ false) ks
  pub listed : All (λ k. Any (λ c. c.key ≡ k) cs) ks
  pub once : Once ks

abbrev marked : Bytes → Map Bytes Bool → Map Bytes Bool
marked k m = insert_or_assign str_lt k true m

IsAsked-none : (m : Map Bytes Bool) (cs : List ContactProto) → IsAsked m cs []
IsAsked-none m cs = record { fresh = tt; listed = tt; once = tt }

unmark :
    (m : Map Bytes Bool) (j k : Bytes)
    → is_busy (marked k m) j ≡ false
    → (is_busy m j ≡ false) × (j ≢ k)
unmark m j k h = (before, apart)
  where
    apart : j ≢ k
    apart e = true-ne-false (sym (is_busy_self m k) ∙ rw e at h)
      where
        true-ne-false : ◌≡◌ {A = Bool} true false → ⊥
        true-ne-false q = cc

    before : is_busy m j ≡ false
    before = sym (is_busy-ne m j k apart) ∙ h

IsAsked-cons :
    (m : Map Bytes Bool) (cs : List ContactProto) (k : Bytes) (ks : List Bytes)
    → is_busy m k ≡ false
    → Any (λ c. c.key ≡ k) cs
    → IsAsked (marked k m) cs ks
    → IsAsked m cs (k ∷ ks)
IsAsked-cons m cs k ks free at a = record {
  fresh = (free, All-weaken {Q = λ j. is_busy m j ≡ false} (λ j h. (unmark m j k h).0) ks a.fresh);
  listed = (at, a.listed);
  once = (All-weaken {Q = λ j. j ≢ k} (λ j h. (unmark m j k h).1) ks a.fresh, a.once);
}

-- A round of a search: at most `rounds` keys, each of a contact not asked before and none twice,
-- and fewer only if then every contact is asked. Nothing of the search changes but these marks.
pub record IsRound (rounds : ℕ) (s : Search) (ks : List Bytes) (t : Search) : Type 0 where
  pub asked : IsAsked s.map_node_busy s.short_list ks
  pub bounded : length ks ≤ rounds
  pub used : (length ks ≡ rounds) ⊎ (is_node_full t ≡ true)
  pub rest : t ≡ record s { map_node_busy = t.map_node_busy }

-- For any number of rounds, the loop that asks nodes never throws: it asks contacts of the short
-- list that were not marked before, none twice, marks them and changes nothing else, and it asks
-- fewer than the number of rounds only when no contact is left to ask.
pub node_keys-IsRound :
    (rounds : ℕ) (s : Search)
    → (ks : List Bytes) × (t : Search) × (node_keys rounds s ≡ some (ks, t)) × IsRound rounds s ks t
unfolding node_keys
node_keys-IsRound zero s = (
  [],
  s,
  refl,
  record {
    asked = IsAsked-none s.map_node_busy s.short_list;
    bounded = omega arith;
    used = inl refl;
    rest = refl;
  },
)
node_keys-IsRound (suc rounds) s = elim (Bool-cases (is_node_full s)) [
  | inl full ↦ (
    [],
    s,
    rw full,
    record {
      asked = IsAsked-none s.map_node_busy s.short_list;
      bounded = omega arith;
      used = inr full;
      rest = refl;
    },
  )
  | inr more ↦
      let (k, got, free, at, _) = get_node_key_lem s more in
      let (ks, t, e, r) = node_keys-IsRound rounds (mark_node k s) in
      (
        k ∷ ks,
        t,
        rw (more, got, e),
        record {
          asked = IsAsked-cons s.map_node_busy s.short_list k ks free at r.asked;
          bounded = omega (arith, r.bounded);
          used = elim r.used [ inl all ↦ inl (ap suc all) | inr full ↦ inr full ];
          rest = r.rest;
        },
      )
]

-- What the loop of a store comes to: the keys asked, that every contact of the short list is among
-- them if it was not marked before, and that then all are marked.
pub record IsDrained (s : Search) (ks : List Bytes) (t : Search) : Type 0 where
  pub asked : IsAsked s.map_value_busy s.short_list ks
  pub full : is_value_full t ≡ true
  pub covered :
      All (λ c. (is_busy s.map_value_busy c.key ≡ true) ⊎ Any (λ k. k ≡ c.key) ks) s.short_list
  pub rest : t ≡ record s { map_value_busy = t.map_value_busy }

all_busy-All :
    (m : Map Bytes Bool) (ks : List Bytes) (cs : List ContactProto)
    → all_busy m cs ≡ true
    → All (λ c. (is_busy m c.key ≡ true) ⊎ Any (λ k. k ≡ c.key) ks) cs
unfolding all_busy
all_busy-All m ks [] h = tt
all_busy-All m ks (c ∷ cs) h = elim (Bool-cases (is_busy m c.key)) [
  | inl busy ↦ (inl busy, all_busy-All m ks cs (rw busy at h))
  | inr free ↦ absurd (false-ne-true (rw free at h))
]
  where
    false-ne-true : ◌≡◌ {A = Bool} false true → ⊥
    false-ne-true q = cc

covered-cons :
    (m : Map Bytes Bool) (k : Bytes) (ks : List Bytes) (c : ContactProto)
    → (is_busy (marked k m) c.key ≡ true) ⊎ Any (λ j. j ≡ c.key) ks
    → (is_busy m c.key ≡ true) ⊎ Any (λ j. j ≡ c.key) (k ∷ ks)
covered-cons m k ks c (inr later) = inr (inr later)
covered-cons m k ks c (inl busy) = elim (Bool-cases (str_eq c.key k)) [
  | inl same ↦ inr (inl (sym ((str_eq_iff c.key k).0 same)))
  | inr other ↦ inl (sym (is_busy-ne m c.key k (apart other)) ∙ busy)
]
  where
    apart : str_eq c.key k ≡ false → c.key ≢ k
    apart n e = ground (arith, str_eq_iff c.key k)

all_counted : (s : Search) → count_free s.map_value_busy s.short_list ≡ 0 → is_value_full s ≡ true
unfolding is_value_full
all_counted s h = (all_busy_iff s.map_value_busy s.short_list).1 h

drained : (s : Search) → is_value_full s ≡ true → IsDrained s [] s
unfolding is_value_full
drained s full = record {
  asked = IsAsked-none s.map_value_busy s.short_list;
  full = full;
  covered = all_busy-All s.map_value_busy [] s.short_list full;
  rest = refl;
}

count_free-le-length : (m : Map Bytes Bool) (cs : List ContactProto) → count_free m cs ≤ length cs
unfolding count_free
count_free-le-length m [] = omega arith
count_free-le-length m (c ∷ cs) = ground (arith, count_free-le-length m cs)

value_keys-IsDrained_fuel :
    (fuel : ℕ) (s : Search)
    → count_free s.map_value_busy s.short_list ≤ fuel
    → (ks : List Bytes) × (t : Search) × (value_keys fuel s ≡ some (ks, t)) × IsDrained s ks t
unfolding value_keys
value_keys-IsDrained_fuel zero s h =
    let full : is_value_full s ≡ true = all_counted s (omega arith) in
    ([], s, rw full, drained s full)
value_keys-IsDrained_fuel (suc fuel) s h = elim (Bool-cases (is_value_full s)) [
  | inl full ↦ ([], s, rw full, drained s full)
  | inr more ↦
      let (k, got, free, at, less) = get_value_key_lem s more in
      let (ks, t, e, r) = value_keys-IsDrained_fuel fuel (mark_value k s) (omega arith) in
      (
        k ∷ ks,
        t,
        rw (more, got, e),
        record {
          asked = IsAsked-cons s.map_value_busy s.short_list k ks free at r.asked;
          full = r.full;
          covered = All-weaken (λ c. covered-cons s.map_value_busy k ks c) s.short_list r.covered;
          rest = r.rest;
        },
      )
]

-- The loop of a store ends within one round for each contact of the short list and never throws:
-- it asks every contact that was not marked, none twice, and changes nothing but these marks.
pub value_keys-IsDrained :
    (s : Search)
    → (ks : List Bytes) × (t : Search) × (value_keys (length s.short_list) s ≡ some (ks, t))
      × IsDrained s ks t
value_keys-IsDrained s =
    value_keys-IsDrained_fuel (length s.short_list) s
      (count_free-le-length s.map_value_busy s.short_list)
