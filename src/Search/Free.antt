-- ===== src/Search/Free.antt =====
-- Which contacts a search still has to ask: `is_node_full`, `nb_node_left`, `get_node_key`.
use mini_dht.Base.{
  ◌≤◌, ◌<◌, ◌≡◌, refl, ap, ◌≢◌, ◌↔◌, Bool, true, false, List, [], ◌∷◌, some, arith, Bytes, str_lt,
  str_eq, str_eq_iff, Map, Bool-cases, inl, inr,
}
use mini_dht.Base.Lists.{Any}
use mini_dht.Base.Maps.{
  insert_or_assign, str_lt-IsStrictOrder, find-insert_or_assign_self, find-insert_or_assign_ne,
}
use mini_dht.Contact.{ContactProto}
use mini_dht.Search.{
  Search, is_busy, count_free, all_busy, first_free, nb_node_left, is_node_full, is_value_full,
  mark_node, mark_value, get_node_key, get_value_key,
}

pub is_busy_self :
    (m : Map Bytes Bool) (k : Bytes) → is_busy (insert_or_assign str_lt k true m) k ≡ true
unfolding is_busy
is_busy_self m k = ground (arith, find-insert_or_assign_self str_lt str_lt-IsStrictOrder k true m)

pub is_busy-ne :
    (m : Map Bytes Bool) (j k : Bytes)
    → j ≢ k
    → is_busy (insert_or_assign str_lt k true m) j ≡ is_busy m j
unfolding is_busy
is_busy-ne m j k other =
    ground (arith, find-insert_or_assign_ne str_lt str_lt-IsStrictOrder j k true m other)

-- A mark makes no key free.
pub is_busy-keeps :
    (m : Map Bytes Bool) (j k : Bytes)
    → is_busy m j ≡ true
    → is_busy (insert_or_assign str_lt k true m) j ≡ true
is_busy-keeps m j k h = elim (Bool-cases (str_eq j k)) [
  | inl same ↦ rw ((str_eq_iff j k).0 same) (is_busy_self m k)
  | inr other ↦ rw (is_busy-ne m j k (λ e. apart other e)) h
]
  where
    apart : str_eq j k ≡ false → j ≡ k → ⊥
    apart n e = ground (arith, str_eq_iff j k)

-- Nothing is left to ask exactly when every contact is busy.
pub all_busy_iff :
    (m : Map Bytes Bool) (cs : List ContactProto) → (all_busy m cs ≡ true) ↔ (count_free m cs ≡ 0)
unfolding all_busy count_free
all_busy_iff m [] = (λ h. refl, λ h. refl)
all_busy_iff m (c ∷ cs) =
    (λ h. ground (arith, all_busy_iff m cs), λ h. ground (arith, all_busy_iff m cs))

pub is_node_full_iff : (s : Search) → (is_node_full s ≡ true) ↔ (nb_node_left s ≡ 0)
unfolding is_node_full nb_node_left
is_node_full_iff s = all_busy_iff s.map_node_busy s.short_list

-- What the getters' loop returns.
pub first_free_lem :
    (m : Map Bytes Bool) (cs : List ContactProto)
    → all_busy m cs ≡ false
    → (c : ContactProto) × (first_free m cs ≡ some c)
      × (is_busy m c.key ≡ false)
      × Any (λ d. d ≡ c) cs
unfolding all_busy first_free
first_free_lem m [] h = cc
first_free_lem m (c ∷ cs) h = elim (Bool-cases (is_busy m c.key)) [
  | inl busy ↦
      let (d, e, free, at) = first_free_lem m cs (rw busy at h) in (d, rw busy e, free, inr at)
  | inr free ↦ (c, rw free, free, inl refl)
]

count_free-mark :
    (m : Map Bytes Bool) (k : Bytes) (cs : List ContactProto)
    → count_free (insert_or_assign str_lt k true m) cs ≤ count_free m cs
unfolding count_free
count_free-mark m k [] = omega arith
count_free-mark m k (c ∷ cs) = ground (arith, is_busy-keeps m c.key k, count_free-mark m k cs)

pub count_free-mark_lt :
    (m : Map Bytes Bool) (k : Bytes) (cs : List ContactProto)
    → is_busy m k ≡ false
    → Any (λ c. c.key ≡ k) cs
    → count_free (insert_or_assign str_lt k true m) cs < count_free m cs
unfolding count_free
count_free-mark_lt m k [] free at = absurd at
count_free-mark_lt m k (c ∷ cs) free (inl here) =
    rw (here, is_busy_self m k, free) (ground (arith, count_free-mark m k cs))
count_free-mark_lt m k (c ∷ cs) free (inr there) =
    ground (arith, is_busy-keeps m c.key k, count_free-mark_lt m k cs free there)

pub Any-key :
    (c : ContactProto) (cs : List ContactProto) → Any (λ d. d ≡ c) cs → Any (λ d. d.key ≡ c.key) cs
Any-key c [] h = h
Any-key c (d ∷ cs) (inl e) = inl (ap (λ (x : ContactProto). x.key) e)
Any-key c (d ∷ cs) (inr h) = inr (Any-key c cs h)

-- As long as the search is not full, `get_node_key` returns the key of a contact of the short list
-- that was not asked before, marks it and changes no other mark, and leaves fewer contacts to ask.
pub get_node_key_lem :
    (s : Search)
    → is_node_full s ≡ false
    → (k : Bytes) × (get_node_key s ≡ some (k, mark_node k s))
      × (is_busy s.map_node_busy k ≡ false)
      × Any (λ c. c.key ≡ k) s.short_list
      × (nb_node_left (mark_node k s) < nb_node_left s)
unfolding is_node_full get_node_key nb_node_left
get_node_key_lem s h =
    let (c, e, free, at) = first_free_lem s.map_node_busy s.short_list h in
    let here = Any-key c s.short_list at in
    (
      c.key,
      rw (e, get_node_key),
      free,
      here,
      count_free-mark_lt s.map_node_busy c.key s.short_list free here,
    )

-- The same of `get_value_key`, by the marks of the values.
pub get_value_key_lem :
    (s : Search)
    → is_value_full s ≡ false
    → (k : Bytes) × (get_value_key s ≡ some (k, mark_value k s))
      × (is_busy s.map_value_busy k ≡ false)
      × Any (λ c. c.key ≡ k) s.short_list
      × (count_free (mark_value k s).map_value_busy s.short_list
          < count_free s.map_value_busy s.short_list)
unfolding is_value_full get_value_key
get_value_key_lem s h =
    let (c, e, free, at) = first_free_lem s.map_value_busy s.short_list h in
    let here = Any-key c s.short_list at in
    (
      c.key,
      rw (e, get_value_key),
      free,
      here,
      count_free-mark_lt s.map_value_busy c.key s.short_list free here,
    )
