-- ===== src/Search/Nearest.antt =====
-- The short list after `update_list`: the contacts nearest to the destination.
use mini_dht.Base.{
  ℕ, ◌-◌, ◌≤◌, ◌<◌, ◌≡◌, refl, sym, ◌∙◌, ◌⊎◌, true, false, List, [], ◌∷◌, ◌++◌, Option, none, some,
  arith, Bytes, str_lt, str_eq_iff, Map, Bool-cases, inl, inr, All, All-weaken, All-append, length,
  leb,
}
use mini_dht.Base.Lists.{Any, Any-append_left, Any-append_right, All-Any_self}
use mini_dht.Base.Maps.{
  insert_or_assign, Ascending, All-insert_or_assign, insert_or_assign-Ascending,
  str_lt-IsStrictOrder,
}
use mini_dht.Contact.{ContactProto, contact_eq, endpoint_ne, time_eq}
use mini_dht.Contact.Address.{endpoint_eq_sound}
use mini_dht.Key.Bits.{bucket_size}
use mini_dht.Search.{
  update_list, is_empty, list_eq, Search, distance, sort_in, first_contacts, sorted_contacts,
}

-- Each contact stands under its distance.
abbrev Filed : Bytes → Bytes × ContactProto → Type 0
Filed dest e = e.0 ≡ distance dest e.1

sort_in-Filed :
    (dest : Bytes) (cs : List ContactProto) (m : Map Bytes ContactProto)
    → All (Filed dest) m
    → All (Filed dest) (sort_in dest cs m)
unfolding sort_in
sort_in-Filed dest [] m h = h
sort_in-Filed dest (c ∷ cs) m h =
    sort_in-Filed dest cs _ (All-insert_or_assign str_lt (Filed dest) (distance dest c) c m refl h)

sort_in-Ascending :
    (dest : Bytes) (cs : List ContactProto) (m : Map Bytes ContactProto)
    → Ascending str_lt m
    → Ascending str_lt (sort_in dest cs m)
unfolding sort_in
sort_in-Ascending dest [] m h = h
sort_in-Ascending dest (c ∷ cs) m h =
    sort_in-Ascending dest cs _
      (insert_or_assign-Ascending str_lt str_lt-IsStrictOrder (distance dest c) c m h)

-- Every contact of the map was given.
sort_in-All {ℓ} :
    (P : ContactProto → Type ℓ) (dest : Bytes) (cs : List ContactProto) (m : Map Bytes ContactProto)
    → All P cs
    → All (λ e. P e.1) m
    → All (λ e. P e.1) (sort_in dest cs m)
unfolding sort_in
sort_in-All P dest [] m h g = g
sort_in-All P dest (c ∷ cs) m h g =
    sort_in-All P dest cs _ h.1
      (All-insert_or_assign str_lt (λ e. P e.1) (distance dest c) c m h.0 g)

-- Some contact stands under the text `d`.
abbrev Present : Bytes → Map Bytes ContactProto → Type 0
Present d = Any (λ e. e.0 ≡ d)

Present-insert_or_assign_self :
    (d : Bytes) (c : ContactProto) (m : Map Bytes ContactProto)
    → Present d (insert_or_assign str_lt d c m)
unfolding insert_or_assign
Present-insert_or_assign_self d c [] = inl refl
Present-insert_or_assign_self d c ((e, b) ∷ m) = elim (Bool-cases (str_lt e d)) [
  | inl before ↦ rw before (inr (Present-insert_or_assign_self d c m))
  | inr other ↦ elim (Bool-cases (str_lt d e)) [
    | inl after ↦ rw (other, after) (inl refl)
    | inr same ↦ rw (other, same) (inl refl)
  ]
]

Present-insert_or_assign :
    (x d : Bytes) (c : ContactProto) (m : Map Bytes ContactProto)
    → Present x m
    → Present x (insert_or_assign str_lt d c m)
unfolding insert_or_assign
Present-insert_or_assign x d c [] h = absurd h
Present-insert_or_assign x d c ((e, b) ∷ m) h = elim (Bool-cases (str_lt e d)) [
  | inl before ↦
      rw before
        (elim h [ inl here ↦ inl here | inr there ↦ inr (Present-insert_or_assign x d c m there) ])
  | inr other ↦ elim (Bool-cases (str_lt d e)) [
    | inl after ↦ rw (other, after) (inr h)
    | inr same ↦
        rw (other, same)
          (elim h [
            | inl here ↦ inl (str_lt-IsStrictOrder.connected d e same other ∙ here)
            | inr there ↦ inr there
          ])
  ]
]

Present-sort_in :
    (x : Bytes) (dest : Bytes) (cs : List ContactProto) (m : Map Bytes ContactProto)
    → Present x m
    → Present x (sort_in dest cs m)
unfolding sort_in
Present-sort_in x dest [] m h = h
Present-sort_in x dest (c ∷ cs) m h =
    Present-sort_in x dest cs _ (Present-insert_or_assign x (distance dest c) c m h)

-- Every contact given stands in the map, itself or another at the same distance.
sort_in-Present :
    (dest : Bytes) (cs : List ContactProto) (m : Map Bytes ContactProto)
    → All (λ c. Present (distance dest c) (sort_in dest cs m)) cs
unfolding sort_in
sort_in-Present dest [] m = tt
sort_in-Present dest (c ∷ cs) m = (
  Present-sort_in (distance dest c) dest cs _ (Present-insert_or_assign_self (distance dest c) c m),
  sort_in-Present dest cs _,
)

All-first_contacts {ℓ} :
    (P : ContactProto → Type ℓ) (n : ℕ) (m : Map Bytes ContactProto)
    → All (λ e. P e.1) m
    → All P (first_contacts n m)
unfolding first_contacts
All-first_contacts P n [] h = tt
All-first_contacts P n ((d, c) ∷ m) h = elim (Bool-cases (leb n 1)) [
  | inl stop ↦ rw stop (h.0, tt)
  | inr more ↦ rw more (h.0, All-first_contacts P (n - 1) m h.1)
]

length-first_contacts-le :
    (n : ℕ) (m : Map Bytes ContactProto) → 0 < n → length (first_contacts n m) ≤ n
unfolding first_contacts
length-first_contacts-le n [] h = omega arith
length-first_contacts-le n ((d, c) ∷ m) h = ground (arith, length-first_contacts-le (n - 1) m)

-- What `n` contacts `cs` that are kept say of a distance: one of them is at it, or there are `n` of
-- them and it is farther than all.
abbrev pub Nearer : ℕ → Bytes → List ContactProto → Bytes → Type 0
Nearer n dest cs x =
    Any (λ c. distance dest c ≡ x) cs
    ⊎ ((length cs ≡ n) × All (λ c. str_lt (distance dest c) x ≡ true) cs)

-- Distances rise along the list.
abbrev pub Rising : Bytes → List ContactProto → Type 0
Rising dest [] = Unit
Rising dest (c ∷ cs) =
    All (λ d. str_lt (distance dest c) (distance dest d) ≡ true) cs × Rising dest cs

Present-lt :
    (d x : Bytes) (m : Map Bytes ContactProto)
    → All (λ e. str_lt d e.0 ≡ true) m
    → Present x m
    → str_lt d x ≡ true
Present-lt d x [] h at = absurd at
Present-lt d x (e ∷ m) h (inl here) = rw (← here) h.0
Present-lt d x (e ∷ m) h (inr there) = Present-lt d x m h.1 there

distances-lt :
    (dest d : Bytes) (m : Map Bytes ContactProto)
    → All (Filed dest) m
    → All (λ e. str_lt d e.0 ≡ true) m
    → All (λ e. str_lt d (distance dest e.1) ≡ true) m
distances-lt dest d [] f h = tt
distances-lt dest d (e ∷ m) f h = (rw (← f.0) h.0, distances-lt dest d m f.1 h.1)

first_contacts-Rising :
    (dest : Bytes) (n : ℕ) (m : Map Bytes ContactProto)
    → Ascending str_lt m
    → All (Filed dest) m
    → Rising dest (first_contacts n m)
unfolding first_contacts
first_contacts-Rising dest n [] h f = tt
first_contacts-Rising dest n ((d, c) ∷ m) h f = elim (Bool-cases (leb n 1)) [
  | inl stop ↦ rw stop (tt, tt)
  | inr more ↦ rw more (
    All-first_contacts (λ b. str_lt (distance dest c) (distance dest b) ≡ true) (n - 1) m
        (distances-lt dest (distance dest c) m f.1 (rw f.0 at h.0)),
    first_contacts-Rising dest (n - 1) m h.1 f.1,
  )
]

first_contacts-Nearer :
    (dest x : Bytes) (n : ℕ) (m : Map Bytes ContactProto)
    → 0 < n
    → Ascending str_lt m
    → All (Filed dest) m
    → Present x m
    → Nearer n dest (first_contacts n m) x
unfolding first_contacts
first_contacts-Nearer dest x n [] pos h f at = absurd at
first_contacts-Nearer dest x n ((d, c) ∷ m) pos h f (inl here) = elim (Bool-cases (leb n 1)) [
  | inl stop ↦ rw stop (inl (inl (sym f.0 ∙ here)))
  | inr more ↦ rw more (inl (inl (sym f.0 ∙ here)))
]
first_contacts-Nearer dest x n ((d, c) ∷ m) pos h f (inr there) =
    let less : str_lt (distance dest c) x ≡ true = rw (← f.0) (Present-lt d x m h.0 there) in
    elim (Bool-cases (leb n 1)) [
      | inl stop ↦ rw stop (inr (ground arith, (less, tt)))
      | inr more ↦
          rw more (elim (first_contacts-Nearer dest x (n - 1) m (ground arith) h.1 f.1 there) [
            | inl kept ↦ inl (inr kept)
            | inr (all, far) ↦ inr (ground arith, (less, far))
          ])
    ]

-- The short list after an update: at most BUCKET_SIZE of the contacts that were known or received,
-- at rising distances, and each of these is in it (or another at its distance), or the list is
-- full and it is farther from the destination than all that are.
pub record IsNearest (dest : Bytes) (known short : List ContactProto) : Type 0 where
  pub bounded : length short ≤ bucket_size
  pub rising : Rising dest short
  pub nearest : All (λ c. Nearer bucket_size dest short (distance dest c)) known
  pub given : All (λ c. Any (λ d. d ≡ c) known) short

time_eq_sound : (a b : Option ℕ) → time_eq a b ≡ true → a ≡ b
unfolding time_eq
time_eq_sound none none h = refl
time_eq_sound none (some t) h = cc
time_eq_sound (some s) none h = cc
time_eq_sound (some s) (some t) h = ground arith

contact_eq_sound : (c d : ContactProto) → contact_eq c d ≡ true → c ≡ d
unfolding contact_eq endpoint_ne
contact_eq_sound c d h =
    ground (arith, str_eq_iff c.key d.key, endpoint_eq_sound c.ep d.ep, time_eq_sound c.time d.time)

list_eq_sound : (cs ds : List ContactProto) → list_eq cs ds ≡ true → cs ≡ ds
unfolding list_eq
list_eq_sound [] [] h = refl
list_eq_sound [] (d ∷ ds) h = cc
list_eq_sound (c ∷ cs) [] h = cc
list_eq_sound (c ∷ cs) (d ∷ ds) h = ground (arith, contact_eq_sound c d, list_eq_sound cs ds)

-- With contacts received, the short list is the head of the sorted contacts on either branch.
pub update_list-short_list :
    (lc : List ContactProto) (s : Search)
    → is_empty lc ≡ false
    → (update_list lc s).1.short_list ≡ first_contacts bucket_size (sorted_contacts lc s)
unfolding update_list
update_list-short_list lc s h =
    ground (arith, list_eq_sound s.short_list (first_contacts bucket_size (sorted_contacts lc s)))

-- `update_list` makes no contact up: what holds of all contacts known and received holds of all
-- contacts of the short list.
pub update_list-All {ℓ} :
    (P : ContactProto → Type ℓ) (lc : List ContactProto) (s : Search)
    → All P lc
    → All P s.short_list
    → All P (update_list lc s).1.short_list
unfolding sorted_contacts update_list is_empty
update_list-All P [] s h g = g
update_list-All P (c ∷ lc) s h g = rw (update_list-short_list (c ∷ lc) s refl) (
    All-first_contacts P bucket_size (sorted_contacts (c ∷ lc) s) (
      sort_in-All P s.destination s.short_list (sort_in s.destination (c ∷ lc) []) g
        (sort_in-All P s.destination (c ∷ lc) [] h tt)))

-- Every contact of the short list was known or received.
update_list-given :
    (lc : List ContactProto) (s : Search)
    → All (λ c. Any (λ d. d ≡ c) (lc ++ s.short_list)) (update_list lc s).1.short_list
update_list-given lc s =
    let P : ContactProto → Type 0 = λ c. Any (λ d. d ≡ c) (lc ++ s.short_list) in
    update_list-All P lc s
      (All-weaken {P = λ c. Any (λ d. d ≡ c) lc} {Q = P}
        (λ c at. Any-append_left (λ d. d ≡ c) lc s.short_list at) lc (All-Any_self lc))
      (All-weaken {P = λ c. Any (λ d. d ≡ c) s.short_list} {Q = P}
        (λ c at. Any-append_right (λ d. d ≡ c) lc s.short_list at) s.short_list
        (All-Any_self s.short_list))

-- When contacts are received, the short list that `update_list` leaves holds at most BUCKET_SIZE
-- of the contacts known or received, in strictly rising XOR distance to the destination, and every
-- contact known or received is at the distance of one of them, or there are BUCKET_SIZE of them
-- and it is farther away than all.
pub update_list-IsNearest :
    (lc : List ContactProto) (s : Search)
    → is_empty lc ≡ false
    → IsNearest s.destination (lc ++ s.short_list) (update_list lc s).1.short_list
unfolding sorted_contacts
update_list-IsNearest lc s h =
    let dest = s.destination in
    let received = sort_in dest lc [] in
    let sorted = sort_in dest s.short_list received in
    let ascending : Ascending str_lt sorted =
      sort_in-Ascending dest s.short_list received (sort_in-Ascending dest lc [] tt) in
    let filed : All (Filed dest) sorted =
      sort_in-Filed dest s.short_list received (sort_in-Filed dest lc [] tt) in
    let known : All (λ c. Present (distance dest c) sorted) (lc ++ s.short_list) =
      All-append (λ c. Present (distance dest c) sorted) lc s.short_list
        (All-weaken {P = λ c. Present (distance dest c) received}
          (λ c at. Present-sort_in (distance dest c) dest s.short_list received at) lc
          (sort_in-Present dest lc []))
        (sort_in-Present dest s.short_list received) in
    rw (update_list-short_list lc s h) (record {
      bounded = length-first_contacts-le bucket_size sorted (omega arith);
      rising = first_contacts-Rising dest bucket_size sorted ascending filed;
      nearest =
          All-weaken {P = λ c. Present (distance dest c) sorted}
            (λ c at.
              first_contacts-Nearer dest (distance dest c) bucket_size sorted (omega arith)
                ascending filed at)
            (lc ++ s.short_list) known;
      given = rw (← update_list-short_list lc s h) (update_list-given lc s);
    })
