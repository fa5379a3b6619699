-- ===== src/Db/View/Contents.antt =====
-- The contents of the store of data (Sources/miniDHT_db.cpp): stores that no `find` by key and title
-- can tell apart are one. The ids, the rows' order and the ids given out are forgotten.
use mathlib.Core.Path.{fun_ext}
use mathlib.Core.Quot
use mathlib.Core.Quot.{Quot, Quot-set}
use native.Mathlib.Nat.{ℕ_set}
use mini_dht.Base.{
  ℕ, ◌≡◌, refl, sym, ◌∙◌, ap, true, List, [], ◌∷◌, Option, none, some, Bytes, str_eq_self,
  if◌then◌else◌, Bool-cases, inl, inr,
}
use mini_dht.Contact.{DataItemProto}
use mini_dht.Db.MultiKey.{MultiKeyDb}
use mini_dht.Db.Consistent.{IsConsistent}
use mini_dht.Db.View.{
  View, view, Operation, inserted, retimed, removed, same_pair, retime, apply_view, Allowed, run,
  run_view, AllAllowed, same_pair_sound,
}
use mini_dht.Db.View.Refines.{find_titled-run}

abbrev pub Stored : Type 0
Stored = (db : MultiKeyDb) × IsConsistent db

abbrev pub SameItems : Stored → Stored → Type 0
SameItems a b = (k title : Bytes) → view (a.0) k title ≡ view (b.0) k title

abbrev pub Contents : Type 0
Contents = Quot SameItems

pub item_set : IsSet (Option DataItemProto)
item_set = hlevel ℕ_set

unfoldable pub look : Bytes → Bytes → Contents → Option DataItemProto
look k title = Quot.lift item_set (λ s. view (s.0) k title) (λ a b h. h k title)

-- What may be done to any store: a record is put in place of what is there, gets another time, or is
-- removed.
pub data Change : Type 0 where
  put : (k title : Bytes) (time ttl : ℕ) (blob : Bytes) → Change
  touch : (k title : Bytes) (time ttl : ℕ) → Change
  drop : (k title : Bytes) → Change

unfoldable pub statements : Change → List Operation
statements (put k title time ttl blob) = removed k title ∷ inserted k title time ttl blob ∷ []
statements (touch k title time ttl) = retimed k title time ttl ∷ []
statements (drop k title) = removed k title ∷ []

unfoldable pub target : Change → Bytes × Bytes
target (put k title time ttl blob) = (k, title)
target (touch k title time ttl) = (k, title)
target (drop k title) = (k, title)

-- What a change makes of the item under its own key and title.
effect : Change → Option DataItemProto → Option DataItemProto
effect (put k title time ttl blob) d =
    some (record { ttl = ttl; time = time; title = title; blob = blob })
effect (touch k title time ttl) d = retime time ttl d
effect (drop k title) d = none

view_path : (v w : View) → ((k title : Bytes) → v k title ≡ w k title) → v ≡ w
view_path v w h = fun_ext (λ k. fun_ext (h k))

allowed : (x : Change) (v : View) → AllAllowed (statements x) v
unfolding statements AllAllowed Allowed apply_view same_pair
allowed (put k title time ttl blob) v = (tt, (rw (str_eq_self k, str_eq_self title) refl, tt))
allowed (touch k title time ttl) v = (tt, tt)
allowed (drop k title) v = (tt, tt)

-- What a change makes of every item.
run_view-statements :
    (x : Change) (v : View) (k title : Bytes)
    → run_view (statements x) v k title
      ≡ (if same_pair (target x).0 (target x).1 k title then effect x (v k title) else v k title)
unfolding statements target effect run_view apply_view
run_view-statements (put k' title' time ttl blob) v k title =
    elim (Bool-cases (same_pair k' title' k title)) [
      | inl same ↦ rw same refl
      | inr other ↦ rw other refl
    ]
run_view-statements (touch k' title' time ttl) v k title = refl
run_view-statements (drop k' title') v k title = refl

pub step : Change → Stored → Stored
step x (db, c) =
    (run (statements x) db, (find_titled-run (statements x) db c (allowed x (view db))).0)

view-step :
    (x : Change) (s : Stored) (k title : Bytes)
    → view ((step x s).0) k title ≡ run_view (statements x) (view (s.0)) k title
unfolding step
view-step x (db, c) = (find_titled-run (statements x) db c (allowed x (view db))).1

pub step-SameItems : (x : Change) (a b : Stored) → SameItems a b → SameItems (step x a) (step x b)
step-SameItems x a b h k title =
    view-step x a k title
    ∙ ap (λ v. run_view (statements x) v k title) (view_path (view (a.0)) (view (b.0)) h)
    ∙ sym (view-step x b k title)

-- A change of the contents, whatever store they are in.
unfoldable pub change : Change → Contents → Contents
change x =
    Quot.lift Quot-set (λ s. Quot.mk (step x s)) (λ a b h. Quot.sound (step-SameItems x a b h))

-- Different pairs of key and title.
abbrev pub Apart : Change → Change → Type 0
Apart x y = ¬ (target x ≡ target y)

-- What a change makes of the items of a store.
after_step :
    (x : Change) (s : Stored) (k title : Bytes)
    → view ((step x s).0) k title ≡ (
        if same_pair (target x).0 (target x).1 k title
        then effect x (view (s.0) k title)
        else view (s.0) k title)
after_step x s k title = view-step x s k title ∙ run_view-statements x (view (s.0)) k title

at_target :
    (x : Change) (k title : Bytes)
    → same_pair (target x).0 (target x).1 k title ≡ true
    → target x ≡ (k, title)
at_target x k title hit =
    let (e, f) = same_pair_sound (target x).0 (target x).1 k title hit in
    ap (λ (z : Bytes). (z, (target x).1)) (sym e) ∙ ap (λ (z : Bytes). (k, z)) (sym f)

steps_commute :
    (x y : Change) (s : Stored) → Apart x y → SameItems (step x (step y s)) (step y (step x s))
steps_commute x y s apart k title =
    let v = view (s.0) k title in
    rw
      (
        after_step x (step y s) k title,
        after_step y s k title,
        after_step y (step x s) k title,
        after_step x s k title,
      )
      (elim (Bool-cases (same_pair (target x).0 (target x).1 k title)) [
        | inl here ↦ elim (Bool-cases (same_pair (target y).0 (target y).1 k title)) [
          | inl there ↦ absurd (apart (at_target x k title here ∙ sym (at_target y k title there)))
          | inr elsewhere ↦ rw (here, elsewhere) refl
        ]
        | inr away ↦ rw away refl
      ])

-- A look-up after a change.
look-change :
    (x : Change) (k title : Bytes) (c : Contents)
    → look k title (change x c) ≡ (
        if same_pair (target x).0 (target x).1 k title
        then effect x (look k title c)
        else look k title c)
unfolding look change
look-change x k title = Quot.ind (λ c. hlevel item_set) (λ s. after_step x s k title)

-- Contents in which every look-up finds the same are equal.
look_separates : (c d : Contents) → ((k title : Bytes) → look k title c ≡ look k title d) → c ≡ d
unfolding look
look_separates =
    Quot.ind (λ c. hlevel Quot-set) λ a. Quot.ind (λ d. hlevel Quot-set) λ b h. Quot.sound h

-- Records put, touched or removed under two different pairs of key and title may be so in either
-- order: the stores differ in ids and in the order of rows, the contents are equal.
pub change_commutes :
    (x y : Change) → Apart x y → (c : Contents) → change x (change y c) ≡ change y (change x c)
unfolding change
change_commutes x y apart =
    Quot.ind (λ c. Quot-set _ _) (λ s. Quot.sound (steps_commute x y s apart))
