-- ===== src/Db/Handle/Fate.antt =====
-- What the mutex of the stores comes to (Sources/miniDHT_db.cpp), whatever SQLite answers.
pub mod MultiKey
pub mod KeyValue
use Prim.Native.String.{String}
use mini_dht.Base.{
  ℕ, suc, ◌≡◌, refl, sym, ◌∙◌, Bool, true, false, List, [], ◌++◌, Option, none, some, Bytes,
  Bool-cases, inl, inr,
}
use mini_dht.Db.Handle.{
  Engine, Handle, Outcome, returned, thrown, blocked, misused, ◌>>=◌, lock_it, unlock_and_throw,
  asked_once, exec, exec_checked, get_table, prepare, step_rows, finalize, select, fewer,
}

-- What a call on `h` may come to. Where the mutex is needed: it returns with the mutex locked,
-- throws with it unlocked, or waits for ever. Where it is not needed: it returns, or unlocks a mutex
-- that is not locked.
unfoldable pub Fate : {D A : Type 0} → Handle D → Outcome D A → Type 0
Fate h (returned a h') = (h'.need_mutex ≡ h.need_mutex) × (h'.locked ≡ h.need_mutex)
Fate h (thrown what why h') = (h.need_mutex ≡ true) × (h'.need_mutex ≡ true) × (h'.locked ≡ false)
Fate h blocked = h.need_mutex ≡ true
Fate h misused = h.need_mutex ≡ false

-- Between the calls: the mutex is not locked where it is not needed.
abbrev pub IsPaired : {D : Type 0} → Handle D → Type 0
IsPaired h = h.need_mutex ≡ false → h.locked ≡ false

module _ {D : Type 0} where
  same_need :
      {A : Type 0} (h h' : Handle D) (r : Outcome D A)
      → h'.need_mutex ≡ h.need_mutex
      → Fate h' r
      → Fate h r
  unfolding Fate
  same_need h h' (returned a g) e (need, held) = (need ∙ e, held ∙ e)
  same_need h h' (thrown what why g) e (needed, need, free) = (sym e ∙ needed, need, free)
  same_need h h' blocked e needed = sym e ∙ needed
  same_need h h' misused e unneeded = sym e ∙ unneeded

  pub then-Fate :
      {A B : Type 0} (h : Handle D) (r : Outcome D A) (f : A → Handle D → Outcome D B)
      → Fate h r
      → ((a : A) (h' : Handle D) → h'.locked ≡ h'.need_mutex → Fate h' (f a h'))
      → Fate h (r >>= f)
  unfolding Fate
  then-Fate h (returned a h') f (need, held) g =
      same_need h h' (f a h') need (g a h' (held ∙ sym need))
  then-Fate h (thrown what why h') f s g = s
  then-Fate h blocked f s g = s
  then-Fate h misused f s g = s

  pub lock_it-Fate : (h : Handle D) → IsPaired h → Fate h (lock_it h)
  unfolding lock_it Fate
  lock_it-Fate h p = elim (Bool-cases h.need_mutex) [
    | inl needed ↦ elim (Bool-cases h.locked) [
      | inl held ↦ rw (needed, held) refl
      | inr free ↦ rw (needed, free) (refl, refl)
    ]
    | inr unneeded ↦ rw unneeded (refl, p unneeded)
  ]

  pub paired : (h : Handle D) → h.locked ≡ h.need_mutex → IsPaired h
  unfolding Fate
  paired h held unneeded = held ∙ unneeded

  pub unlock_and_throw-Fate :
      (A : Type 0) (what : String) (why : Bytes) (h : Handle D)
      → h.locked ≡ h.need_mutex
      → Fate h (unlock_and_throw {A = A} what why h)
  unfolding unlock_and_throw Fate
  unlock_and_throw-Fate A what why h held = elim (Bool-cases h.locked) [
    | inl locked ↦ rw locked (sym held ∙ locked, sym held ∙ locked, refl)
    | inr free ↦ rw free (sym held ∙ free)
  ]

  -- A call of SQLite is right if it is where it works and where it fails.
  pub answered :
      {A : Type 0} (h : Handle D) (answer : Option (ℕ × Bytes)) (good : Outcome D A)
      (bad : Bytes → Outcome D A)
      → Fate h good
      → ((why : Bytes) → Fate h (bad why))
      → Fate h (elim answer [ none ↦ good | some (code, why) ↦ bad why ])
  unfolding Fate
  answered h none good bad g b = g
  answered h (some (code, why)) good bad g b = b why

  -- A method that locks first.
  pub locked-Fate :
      {A : Type 0} (h : Handle D) (f : Unit {0} → Handle D → Outcome D A)
      → IsPaired h
      → ((h' : Handle D) → h'.locked ≡ h'.need_mutex → Fate h' (f tt h'))
      → Fate h (lock_it h >>= f)
  unfolding Fate
  locked-Fate h f p g = then-Fate h (lock_it h) f (lock_it-Fate h p) (λ _ h' held. g h' held)

  module _ (engine : Engine) where
    pub exec-Fate :
        (what : String) (effect : D → D) (h : Handle D)
        → h.locked ≡ h.need_mutex
        → Fate h (exec engine what effect h)
    unfolding exec Fate
    exec-Fate what effect h held =
        answered h (engine.failure h.asked)
          (returned tt (record (asked_once h) { tables = effect h.tables }))
          (λ why. unlock_and_throw what why (asked_once h)) (refl, held)
          (λ why. unlock_and_throw-Fate (Unit {0}) what why (asked_once h) held)

    pub get_table-Fate :
        {A : Type 0} (what : String) (detail : Bytes) (query : D → A) (h : Handle D)
        → h.locked ≡ h.need_mutex
        → Fate h (get_table engine what detail query h)
    unfolding get_table Fate
    get_table-Fate {A} what detail query h held =
        answered h (engine.failure h.asked) (returned (query h.tables) (asked_once h))
          (λ why. unlock_and_throw what (detail ++ why) (asked_once h)) (refl, held)
          (λ why. unlock_and_throw-Fate A what (detail ++ why) (asked_once h) held)

    constrained :
        (what : String) (db : Option D) (h : Handle D)
        → h.locked ≡ h.need_mutex
        → Fate {A = Unit {0}} h (elim db [
          | none ↦ unlock_and_throw what engine.constraint_message (asked_once h)
          | some db ↦ returned tt (record (asked_once h) { tables = db })
        ])
    unfolding Fate
    constrained what none h held =
        unlock_and_throw-Fate (Unit {0}) what engine.constraint_message (asked_once h) held
    constrained what (some db) h held = (refl, held)

    pub exec_checked-Fate :
        (what : String) (effect : D → Option D) (h : Handle D)
        → h.locked ≡ h.need_mutex
        → Fate h (exec_checked engine what effect h)
    unfolding exec_checked Fate
    exec_checked-Fate what effect h held =
        answered h (engine.failure h.asked) _ (λ why. unlock_and_throw what why (asked_once h))
          (constrained what (effect h.tables) h held)
          (λ why. unlock_and_throw-Fate (Unit {0}) what why (asked_once h) held)

    pub prepare-Fate :
        (what : String) (h : Handle D) → h.locked ≡ h.need_mutex → Fate h (prepare engine what h)
    unfolding prepare Fate
    prepare-Fate what h held =
        answered h (engine.failure h.asked)
          (returned tt (record (asked_once h) { statements = suc h.statements }))
          (λ why. unlock_and_throw what why (asked_once h)) (refl, held)
          (λ why. unlock_and_throw-Fate (Unit {0}) what why (asked_once h) held)

    pub finalize-Fate :
        (what : String) (h : Handle D) → h.locked ≡ h.need_mutex → Fate h (finalize engine what h)
    unfolding finalize Fate
    finalize-Fate what h held =
        let h' : Handle D = record (asked_once h) { statements = fewer h.statements } in
        answered h (engine.failure h.asked) (returned tt h') (λ why. unlock_and_throw what [] h')
          (refl, held) (λ why. unlock_and_throw-Fate (Unit {0}) what [] h' held)

    pub select-Fate :
        {A : Type 0} (what last : String) (query : D → List A) (h : Handle D)
        → h.locked ≡ h.need_mutex
        → Fate h (select engine what last query h)
    unfolding select Fate
    select-Fate {A} what last query h held =
        then-Fate h (prepare engine what h) _ (prepare-Fate what h held) (λ _ h1 held1.
          let (rows, after) = step_rows engine (query h1.tables) h1.asked in
          let h2 : Handle D = record h1 { asked = after } in
          then-Fate h1 (finalize engine last h2) (λ _ h3. returned rows h3)
            (finalize-Fate last h2 held1) (λ _ h3 held3. (refl, held3)))
