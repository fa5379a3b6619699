-- ===== src/Node/Periodic/Contacts.antt =====
-- The loop of `periodic` in Sources/miniDHT.cpp that refreshes the contacts: it ends.
use mathlib.Core.List.{append_assoc}
use mathlib.Core.Path.{subst}
use mini_dht.Base.{
  ℕ, zero, suc, ◌≤◌, List, [], ◌∷◌, ◌++◌, ◌==◌, length, length-append, ◌≡◌, ◌≢◌, refl, sym, ◌∙◌, ap,
  Bool-cases, Option-cases, List-cases, inl, inr, arith,
}
use mini_dht.Key.Bits.{key_size}
use mini_dht.Contact.{endpoint_to_string}
use mini_dht.Bucket.{Entry, Bucket, bucket_number}
use mini_dht.Bucket.Multimap.{count, erase_at, All-erase_at, erase_at-IsSorted}
use mini_dht.Bucket.Valid.{IsValid, Distinct-erase_at}
use mini_dht.Db.KeyValue.{KeyValueDb, replace}
use mini_dht.Node.State.{
  Env, Node, Result, ok, fault, exception, undefined, out_of_fuel, draw_token,
}
use mini_dht.Node.Send.{send_ping_key}
use mini_dht.Node.Keeps.{Keeps, Keeps-trans, noted, send_ping_key-Keeps}
use mini_dht.Node.Sound.{IsSound, IsSound-Keeps}
use mini_dht.Node.Periodic.{is_stale, forget_contact, refresh_contacts}

-- What the loop may come to: a sound node, an exception or a step past the last contact.
abbrev pub Settles : Result Node → Type 0
Settles (ok n) = IsSound n
Settles (fault exception) = Unit
Settles (fault undefined) = Unit
Settles (fault out_of_fuel) = ⊥

erase_at_split :
    (before es : List Entry) (e : Entry)
    → erase_at (length before) (before ++ e ∷ es) ≡ before ++ es
unfolding erase_at
erase_at_split [] es e = refl
erase_at_split (x ∷ before) es e = ap (λ (z : List Entry). x ∷ z) (erase_at_split before es e)

count-erase_at-le : (m i : ℕ) (es : List Entry) → count m (erase_at i es) ≤ count m es
unfolding count erase_at
count-erase_at-le m i [] = omega arith
count-erase_at-le m zero (e ∷ es) = ground arith
count-erase_at-le m (suc i) (e ∷ es) = ground (arith, count-erase_at-le m i es)

erased-IsValid :
    (i : ℕ) (b : Bucket) → IsValid b → IsValid (record b { entries = erase_at i b.entries })
erased-IsValid i b v = record {
  sorted = erase_at-IsSorted i b.entries v.sorted;
  placed = All-erase_at (λ e. e.0 ≡ bucket_number b.local_key e.1.key) i b.entries v.placed;
  others = All-erase_at (λ e. e.1.key ≢ b.local_key) i b.entries v.others;
  distinct = Distinct-erase_at i b.entries v.distinct;
  small = λ m. omega (arith, count-erase_at-le m i b.entries, v.small m);
}

pub split-IsValid :
    (before es : List Entry) (e : Entry) (b : Bucket)
    → b.entries ≡ before ++ e ∷ es
    → IsValid b
    → IsValid (record b { entries = before ++ es })
split-IsValid before es e b at v =
    subst (λ z. IsValid (record b { entries = z }))
      (ap (erase_at (length before)) at ∙ erase_at_split before es e)
      (erased-IsValid (length before) b v)

with_backup : (db : KeyValueDb) (n : Node) → IsSound n → IsSound (record n { db_backup = db })
with_backup db n s = record {
  contacts = s.contacts;
  own_key = s.own_key;
  store = s.store;
  room = s.room;
  signed = s.signed;
}

module _ (env : Env) (now : ℕ) where
  forget_contact-IsSound :
      (e : Entry) (before es : List Entry) (n : Node)
      → n.contact_list.entries ≡ before ++ e ∷ es
      → IsSound n
      → IsSound (forget_contact env now e (before ++ es) n)
  unfolding forget_contact draw_token
  forget_contact-IsSound e before es n at s =
      let (t, n') = draw_token env n in
      let k : Keeps n (send_ping_key env now e.1.key t n') =
        Keeps-trans (noted n.map_ping_ttl n.map_store_check_val _ n)
          (send_ping_key-Keeps env now e.1.key t n') in
      let sound = IsSound-Keeps k s in
      record {
        contacts =
            split-IsValid before es e (send_ping_key env now e.1.key t n').contact_list
              (ap (λ (b : Bucket). b.entries) k.same_contacts ∙ at) sound.contacts;
        own_key = sound.own_key;
        store = sound.store;
        room = sound.room;
        signed = sound.signed;
      }

  entries-forget_contact :
      (e : Entry) (es : List Entry) (n : Node)
      → (forget_contact env now e es n).contact_list.entries ≡ es
  unfolding forget_contact
  entries-forget_contact e es n = refl

  refresh_contacts-Settles_from :
      (fuel : ℕ) (before rest : List Entry) (n : Node)
      → n.contact_list.entries ≡ before ++ rest
      → length (before ++ rest) ≤ fuel
      → IsSound n
      → Settles (refresh_contacts env now fuel before rest n)
  unfolding refresh_contacts
  refresh_contacts-Settles_from fuel before [] n at enough s = s
  refresh_contacts-Settles_from zero before (e ∷ es) n at enough s =
      absurd (omega (arith, length-append before (e ∷ es)))
  refresh_contacts-Settles_from (suc fuel) before (e ∷ es) n at enough s =
      let size : length (before ++ e ∷ es) ≡ suc (length (before ++ es)) =
        omega (arith, length-append before (e ∷ es), length-append before es) in
      let moved : before ++ e ∷ es ≡ (before ++ e ∷ []) ++ es =
        sym (append_assoc before (e ∷ []) es) in
      let left : length ((before ++ e ∷ []) ++ es) ≤ suc fuel = rw (sym moved) enough in
      elim (Bool-cases (e.0 == key_size)) [
        | inl own ↦
            rw own
              (refresh_contacts-Settles_from (suc fuel) (before ++ e ∷ []) es n (at ∙ moved) left s)
        | inr other ↦ elim (Bool-cases (is_stale now e.1)) [
          | inl stale ↦ elim (List-cases (before ++ es)) [
            | inl empty ↦ rw (other, stale, empty, refresh_contacts) tt
            | inr (first, rest, some_left) ↦
                rw (other, stale, some_left, refresh_contacts)
                  (refresh_contacts-Settles_from fuel (first ∷ []) rest
                    (forget_contact env now e (before ++ es) n)
                    (entries-forget_contact e (before ++ es) n ∙ some_left)
                    (omega (arith, size, enough, ap length some_left))
                    (forget_contact-IsSound e before es n at s))
          ]
          | inr fresh ↦
              elim (Option-cases (replace e.1.key (endpoint_to_string e.1.ep) n.db_backup)) [
                | inl broken ↦ rw (other, fresh, broken, refresh_contacts) tt
                | inr (db, kept) ↦
                    rw (other, fresh, kept, refresh_contacts)
                      (refresh_contacts-Settles_from (suc fuel) (before ++ e ∷ []) es
                        (record n { db_backup = db }) (at ∙ moved) left (with_backup db n s))
              ]
        ]
      ]

-- On a sound node the loop of `periodic` over the contacts ends: it leaves the node sound, throws,
-- or steps past the last contact, and never uses up one round for each contact.
pub refresh_contacts-Settles :
    (env : Env) (now : ℕ) (n : Node)
    → IsSound n
    → Settles (refresh_contacts env now (length n.contact_list.entries) [] n.contact_list.entries n)
refresh_contacts-Settles env now n s =
    refresh_contacts-Settles_from env now (length n.contact_list.entries) [] n.contact_list.entries
      n refl (omega arith) s
