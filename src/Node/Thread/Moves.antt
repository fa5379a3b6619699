-- ===== src/Node/Thread/Moves.antt =====
-- What a segment of the thread of `periodic` leaves, in every phase (Sources/miniDHT.cpp).
use mini_dht.Base.{
  ℕ, suc, ◌+◌, ◌-◌, ◌≤◌, ◌<◌, [], ◌∷◌, ◌≡◌, refl, length, arith, leb, if◌then◌else◌,
}
use mini_dht.Key.Bits.{key_size}
use mini_dht.Db.MultiKey.{list_headers}
use mini_dht.Node.State.{Env, Node, Result, ok, fault, exception, undefined, out_of_fuel, ◌>>=◌}
use mini_dht.Node.Keeps.{noted}
use mini_dht.Node.Sound.{IsSound, IsSound-Keeps}
use mini_dht.Node.Periodic.{refresh_contacts, fill_buckets, revisit}
use mini_dht.Node.Periodic.Contacts.{Settles, refresh_contacts-Settles}
use mini_dht.Node.Periodic.Whole.{fill_buckets-Settles, revisit-Settles}
use mini_dht.Node.Thread.{
  Phase, contacts, buckets, snapshot, records, waiting, next_alarm, go_to, segment,
}

-- The phase that follows on a phase: a timer that is set expires after at least five and less than
-- six minutes.
abbrev pub Follows : ℕ → Node → Phase → Phase → Type 0
Follows now n contacts q = q ≡ buckets
Follows now n buckets q = q ≡ snapshot
Follows now n snapshot q = q ≡ records now (list_headers n.db_storage)
Follows now n (records check_time []) q =
    (at : ℕ) × (q ≡ waiting at) × (now + 300000000 ≤ at) × (at < now + 360000000)
Follows now n (records check_time (h ∷ hs)) q = q ≡ records check_time hs
Follows now n (waiting at) q = q ≡ (if leb at now then contacts else waiting at)

-- A segment that ends leaves a sound node and the phase that follows; it may throw or be undefined,
-- and no fuel runs out.
abbrev pub Moves : ℕ → Phase → Node → Result (Phase × Node) → Type 0
Moves now p n (ok (q, t)) = IsSound t × Follows now n p q
Moves now p n (fault exception) = Unit
Moves now p n (fault undefined) = Unit
Moves now p n (fault out_of_fuel) = ⊥

then_Moves :
    (now : ℕ) (p q : Phase) (n : Node) (r : Result Node)
    → Follows now n p q
    → Settles r
    → Moves now p n (r >>= go_to q)
unfolding go_to
then_Moves now p q n (ok t) f s = (s, f)
then_Moves now p q n (fault exception) f s = tt
then_Moves now p q n (fault undefined) f s = tt
then_Moves now p q n (fault out_of_fuel) f s = s

alarm_between :
    (env : Env) (now : ℕ) (n : Node)
    → (now + 300000000 ≤ next_alarm env now n) × (next_alarm env now n < now + 360000000)
unfolding next_alarm
alarm_between env now n = (omega arith, omega arith)

module _ (env : Env) (now : ℕ) where
  -- On a sound node every segment of the thread that runs `periodic` ends without running out of
  -- fuel: it throws, is undefined, or leaves a sound node and the phase that follows, which after
  -- the last record is a timer set to between five and six minutes from the clock.
  pub segment-Moves : (p : Phase) (n : Node) → IsSound n → Moves now p n (segment env now p n)
  unfolding segment go_to
  segment-Moves contacts n s =
      then_Moves now contacts buckets n
        (refresh_contacts env now (length n.contact_list.entries) [] n.contact_list.entries n) refl
        (refresh_contacts-Settles env now n s)
  segment-Moves buckets n s =
      then_Moves now buckets snapshot n (fill_buckets env now (key_size - 1) 0 n) refl
        (fill_buckets-Settles env now (key_size - 1) 0 n s)
  segment-Moves snapshot n s = (s, refl)
  segment-Moves (records check_time []) n s =
      let (least, less) = alarm_between env now n in
      (
        IsSound-Keeps (noted n.map_ping_ttl n.map_store_check_val (suc n.drawn) n) s,
        (next_alarm env now n, refl, least, less),
      )
  segment-Moves (records check_time (h ∷ hs)) n s =
      then_Moves now (records check_time (h ∷ hs)) (records check_time hs) n
        (revisit env now check_time h n) refl (revisit-Settles env now check_time h n s)
  segment-Moves (waiting at) n s = (s, refl)
