-- ===== src/Bucket/Remove.antt =====
-- `remove_contact`, whose loop starts again at the second entry after each erasure.
use mathlib.Core.List.{append-nil, append_assoc}
use mini_dht.Base.{
  ℕ, zero, suc, ◌≤◌, ◌≡◌, refl, ◌∙◌, ap, Bool, false, not, List, [], ◌∷◌, ◌++◌, arith,
  if◌then◌else◌, length, filter_by, count_by, filter_by-append, count_by-append, Bool-cases, inl,
  inr,
}
use mini_dht.Contact.{EndpointProto, endpoint_eq}
use mini_dht.Bucket.{Bucket, Entry, Scan, done, past_end, remove_scan, remove_contact}

abbrev pub at_endpoint : EndpointProto → Entry → Bool
at_endpoint ep e = endpoint_eq e.1.ep ep

-- The entries with other end points.
abbrev pub without : EndpointProto → List Entry → List Entry
without ep = filter_by (λ e. not (at_endpoint ep e))

module _ (ep : EndpointProto) where
  without-stays : (es : List Entry) → count_by (at_endpoint ep) es ≡ 0 → without ep es ≡ es
  without-stays [] h = refl
  without-stays (e ∷ es) h = ground (arith, without-stays es)

  count_by-le-length : (es : List Entry) → count_by (at_endpoint ep) es ≤ length es
  count_by-le-length [] = omega arith
  count_by-le-length (e ∷ es) = ground (arith, count_by-le-length es)

  count_by-snoc :
      (mid : List Entry) (e : Entry)
      → endpoint_eq e.1.ep ep ≡ false
      → count_by (at_endpoint ep) mid ≡ 0
      → count_by (at_endpoint ep) (mid ++ e ∷ []) ≡ 0
  count_by-snoc mid e miss h = ground (arith, count_by-append (at_endpoint ep) mid (e ∷ []))

  -- Behind a first entry that stays, the loop drops every entry with the end point.
  remove_scan-without :
      (fuel : ℕ) (first : Entry) (mid rest : List Entry)
      → count_by (at_endpoint ep) mid ≡ 0
      → count_by (at_endpoint ep) rest ≤ fuel
      → remove_scan fuel ep (first ∷ mid) rest ≡ done (first ∷ mid ++ without ep rest)
  unfolding remove_scan
  remove_scan-without fuel first mid [] none_in h = rw (append-nil mid)
  remove_scan-without zero first mid (e ∷ es) none_in h =
      elim (Bool-cases (endpoint_eq e.1.ep ep)) [
        | inl hit ↦ absurd (ground arith)
        | inr miss ↦ rw miss (
            remove_scan-without zero first (mid ++ e ∷ []) es (count_by-snoc mid e miss none_in)
              (rw miss at h)
            ∙ ap (λ l. done (first ∷ l)) (append_assoc mid (e ∷ []) (without ep es)))
      ]
  remove_scan-without (suc fuel) first mid (e ∷ es) none_in h =
      elim (Bool-cases (endpoint_eq e.1.ep ep)) [
        | inl hit ↦ rw hit (
            remove_scan-without fuel first [] (mid ++ es) refl
              (ground (arith, count_by-append (at_endpoint ep) mid es))
            ∙ ap (λ l. done (first ∷ l))
                (filter_by-append (λ x. not (at_endpoint ep x)) mid es
                  ∙ ap (λ l. l ++ without ep es) (without-stays mid none_in)))
        | inr miss ↦ rw miss (
            remove_scan-without (suc fuel) first (mid ++ e ∷ []) es
              (count_by-snoc mid e miss none_in) (rw miss at h)
            ∙ ap (λ l. done (first ∷ l)) (append_assoc mid (e ∷ []) (without ep es)))
      ]

  -- What the loop comes to: the first entry that stays at the front is never tested again, and an
  -- erasure that leaves nothing steps past the end.
  pub removal : List Entry → Scan
  removal [] = done []
  removal (e ∷ []) = if at_endpoint ep e then past_end else done (e ∷ [])
  removal (e ∷ f ∷ es) =
      if at_endpoint ep e then done (f ∷ without ep es) else done (e ∷ without ep (f ∷ es))

  remove_scan-removal : (es : List Entry) → remove_scan (length es) ep [] es ≡ removal es
  unfolding remove_scan removal
  remove_scan-removal [] = refl
  remove_scan-removal (e ∷ []) = ground arith
  remove_scan-removal (e ∷ f ∷ es) = elim (Bool-cases (endpoint_eq e.1.ep ep)) [
    | inl hit ↦
        rw hit (
          remove_scan-without (suc (length es)) f [] es refl (omega (arith, count_by-le-length es)))
    | inr miss ↦ rw miss (
        remove_scan-without (suc (suc (length es))) e [] (f ∷ es) refl
          (omega (arith, count_by-le-length (f ∷ es))))
  ]

-- `remove_contact` on every contact list: nothing for the empty list, a step past the end if the
-- only contact has the end point, and otherwise every contact with the end point is dropped,
-- except that the second one stays whenever the first is dropped.
pub remove_contact-removal :
    (ep : EndpointProto) (b : Bucket) → remove_contact ep b ≡ removal ep b.entries
unfolding remove_contact
remove_contact-removal ep b = remove_scan-removal ep b.entries

-- If the first contact has another end point, `remove_contact` leaves exactly the contacts with
-- other end points, in their order.
pub remove_contact_complete :
    (ep : EndpointProto) (b : Bucket) (e : Entry) (es : List Entry)
    → b.entries ≡ e ∷ es
    → endpoint_eq e.1.ep ep ≡ false
    → remove_contact ep b ≡ done (without ep b.entries)
unfolding removal
remove_contact_complete ep b e [] at miss = remove_contact-removal ep b ∙ rw (at, miss)
remove_contact_complete ep b e (f ∷ es) at miss = remove_contact-removal ep b ∙ rw (at, miss)
