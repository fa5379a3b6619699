-- ===== src/Node/Disconnect.antt =====
-- `handle_disconnect` (Sources/miniDHT.cpp) leaves a sound node.
use mathlib.Core.List.{append_assoc, append-nil}
use mathlib.Core.Path.{subst}
use mini_dht.Base.{
  ℕ, zero, suc, List, [], ◌∷◌, ◌++◌, length, refl, sym, Bool-cases, List-cases, inl, inr,
}
use mini_dht.Contact.{EndpointProto, TcpEndpoint, endpoint_eq, endpoint_to_proto}
use mini_dht.Bucket.{Entry, Bucket, Scan, done, past_end, no_fuel, remove_scan, remove_contact}
use mini_dht.Bucket.Valid.{IsValid}
use mini_dht.Node.State.{Node, Result, ok, fault, exception, undefined, out_of_fuel}
use mini_dht.Node.Handle.{handle_disconnect}
use mini_dht.Node.Periodic.Contacts.{Settles, split-IsValid}
use mini_dht.Node.Sound.{IsSound, EndsSound}

-- What a scan of the contact list leaves is well formed.
abbrev LeavesValid : Bucket → Scan → Type 0
LeavesValid b (done es) = IsValid (record b { entries = es })
LeavesValid b past_end = Unit
LeavesValid b no_fuel = Unit

remove_scan-LeavesValid :
    (fuel : ℕ) (ep : EndpointProto) (before es : List Entry) (b : Bucket)
    → IsValid (record b { entries = before ++ es })
    → LeavesValid b (remove_scan fuel ep before es)
unfolding remove_scan
remove_scan-LeavesValid fuel ep before [] b v =
    subst (λ z. IsValid (record b { entries = z })) (append-nil before) v
remove_scan-LeavesValid zero ep before (e ∷ es) b v = elim (Bool-cases (endpoint_eq e.1.ep ep)) [
  | inl hit ↦ rw hit tt
  | inr miss ↦ rw miss (
      remove_scan-LeavesValid zero ep (before ++ e ∷ []) es b
        (subst (λ z. IsValid (record b { entries = z })) (sym (append_assoc before (e ∷ []) es)) v))
]
remove_scan-LeavesValid (suc fuel) ep before (e ∷ es) b v =
    elim (Bool-cases (endpoint_eq e.1.ep ep)) [
      | inl hit ↦ elim (List-cases (before ++ es)) [
        | inl empty ↦ rw (hit, empty) tt
        | inr (first, rest, left) ↦
            rw (hit, left)
              (remove_scan-LeavesValid fuel ep (first ∷ []) rest b (
                subst (λ z. IsValid (record b { entries = z })) left
                  (split-IsValid before es e (record b { entries = before ++ e ∷ es }) refl v)))
      ]
      | inr miss ↦ rw miss (
          remove_scan-LeavesValid (suc fuel) ep (before ++ e ∷ []) es b (
            subst (λ z. IsValid (record b { entries = z })) (sym (append_assoc before (e ∷ []) es))
              v))
    ]

with_entries :
    (es : List Entry) (n : Node)
    → IsValid (record n.contact_list { entries = es })
    → IsSound n
    → IsSound (record n { contact_list = record n.contact_list { entries = es } })
with_entries es n v s = record {
  contacts = v;
  own_key = s.own_key;
  store = s.store;
  room = s.room;
  signed = s.signed;
}

-- A method that ends without a fault leaves a sound node.
abbrev pub LeavesSound : Result Node → Type 0
LeavesSound (ok n) = IsSound n
LeavesSound (fault e) = Unit

pub EndsSound-LeavesSound : (r : Result Node) → EndsSound r → LeavesSound r
EndsSound-LeavesSound (ok n) s = s
EndsSound-LeavesSound (fault exception) s = tt
EndsSound-LeavesSound (fault undefined) s = tt
EndsSound-LeavesSound (fault out_of_fuel) s = tt

pub Settles-LeavesSound : (r : Result Node) → Settles r → LeavesSound r
Settles-LeavesSound (ok n) s = s
Settles-LeavesSound (fault exception) s = tt
Settles-LeavesSound (fault undefined) s = tt
Settles-LeavesSound (fault out_of_fuel) s = tt

left-LeavesSound :
    (r : Scan) (n : Node)
    → LeavesValid n.contact_list r
    → IsSound n
    → LeavesSound (elim r [
      | done es ↦ ok (record n { contact_list = record n.contact_list { entries = es } })
      | past_end ↦ fault undefined
      | no_fuel ↦ fault out_of_fuel
    ])
left-LeavesSound (done es) n v s = with_entries es n v s
left-LeavesSound past_end n v s = tt
left-LeavesSound no_fuel n v s = tt

pub handle_disconnect-LeavesSound :
    (ep : TcpEndpoint) (n : Node) → IsSound n → LeavesSound (handle_disconnect ep n)
unfolding handle_disconnect remove_contact
handle_disconnect-LeavesSound ep n s =
    left-LeavesSound (remove_contact (endpoint_to_proto ep) n.contact_list) n
      (remove_scan-LeavesValid (length n.contact_list.entries) (endpoint_to_proto ep) []
        n.contact_list.entries n.contact_list s.contacts)
      s
