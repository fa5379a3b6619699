-- ===== src/Contact/Address.antt =====
-- End points as text and back, and the order by which sessions are kept.
use mini_dht.Base.{
  ℕ, suc, ◌≡◌, refl, ap, true, false, [], ◌∷◌, ◌++◌, none, some, arith, Bytes, str_eq_iff,
  str_eq_self, ◌==◌, All, length,
}
use mini_dht.Base.Maps.{IsStrictOrder, str_lt-IsStrictOrder}
use mini_dht.Contact.{
  EndpointProto, endpoint_eq, endpoint_lt, endpoint_to_string, split_last, find_char, prefix,
  starts_bracket, substr_one, string_to_endpoint_pair,
}

pub endpoint_eq_sound : (a b : EndpointProto) → endpoint_eq a b ≡ true → a ≡ b
unfolding endpoint_eq
endpoint_eq_sound a b h = ground (arith, str_eq_iff a.address b.address, str_eq_iff a.port b.port)

pub endpoint_eq_self : (a : EndpointProto) → endpoint_eq a a ≡ true
unfolding endpoint_eq
endpoint_eq_self a = ground (arith, str_eq_self a.address, str_eq_self a.port)

-- `operator<` on end points is a strict order in which unordered end points are equal, as the
-- session table needs of its keys.
pub endpoint_lt-IsStrictOrder : IsStrictOrder endpoint_lt
unfolding endpoint_lt
endpoint_lt-IsStrictOrder =
    let o = str_lt-IsStrictOrder in
    record {
      irreflexive = λ a. ground (arith, str_eq_self a.address, o.irreflexive a.port);
      transitive = λ a b c p q. ground (
        arith,
        str_eq_iff a.address b.address,
        str_eq_iff b.address c.address,
        str_eq_iff a.address c.address,
        o.transitive a.address b.address c.address,
        o.transitive a.port b.port c.port,
        o.irreflexive a.address,
        o.irreflexive b.address,
        o.irreflexive c.address,
      );
      connected = λ a b p q. ground (
        arith,
        str_eq_iff a.address b.address,
        str_eq_iff b.address a.address,
        o.connected a.address b.address,
        o.connected a.port b.port,
      );
    }

-- No ':' in the text.
abbrev pub HasNo : ℕ → Bytes → Type 0
HasNo c = All (λ x. (x == c) ≡ false)

split_last-none : (c : ℕ) (xs : Bytes) → HasNo c xs → split_last c xs ≡ none
unfolding split_last
split_last-none c [] h = refl
split_last-none c (x ∷ xs) h = ground (arith, split_last-none c xs h.1)

split_last-append :
    (c : ℕ) (xs ys : Bytes) → HasNo c ys → split_last c (xs ++ c ∷ ys) ≡ some (xs, ys)
unfolding split_last
split_last-append c [] ys h = ground (arith, split_last-none c ys h)
split_last-append c (x ∷ xs) ys h = rw (split_last-append c xs ys h)

starts_bracket-append :
    (xs : Bytes) (c : ℕ) (ys : Bytes)
    → (c == b'[') ≡ false
    → starts_bracket (xs ++ c ∷ ys) ≡ starts_bracket xs
unfolding starts_bracket
starts_bracket-append [] c ys h = h
starts_bracket-append (x ∷ xs) c ys h = refl

-- What `endpoint_to_string` writes is read back, also an address with colons in it, where the
-- address does not begin with '[' and the port has no ':'.
pub string_to_endpoint_pair-endpoint_to_string :
    (ep : EndpointProto)
    → starts_bracket ep.address ≡ false
    → HasNo b':' ep.port
    → string_to_endpoint_pair (endpoint_to_string ep) ≡ some (ep.address, ep.port)
unfolding string_to_endpoint_pair endpoint_to_string
string_to_endpoint_pair-endpoint_to_string ep open_address h = ground (
  arith,
  split_last-append b':' ep.address ep.port h,
  starts_bracket-append ep.address b':' ep.port refl,
)

find_char-append :
    (c : ℕ) (xs ys : Bytes) → HasNo c xs → find_char c (xs ++ c ∷ ys) ≡ some (length xs)
unfolding find_char
find_char-append c [] ys h = ground arith
find_char-append c (x ∷ xs) ys h = ground (arith, find_char-append c xs ys h.1)

prefix-append :
    (xs : Bytes) (c : ℕ) (ys : Bytes) → prefix (suc (length xs)) (xs ++ c ∷ ys) ≡ xs ++ c ∷ []
unfolding prefix
prefix-append [] c ys = refl
prefix-append (x ∷ xs) c ys = ap (◌∷◌ x) (prefix-append xs c ys)

split_last_bracket :
    (xs ys : Bytes)
    → HasNo b':' ys
    → split_last b':' (xs ++ b']' ∷ b':' ∷ ys) ≡ some (xs ++ b']' ∷ [], ys)
unfolding split_last
split_last_bracket [] ys h = ground (arith, split_last-none b':' ys h)
split_last_bracket (x ∷ xs) ys h = rw (split_last_bracket xs ys h)

-- Of an address in brackets without a ']' in it, with a port that has no ':', the closing bracket
-- stays in the address that is read.
pub string_to_endpoint_pair_bracket :
    (address port : Bytes)
    → HasNo b']' address
    → HasNo b':' port
    → string_to_endpoint_pair (b'[' ∷ address ++ b']' ∷ b':' ∷ port)
      ≡ some (address ++ b']' ∷ [], port)
unfolding string_to_endpoint_pair starts_bracket substr_one
string_to_endpoint_pair_bracket address port p q = ground (
  arith,
  split_last_bracket (b'[' ∷ address) port q,
  find_char-append b']' (b'[' ∷ address) (b':' ∷ port) (refl, p),
  prefix-append address b']' (b':' ∷ port),
)
