-- ===== src/Session/Framing/Packing.antt =====
-- How a payload becomes a packet (Sources/miniDHT_session.h and `send_MESSAGE`).
use mathlib.Core.Path.{subst}
use mathlib.Core.Option.{none-ne-some, some-injective}
use mathlib.Core.List.{append_assoc, append-nil}
use mini_dht.Base.{
  ℕ, zero, suc, ◌+◌, ◌≤◌, ◌<◌, true, false, [], ◌∷◌, ◌++◌, none, some, Bytes, ltb, leb, length,
  take, length-append, ◌≡◌, refl, sym, ◌∙◌, ap, arith, Bool-cases, inl, inr, ◌↔◌,
}
use mini_dht.Base.Slices.{drop, put_at, take-append, drop-append}
use mini_dht.Session.Message.{
  Message, copy_message, assign, packet_length, header_length, max_body_length, write_header,
  encode_header, write_body, fresh, set_body_length, sized_message, pack,
}
use mini_dht.Session.Header.{IsField, padded-IsField}

-- A write over a part of the same size.
pub put_at-over :
    (i : ℕ) (pre mid post xs : Bytes)
    → length pre ≡ i
    → length xs ≡ length mid
    → put_at i xs (pre ++ (mid ++ post)) ≡ some (pre ++ (xs ++ post))
unfolding put_at
put_at-over i pre mid post xs at same =
    let fits : leb (i + length xs) (length (pre ++ (mid ++ post))) ≡ true =
      ground (arith, length-append pre (mid ++ post), length-append mid post) in
    let tail : drop (i + length xs) (pre ++ (mid ++ post)) ≡ post =
      ap (drop (i + length xs)) (sym (append_assoc pre mid post))
      ∙ drop-append (i + length xs) (pre ++ mid) post (omega (arith, length-append pre mid)) in
    rw (fits, take-append i pre (mid ++ post) at, tail) refl

-- A list of a size is a part of that size and the rest.
pub split_at :
    (n : ℕ) (xs : Bytes)
    → n ≤ length xs
    → (pre post : Bytes) × (xs ≡ pre ++ post) × (length pre ≡ n)
split_at zero xs h = ([], xs, refl, refl)
split_at (suc n) [] h = absurd (omega arith)
split_at (suc n) (x ∷ xs) h =
    let (pre, post, e, l) = split_at n xs (omega arith) in
    (x ∷ pre, post, ap (λ (z : Bytes). x ∷ z) e, omega (arith, l))

encoded :
    (p0 q0 tail : Bytes) (n k : ℕ)
    → length p0 ≡ 8
    → length q0 ≡ 8
    → n ≤ max_body_length
    → k < 65536
    → (p q : Bytes) × IsField n p
      × IsField k q
      × (encode_header
            (record { buffer = some (p0 ++ (q0 ++ tail)); body_length = n; listen_port = k })
          ≡ some (record { buffer = some (p ++ (q ++ tail)); body_length = n; listen_port = k }))
unfolding encode_header write_header
encoded p0 q0 tail n k l0 l1 fits small =
    let (p, ep, fp) = padded-IsField n (omega arith) in
    let (q, eq, fq) = padded-IsField k (omega arith) in
    (
      p,
      q,
      fp,
      fq,
      rw
          (
            ep,
            eq,
            put_at-over 0 [] p0 (q0 ++ tail) p refl (fp.wide ∙ sym l0),
            put_at-over 8 p q0 tail q fp.wide (fq.wide ∙ sym l1),
            encode_header,
            write_header,
          )
          refl,
    )

written :
    (b payload : Bytes) (n k : ℕ)
    → length b ≡ header_length + length payload
    → (p0 q0 : Bytes) × (length p0 ≡ 8)
      × (length q0 ≡ 8)
      × (write_body payload (record { buffer = some b; body_length = n; listen_port = k })
          ≡ some
              (record { buffer = some (p0 ++ (q0 ++ payload)); body_length = n; listen_port = k }))
unfolding write_body
written b payload n k size =
    let (p0, rest, e0, l0) = split_at 8 b (omega (arith, size)) in
    let size' : length rest ≡ 8 + length payload =
      omega (arith, size, ap length e0, length-append p0 rest, l0) in
    let (q0, mid, e1, l1) = split_at 8 rest (omega (arith, size')) in
    let pre = p0 ++ q0 in
    let whole : b ≡ pre ++ (mid ++ []) =
      e0
      ∙ ap (λ (z : Bytes). p0 ++ z) e1
      ∙ sym (append_assoc p0 q0 mid)
      ∙ ap (λ (z : Bytes). pre ++ z) (sym (append-nil mid)) in
    let put : put_at header_length payload b ≡ some (p0 ++ (q0 ++ payload)) =
      ap (put_at header_length payload) whole
      ∙ put_at-over header_length pre mid [] payload (omega (arith, length-append p0 q0, l0, l1))
          (omega (arith, size', ap length e1, length-append q0 mid, l1))
      ∙ ap (λ (z : Bytes). some z)
          (append_assoc p0 q0 (payload ++ [])
            ∙ ap (λ (z : Bytes). p0 ++ (q0 ++ z)) (append-nil payload)) in
    (p0, q0, l0, l1, rw (put, write_body) refl)

module _ (junk : ℕ → ℕ) where
  pub length-fresh : (n i : ℕ) → length (fresh junk n i) ≡ n
  unfolding fresh
  length-fresh zero i = refl
  length-fresh (suc n) i = ap suc (length-fresh n (suc i))

  sized :
      (n : ℕ)
      → n ≤ max_body_length
      → sized_message junk n ≡ record {
        buffer = some (fresh junk (header_length + n) 0);
        body_length = n;
        listen_port = 0;
      }
  unfolding sized_message set_body_length
  sized n fits = let small : ltb max_body_length n ≡ false = ground arith in rw small refl

  -- The packet of a payload that fits: two fields and the payload.
  pub packed :
      (port : ℕ) (payload : Bytes)
      → port < 65536
      → length payload ≤ max_body_length
      → (p q : Bytes) × IsField (length payload) p
        × IsField port q
        × (pack junk port payload
            ≡ some (record {
              buffer = some (p ++ (q ++ payload));
              body_length = length payload;
              listen_port = port;
            }))
  unfolding pack
  packed port payload small fits =
      let n = length payload in
      let (p0, q0, l0, l1, e) =
        written (fresh junk (header_length + n) 0) payload n 0
          (length-fresh (header_length + n) 0) in
      let (p, q, fp, fq, e') = encoded p0 q0 payload n port l0 l1 fits small in
      (p, q, fp, fq, rw (sized n fits, e, pack) e')

  overflow :
      (port : ℕ) (payload : Bytes)
      → max_body_length < length payload
      → pack junk port payload ≡ none
  unfolding pack sized_message set_body_length write_body put_at
  overflow port payload long =
      let cut : ltb max_body_length (length payload) ≡ true = ground arith in
      let past : leb (header_length + length payload)
            (length (fresh junk (header_length + max_body_length) 0))
          ≡ false =
        rw (length-fresh (header_length + max_body_length) 0) (ground arith) in
      rw (cut, past, pack, sized_message, set_body_length, write_body, put_at) refl

  -- For a port of 16 bits, a payload can be made a packet exactly if it is not longer than
  -- `max_body_length`; a longer one is copied past the end of the buffer.
  pub pack_iff :
      (port : ℕ) (payload : Bytes)
      → port < 65536
      → (pack junk port payload ≡ none) ↔ (max_body_length < length payload)
  pack_iff port payload small = (
    λ thrown. elim (Bool-cases (ltb max_body_length (length payload))) [
      | inl long ↦ ground arith
      | inr short ↦ let (p, q, fp, fq, e) = packed port payload small (ground arith) in cc
    ],
    λ long. overflow port payload long,
  )

  copied :
      (b : Bytes) (n port : ℕ)
      → n ≤ max_body_length
      → length b ≡ header_length + n
      → copy_message junk (record { buffer = some b; body_length = n; listen_port = port })
        ≡ some (record { buffer = some b; body_length = n; listen_port = port })
  unfolding copy_message assign set_body_length packet_length
  copied b n port fits size =
      let small : ltb max_body_length n ≡ false = ground arith in
      let held : ltb (length b) (header_length + n) ≡ false = ground arith in
      let whole : take (header_length + n) b ≡ b =
        ap (take (header_length + n)) (sym (append-nil b))
        ∙ take-append (header_length + n) b [] size in
      rw (small, held, whole) refl

  -- A packet in the queue of a session is a copy, and the copy is the same.
  pub copy_message-pack :
      (port : ℕ) (payload : Bytes) (m : Message)
      → port < 65536
      → pack junk port payload ≡ some m
      → copy_message junk m ≡ some m
  copy_message-pack port payload m small made =
      elim (Bool-cases (ltb max_body_length (length payload))) [
        | inl long ↦ absurd (none-ne-some m (sym (overflow port payload (ground arith)) ∙ made))
        | inr fits ↦
            let (p, q, fp, fq, e) = packed port payload small (ground arith) in
            subst (λ (z : Message). copy_message junk z ≡ some z)
              (some-injective _ m (sym e ∙ made))
              (copied (p ++ (q ++ payload)) (length payload) port (ground arith) (
                omega (
                  arith,
                  length-append p (q ++ payload),
                  length-append q payload,
                  fp.wide,
                  fq.wide,
                )))
      ]
