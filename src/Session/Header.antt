-- ===== src/Session/Header.antt =====
-- The header of a packet (Sources/miniDHT_session.h): what is written is read back, and no size
-- that is read is too large for the buffer.
use mini_dht.Base.{
  ℕ, zero, suc, ◌+◌, ◌-◌, ◌*◌, ◌/◌, ◌%◌, ◌≤◌, ◌<◌, Bool, true, false, [], ◌∷◌, ◌++◌, Option, some,
  Bytes, ltb, ◌==◌, length, length-append, All, ◌≡◌, refl, sym, ◌∙◌, ap, arith, Bool-cases, inl,
  inr,
}
use mini_dht.Base.Slices.{drop, drop-append}
use mini_dht.Base.Int.{ℤ, pos, negsuc, to_unsigned}
use mini_dht.Key.Digest.{is_space}
use mini_dht.Contact.{decimal, decimal_from}
use mini_dht.Session.Message.{
  Message, header_length, max_body_length, packet_size, spaces, padded, text_of, digits_value,
  signed_value, atoi, decode_header,
}

-- Reading the digits of a number, on top of what was read before.
digits_value-decimal_from :
    (fuel n : ℕ) (rest : Bytes)
    → n < fuel
    → digits_value 0 (decimal_from fuel n rest) ≡ digits_value n rest
unfolding digits_value decimal_from
digits_value-decimal_from zero n rest h = absurd (omega arith)
digits_value-decimal_from (suc fuel) n rest h =
    ground (arith, digits_value-decimal_from fuel (n / 10) ((b'0' + n % 10) ∷ rest))

abbrev power : ℕ → ℕ
power zero = 1
power (suc k) = 10 * power k

-- A number below the power has at most so many digits.
length-decimal_from :
    (fuel n k : ℕ) (rest : Bytes)
    → n < fuel
    → n < power (suc k)
    → length (decimal_from fuel n rest) ≤ suc k + length rest
unfolding decimal_from
length-decimal_from zero n k rest h small = absurd (omega arith)
length-decimal_from (suc fuel) n zero rest h small = ground arith
length-decimal_from (suc fuel) n (suc k) rest h small =
    ground (arith, length-decimal_from fuel (n / 10) k ((b'0' + n % 10) ∷ rest))

-- The first character is a digit.
decimal_from-cons :
    (fuel n : ℕ) (rest : Bytes)
    → n < fuel
    → (c : ℕ) × (s : Bytes) × (decimal_from fuel n rest ≡ c ∷ s) × (b'0' ≤ c) × (c ≤ b'9')
unfolding decimal_from
decimal_from-cons zero n rest h = absurd (omega arith)
decimal_from-cons (suc fuel) n rest h = elim (Bool-cases (ltb n 10)) [
  | inl small ↦ rw small (b'0' + n, rest, refl, omega arith, ground arith)
  | inr large ↦ rw large (decimal_from-cons fuel (n / 10) ((b'0' + n % 10) ∷ rest) (ground arith))
]

atoi-spaces : (k : ℕ) (s : Bytes) → atoi (spaces k ++ s) ≡ atoi s
unfolding atoi spaces is_space
atoi-spaces zero s = refl
atoi-spaces (suc k) s = atoi-spaces k s

atoi-digit : (c : ℕ) (s : Bytes) → b'0' ≤ c → c ≤ b'9' → atoi (c ∷ s) ≡ pos (digits_value 0 (c ∷ s))
unfolding atoi signed_value is_space
atoi-digit c s low high = ground arith

atoi-decimal : (n : ℕ) → atoi (decimal n) ≡ pos n
unfolding decimal digits_value
atoi-decimal n =
    let (c, s, e, low, high) = decimal_from-cons (suc n) n [] (omega arith) in
    ap atoi e
    ∙ atoi-digit c s low high
    ∙ ap (λ t. pos (digits_value 0 t)) (sym e)
    ∙ ap pos (digits_value-decimal_from (suc n) n [] (omega arith))

-- No NUL in a text.
abbrev NoNul : Bytes → Type 0
NoNul = All (λ c. (c == 0) ≡ false)

decimal_from-NoNul : (fuel n : ℕ) (rest : Bytes) → NoNul rest → NoNul (decimal_from fuel n rest)
unfolding decimal_from
decimal_from-NoNul zero n rest h = h
decimal_from-NoNul (suc fuel) n rest h = elim (Bool-cases (ltb n 10)) [
  | inl small ↦ rw small (ground arith, h)
  | inr large ↦
      rw large (decimal_from-NoNul fuel (n / 10) ((b'0' + n % 10) ∷ rest) (ground arith, h))
]

spaces-NoNul : (k : ℕ) (s : Bytes) → NoNul s → NoNul (spaces k ++ s)
unfolding spaces
spaces-NoNul zero s h = h
spaces-NoNul (suc k) s h = (refl, spaces-NoNul k s h)

length-spaces : (k : ℕ) → length (spaces k) ≡ k
unfolding spaces
length-spaces zero = refl
length-spaces (suc k) = ap suc (length-spaces k)

text_of_all : (n : ℕ) (s rest : Bytes) → length s ≡ n → NoNul s → text_of n (s ++ rest) ≡ s
unfolding text_of
text_of_all zero [] rest e h = refl
text_of_all zero (c ∷ s) rest e h = absurd (omega (arith, e))
text_of_all (suc n) [] rest e h = absurd (omega (arith, e))
text_of_all (suc n) (c ∷ s) rest e h =
    rw h.0 (ap (λ (z : Bytes). c ∷ z) (text_of_all n s rest (omega (arith, e)) h.1))

-- A field of the header: eight characters that read as the number.
pub record IsField (n : ℕ) (p : Bytes) : Type 0 where
  pub wide : length p ≡ 8
  pub plain : NoNul p
  pub reads : atoi p ≡ pos n

pub padded-IsField : (n : ℕ) → n < 100000000 → (p : Bytes) × (padded n ≡ some p) × IsField n p
unfolding padded
padded-IsField n small =
    let short : length (decimal n) ≤ 8 =
      unfold decimal in omega (arith, length-decimal_from (suc n) n 7 [] (omega arith) small) in
    let p = spaces (8 - length (decimal n)) ++ decimal n in
    (
      p,
      ground arith,
      record {
        wide =
            length-append (spaces (8 - length (decimal n))) (decimal n)
            ∙ omega (arith, length-spaces (8 - length (decimal n)));
        plain =
            spaces-NoNul (8 - length (decimal n)) (decimal n)
              (unfold decimal in decimal_from-NoNul (suc n) n [] tt);
        reads = atoi-spaces (8 - length (decimal n)) (decimal n) ∙ atoi-decimal n;
      },
    )

-- A header that is made of two fields is read as the two numbers.
pub decode_header-fields :
    (n k : ℕ) (p q rest : Bytes) (m : Message)
    → IsField n p
    → IsField k q
    → n ≤ max_body_length
    → k < 65536
    → m.buffer ≡ some (p ++ (q ++ rest))
    → decode_header m ≡ some (true, record m { body_length = n; listen_port = k })
unfolding decode_header to_unsigned
decode_header-fields n k p q rest m fp fq small port at =
    let long : ltb (length (p ++ (q ++ rest))) header_length ≡ false =
      ground (arith, length-append p (q ++ rest), length-append q rest, fp.wide, fq.wide) in
    let first : to_unsigned 64 (atoi (text_of 8 (p ++ (q ++ rest)))) ≡ n =
      rw (text_of_all 8 p (q ++ rest) fp.wide fp.plain, fp.reads) (omega arith) in
    let second : to_unsigned 16 (atoi (text_of 8 (drop 8 (p ++ (q ++ rest))))) ≡ k =
      rw (drop-append 8 p (q ++ rest) fp.wide, text_of_all 8 q rest fq.wide fq.plain, fq.reads)
        (omega arith) in
    let fits : ltb max_body_length n ≡ false = ground arith in
    rw (at, long, first, second, fits, decode_header)
      (ap
        (λ (z : Option Bytes). some (true, record { buffer = z; body_length = n; listen_port = k }))
        at)

to_unsigned_16 : (x : ℤ) → to_unsigned 16 x < 65536
unfolding to_unsigned
to_unsigned_16 (pos n) = omega arith
to_unsigned_16 (negsuc n) = omega arith

fits_packet : (n : ℕ) → ltb max_body_length n ≡ false → header_length + n ≤ packet_size
fits_packet n h = ground arith

-- Whatever 16 characters a header holds, also signs, text that is no number and numbers past the
-- range, `decode_header` ends without a fault, and the body size that it sets fits the buffer with
-- the header; the port is one of 16 bits, the buffer is as before, and the size is 0 if the header
-- is refused.
pub decode_header_bounds :
    (m : Message) (b : Bytes)
    → m.buffer ≡ some b
    → header_length ≤ length b
    → (good : Bool) × (m' : Message) × (decode_header m ≡ some (good, m'))
      × (header_length + m'.body_length ≤ packet_size)
      × (m'.listen_port < 65536)
      × (m'.buffer ≡ some b)
      × (good ≡ false → m'.body_length ≡ 0)
unfolding decode_header
decode_header_bounds m b at long =
    let size = to_unsigned 64 (atoi (text_of 8 b)) in
    let port = to_unsigned 16 (atoi (text_of 8 (drop 8 b))) in
    let held : ltb (length b) header_length ≡ false = ground arith in
    elim (Bool-cases (ltb max_body_length size)) [
      | inl large ↦ (
        false,
        record m { body_length = 0; listen_port = port },
        rw (at, held, large, decode_header)
            (ap
              (λ (z : Option Bytes).
                some (false, record { buffer = z; body_length = 0; listen_port = port }))
              at),
        omega arith,
        to_unsigned_16 _,
        at,
        λ e. refl,
      )
      | inr fits ↦ (
        true,
        record m { body_length = size; listen_port = port },
        rw (at, held, fits, decode_header)
            (ap
              (λ (z : Option Bytes).
                some (true, record { buffer = z; body_length = size; listen_port = port }))
              at),
        fits_packet size fits,
        to_unsigned_16 _,
        at,
        λ e. cc,
      )
    ]
