-- ===== src/Tests/Keys.antt =====
-- Keys, digests and end points.
use mini_dht.Base.{ℕ, ◌<◌, List, [], ◌∷◌, ◌++◌, ◌≡◌, refl, true, false, All, str_lt, some, arith}
use mini_dht.Key.Bits.{bits_xor, to_string, common_bits, common_bits_from}
use mini_dht.Key.Digest.{read_digest, digest_to_string}
use mini_dht.Key.Prefix.{common_bits-str_lt}
use mini_dht.Key.Hex.{read_digest-digest_to_string}
use mini_dht.Contact.{starts_bracket, string_to_endpoint_pair, endpoint_to_string}
use mini_dht.Contact.Address.{string_to_endpoint_pair-endpoint_to_string}
use mini_dht.Tests.Data.{home}

common_bits-str_lt_example :
    str_lt
      (to_string (bits_xor (true ∷ false ∷ true ∷ []) (true ∷ true ∷ true ∷ [])))
      (to_string (bits_xor (false ∷ true ∷ true ∷ []) (true ∷ true ∷ true ∷ [])))
    ≡ true
unfolding common_bits common_bits_from
common_bits-str_lt_example =
    common_bits-str_lt (false ∷ true ∷ true ∷ []) (true ∷ false ∷ true ∷ [])
      (true ∷ true ∷ true ∷ []) refl refl (omega arith)

read_digest-digest_to_string_example :
    read_digest 2 (digest_to_string (7 ∷ 255 ∷ []) ++ b'x' ∷ []) ≡ 7 ∷ 255 ∷ []
read_digest-digest_to_string_example =
    read_digest-digest_to_string (7 ∷ 255 ∷ []) (b'x' ∷ []) (omega arith, (omega arith, tt))

abbrev counted : List ℕ
counted =
    0 ∷ 7 ∷ 14 ∷ 21 ∷ 28 ∷ 35 ∷ 42 ∷ 49 ∷ 56 ∷ 63 ∷ 70 ∷ 77 ∷ 84 ∷ 91 ∷ 98 ∷ 105 ∷ 112 ∷ 119 ∷ 126
    ∷ 133 ∷ 140 ∷ 147 ∷ 154 ∷ 161 ∷ 168 ∷ 175 ∷ 182 ∷ 189 ∷ 196 ∷ 203 ∷ 210 ∷ 217 ∷ []

counted_small : All (λ c. c < 256) counted
counted_small = (
  omega arith,
  (
    omega arith,
    (
      omega arith,
      (
        omega arith,
        (
          omega arith,
          (
            omega arith,
            (
              omega arith,
              (
                omega arith,
                (
                  omega arith,
                  (
                    omega arith,
                    (
                      omega arith,
                      (
                        omega arith,
                        (
                          omega arith,
                          (
                            omega arith,
                            (
                              omega arith,
                              (
                                omega arith,
                                (
                                  omega arith,
                                  (
                                    omega arith,
                                    (
                                      omega arith,
                                      (
                                        omega arith,
                                        (
                                          omega arith,
                                          (
                                            omega arith,
                                            (
                                              omega arith,
                                              (
                                                omega arith,
                                                (
                                                  omega arith,
                                                  (
                                                    omega arith,
                                                    (
                                                      omega arith,
                                                      (
                                                        omega arith,
                                                        (
                                                          omega arith,
                                                          (
                                                            omega arith,
                                                            (omega arith, (omega arith, tt)),
                                                          ),
                                                        ),
                                                      ),
                                                    ),
                                                  ),
                                                ),
                                              ),
                                            ),
                                          ),
                                        ),
                                      ),
                                    ),
                                  ),
                                ),
                              ),
                            ),
                          ),
                        ),
                      ),
                    ),
                  ),
                ),
              ),
            ),
          ),
        ),
      ),
    ),
  ),
)

string_to_endpoint_pair-endpoint_to_string_example :
    string_to_endpoint_pair (endpoint_to_string home) ≡ some (home.address, home.port)
unfolding starts_bracket
string_to_endpoint_pair-endpoint_to_string_example =
    string_to_endpoint_pair-endpoint_to_string home refl (refl, (refl, tt))
