-- ===== src/Key/Kept.antt =====
-- The key of a node is kept (`local_key` of Sources/miniDHT_const.h), and the digest of a file is
-- that of its text (Sources/miniDHT_const.cpp).
use mini_dht.Base.{
  ℕ, zero, suc, ◌<◌, true, false, List, [], ◌∷◌, ◌++◌, none, some, Bytes, length, take, str_lt, ◌≡◌,
  refl, sym, ◌∙◌, ap, arith, inl, inr, Option-cases,
}
use mini_dht.Base.Int.{pos}
use mini_dht.Base.Slices.{drop, length-drop}
use mini_dht.Base.Maps.{find, str_lt-IsStrictOrder, find-insert_or_assign_self}
use mini_dht.Key.Bits.{Bits}
use mini_dht.Key.Local.{
  Hasher, Host, Files, uid_file, uid_text, write_file, digest_sum, digest_chunks, digest_file,
  local_key, digest_key_from_string, read_word,
}

take-drop : (n : ℕ) (xs : Bytes) → take n xs ++ drop n xs ≡ xs
take-drop zero xs = refl
take-drop (suc n) [] = refl
take-drop (suc n) (x ∷ xs) = ap (λ (z : Bytes). x ∷ z) (take-drop n xs)

-- What the library documents of contexts: bytes may be given in parts, and no bytes change
-- nothing.
pub record IsStreaming {Context : Type 0} (sha : Hasher Context) : Type 0 where
  pub in_parts : (c : Context) (a b : Bytes) → sha.update (sha.update c a) b ≡ sha.update c (a ++ b)
  pub nothing : (c : Context) → sha.update c [] ≡ c

module _ {Context : Type 0} (sha : Hasher Context) where
  digest_chunks_lem :
      IsStreaming sha
      → (n fuel : ℕ) (file : Bytes) (c : Context) → length file < fuel
      → digest_chunks sha (suc n) fuel file c ≡ some (sha.update c file)
  unfolding digest_chunks
  digest_chunks_lem law n zero file c enough = absurd (omega arith)
  digest_chunks_lem law n (suc fuel) [] c enough =
      ap (λ (z : Context). some z) (sym (law.nothing c))
  digest_chunks_lem law n (suc fuel) (x ∷ xs) c enough =
      digest_chunks_lem law n fuel (drop n xs) (sha.update c (x ∷ take n xs))
        (omega (arith, length-drop n xs))
      ∙ ap (λ (z : Context). some z) (law.in_parts c (x ∷ take n xs) (drop n xs))
      ∙ ap (λ (z : Bytes). some (sha.update c (x ∷ z))) (take-drop n xs)

  -- With a hash that may be given its bytes in parts, `digest_file` of a file that can be opened
  -- ends, returns 0, and gives the digest of the whole text, however long the file is.
  pub digest_file-digest_sum :
      IsStreaming sha
      → (digest : List ℕ) (file : Bytes)
      → digest_file sha digest (some file) ≡ some (pos 0, digest_sum sha file)
  unfolding digest_file digest_sum
  digest_file-digest_sum law digest file =
      rw (digest_chunks_lem law 32767 (suc (length file)) file sha.init (omega arith)) refl

  -- Where the file of the key can be written, `local_key` ends after at most one more call of
  -- itself, whatever files there are, and a later call, at any time, reads the same key and writes
  -- nothing.
  pub local_key_kept :
      (host : Host) (port : ℕ) (path : Bytes) (now now' : ℕ) (files : Files)
      → host.can_write (uid_file path port) ≡ true
      → (k : Bits) × (files' : Files) × (local_key sha host 2 port path now files
          ≡ some (k, files'))
        × (local_key sha host 1 port path now' files' ≡ some (k, files'))
  unfolding local_key
  local_key_kept host port path now now' files writes =
      elim (Option-cases (find str_lt (uid_file path port) files)) [
        | inl missing ↦
            let text = uid_text host port now in
            let files' = write_file host (uid_file path port) text files in
            let there : find str_lt (uid_file path port) files' ≡ some text =
              unfold write_file in
              rw writes (
                find-insert_or_assign_self str_lt str_lt-IsStrictOrder (uid_file path port) text
                  files) in
            (
              digest_key_from_string sha (read_word text),
              files',
              rw (missing, there, local_key) refl,
              rw (there, local_key) refl,
            )
        | inr (text, there) ↦ (
          digest_key_from_string sha (read_word text),
          files,
          rw (there, local_key) refl,
          rw (there, local_key) refl,
        )
      ]

  pub local_key_endless :
      (host : Host) (fuel port : ℕ) (path : Bytes) (now : ℕ) (files : Files)
      → host.can_write (uid_file path port) ≡ false
      → find str_lt (uid_file path port) files ≡ none
      → local_key sha host fuel port path now files ≡ none
  unfolding local_key write_file
  local_key_endless host zero port path now files closed missing = refl
  local_key_endless host (suc fuel) port path now files closed missing =
      rw (missing, closed, local_key)
        (local_key_endless host fuel port path (suc now) files closed missing)
