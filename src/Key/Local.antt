-- ===== src/Key/Local.antt =====
-- Digests of texts and files (Sources/miniDHT_const.cpp), and the key of a node, which is kept in
-- a file (Sources/miniDHT_const.h).
use mini_dht.Base.{
  ℕ, zero, suc, Bool, List, [], ◌∷◌, ◌++◌, Option, none, some, Bytes, Map, if◌then◌else◌, length,
  take, str_lt,
}
use mini_dht.Base.Int.{ℤ, pos, negsuc}
use mini_dht.Base.Slices.{drop}
use mini_dht.Base.Maps.{find, insert_or_assign}
use mini_dht.Contact.{decimal}
use mini_dht.Key.Bits.{Bits, key_size}
use mini_dht.Key.Digest.{is_space, digest_to_bitset}

-- SHA-256 of the library: a context that is begun, given bytes, and ended.
pub record Hasher (Context : Type 0) : Type 0 where
  pub init : Context
  pub update : Context → Bytes → Context
  pub final : Context → List ℕ

-- The computer: its name, the texts of the clock's readings, one after the other, and which files
-- can be written.
pub record Host : Type 0 where
  pub host_name : Bytes
  pub iso_time : ℕ → Bytes
  pub can_write : Bytes → Bool

abbrev pub Files : Type 0
Files = Map Bytes Bytes

abbrev pub buf_size : ℕ
buf_size = 32768

-- `is >> s` for a string: white space is skipped, and the text goes to the next white space.
unfoldable pub word_rest : Bytes → Bytes
word_rest [] = []
word_rest (c ∷ s) = let rest = word_rest s in if is_space c then [] else c ∷ rest

unfoldable pub read_word : Bytes → Bytes
unfolding word_rest
read_word [] = []
read_word (c ∷ s) = let rest = read_word s in if is_space c then rest else c ∷ word_rest s

-- The name of the file of the key.
unfoldable pub uid_file : Bytes → ℕ → Bytes
uid_file path port =
    path
    ++ (b'l' ∷ b'o' ∷ b'c' ∷ b'a' ∷ b'l' ∷ b'h' ∷ b'o' ∷ b's' ∷ b't' ∷ b'.' ∷ b'u' ∷ b'i' ∷ b'd'
        ∷ b'.' ∷ [])
    ++ decimal port
    ++ (b'.' ∷ b't' ∷ b'x' ∷ b't' ∷ [])

-- The text of a new key.
unfoldable pub uid_text : Host → ℕ → ℕ → Bytes
uid_text host port now = host.host_name ++ b':' ∷ decimal port ++ b':' ∷ host.iso_time now

-- `ofs << text`: nothing is said when the file cannot be opened.
unfoldable pub write_file : Host → Bytes → Bytes → Files → Files
write_file host name text files =
    if host.can_write name then insert_or_assign str_lt name text files else files

module _ {Context : Type 0} (sha : Hasher Context) where
  unfoldable pub digest_sum : Bytes → List ℕ
  digest_sum p = sha.final (sha.update sha.init p)

  -- The loop of `digest_file`, over what is left of the file, with a buffer of a size.
  unfoldable pub digest_chunks : ℕ → ℕ → Bytes → Context → Option Context
  digest_chunks size zero file ctx = none
  digest_chunks size (suc fuel) file ctx = elim (take size file) [
    | [] ↦ some ctx
    | c ∷ cs ↦ digest_chunks size fuel (drop size file) (sha.update ctx (c ∷ cs))
  ]

  -- `digest_file`: what it returns, and the digest; `none` if the loop did not end.
  unfoldable pub digest_file : List ℕ → Option Bytes → Option (ℤ × List ℕ)
  unfolding digest_chunks
  digest_file digest none = some (negsuc 533, digest)
  digest_file digest (some file) = elim (digest_chunks buf_size (suc (length file)) file sha.init) [
    | none ↦ none
    | some ctx ↦ some (pos 0, sha.final ctx)
  ]

  unfoldable pub digest_from_string : Bytes → List ℕ
  unfolding digest_sum
  digest_from_string s = digest_sum s

  unfoldable pub digest_key_from_string : Bytes → Bits
  unfolding digest_from_string
  digest_key_from_string s = digest_to_bitset key_size (digest_from_string s)

  unfoldable pub key_from_port : Host → ℕ → Bits
  unfolding digest_key_from_string
  key_from_port host port = digest_key_from_string (host.host_name ++ b':' ∷ decimal port)

  -- `local_key`, which calls itself after it has written the file; `now` counts the readings of
  -- the clock, and `none` is a recursion that has not ended.
  unfoldable pub local_key : Host → ℕ → ℕ → Bytes → ℕ → Files → Option (Bits × Files)
  unfolding uid_file uid_text write_file read_word
  local_key host zero port path now files = none
  local_key host (suc fuel) port path now files = elim (find str_lt (uid_file path port) files) [
    | some text ↦ some (digest_key_from_string (read_word text), files)
    | none ↦
        local_key host fuel port path (suc now)
          (write_file host (uid_file path port) (uid_text host port now) files)
  ]
