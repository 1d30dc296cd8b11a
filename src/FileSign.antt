-- ===== src/FileSign.antt =====
-- src/FileSign.cpp: the signature of a file, by its content or by its time stamp, and of a directory;
-- and HashAddString and HashAddPath of src/Hash.hpp. The block function, as in Hashing, and what the
-- system says and lists are parameters; the loop of fread goes on as long as it reads something.
pub mod Reading
pub mod Content
pub mod Glob
use Prim.Native.Nat.{bit_and}
use tundra.Hashing.{
  HashState, hash_init, hash_update, hash_add_integer, hash_add_separator,
  hash_add_string_fold_case, hash_finalize,
}
use tundra.HashTable.{HashTableFlags}
use tundra.StringHash.{djb2_hash}
use tundra.StatCache.{FileInfo, StatCache, stat_cache_stat}
use tundra.DigestCache.{DigestCache, digest_cache_get, digest_cache_set}
use tundra.Prelude.{
  ℕ, zero, suc, ◌+◌, ◌-◌, ◌^◌, Bool, true, false, not, ◌||◌, List, [], ◌∷◌, ◌++◌, map, Option, none,
  some, if◌then◌else◌, ◌==◌, length, take, drop, ◌>>=◌,
}

-- GetFileInfo, and the content of a file that can be opened.
pub record Disk : Type 0 where
  pub get_file_info : List ℕ → FileInfo
  pub read_file : List ℕ → Option (List ℕ)

-- FileInfo::Exists and FileInfo::IsDirectory
unfoldable pub exists : FileInfo → Bool
exists info = not (bit_and 1 info.flags == 0)

unfoldable pub is_directory : FileInfo → Bool
is_directory info = not (bit_and 8 info.flags == 0)

-- strrchr(filename, c): from the last c on.
unfoldable pub strrchr : ℕ → List ℕ → Option (List ℕ)
strrchr c [] = none
strrchr c (x ∷ xs) = elim (strrchr c xs) [
  | some s ↦ some s
  | none ↦ if x == c then some (x ∷ xs) else none
]

-- The loop over the extensions that are signed by content.
unfoldable pub is_listed : ℕ → List ℕ → Bool
is_listed ext_hash [] = false
is_listed ext_hash (h ∷ hashes) = h == ext_hash || is_listed ext_hash hashes

-- Whether the file's extension is among those that are signed by content.
unfoldable pub by_content : List ℕ → List ℕ → Bool
unfolding strrchr is_listed djb2_hash
by_content filename sha_extension_hashes = elim (strrchr b'.' filename) [
  | none ↦ false
  | some ext ↦ is_listed (djb2_hash ext) sha_extension_hashes
]

-- "<missing>"
abbrev pub missing_text : List ℕ
missing_text = 60 ∷ 109 ∷ 105 ∷ 115 ∷ 115 ∷ 105 ∷ 110 ∷ 103 ∷ 62 ∷ []

-- `~0ull`
abbrev pub all_ones : ℕ
all_ones = 2 ^ 64 - 1

-- The number of bytes in the buffer of the loop.
abbrev pub read_size : ℕ
read_size = 8192

module _ {ℓ} {S : Type ℓ} (hash_block : S → List ℕ → S) where
  unfoldable pub hash_add_string : HashState S → List ℕ → HashState S
  unfolding hash_update
  hash_add_string self s = hash_update hash_block self s

  unfoldable pub hash_add_path : HashTableFlags → HashState S → List ℕ → HashState S
  unfolding hash_add_string hash_add_string_fold_case
  hash_add_path HashTableFlags.flag_case_sensitive self path = hash_add_string self path
  hash_add_path HashTableFlags.flag_case_insensitive self path =
      hash_add_string_fold_case hash_block self path

  -- `while (size_t nbytes = fread(...)) HashUpdate(...)`; a round reads at least one byte.
  unfoldable pub hash_file : ℕ → HashState S → List ℕ → HashState S
  unfolding hash_update
  hash_file zero h rest = h
  hash_file (suc fuel) h rest =
      let chunk : List ℕ = take read_size rest in
      let next = hash_file fuel (hash_update hash_block h chunk) (drop read_size rest) in
      if length chunk == 0 then h else next

  module _ (initial : S) (finalize_impl : S → List ℕ) (flags : HashTableFlags) (disk : Disk) where
    -- What ComputeFileSignatureSha1 does with a file that the cache has no digest for.
    unfoldable pub sign_content :
        HashState S
        → StatCache
        → DigestCache
        → List ℕ
        → ℕ
        → ℕ
        → Option (List ℕ)
        → Option (HashState S × StatCache × DigestCache)
    unfolding hash_file hash_init hash_finalize digest_cache_set hash_add_string
    sign_content state stats digests filename fn_hash timestamp none =
        some (hash_add_string state missing_text, stats, digests)
    sign_content state stats digests filename fn_hash timestamp (some content) = do
      let h = hash_file (length content + 1) (hash_init initial) content
      digest ← hash_finalize hash_block finalize_impl h
      digests' ← digest_cache_set flags digests filename fn_hash timestamp digest
      some (hash_update hash_block state digest, stats, digests')

    unfoldable pub sign_digest :
        HashState S
        → StatCache
        → DigestCache
        → List ℕ
        → ℕ
        → ℕ
        → Option (List ℕ)
        → Option (HashState S × StatCache × DigestCache)
    unfolding sign_content hash_update
    sign_digest state stats digests filename fn_hash timestamp none =
        sign_content state stats digests filename fn_hash timestamp (disk.read_file filename)
    sign_digest state stats digests filename fn_hash timestamp (some digest) =
        some (hash_update hash_block state digest, stats, digests)

    -- ComputeFileSignatureSha1 behind the call of StatCacheStat.
    unfoldable pub sign_sha1 :
        HashState S
        → DigestCache
        → List ℕ
        → ℕ
        → FileInfo
        → StatCache
        → Option (HashState S × StatCache × DigestCache)
    unfolding exists hash_add_integer digest_cache_get sign_digest
    sign_sha1 state digests filename fn_hash info stats =
        if exists info
        then digest_cache_get flags digests filename fn_hash info.timestamp
          >>= (λ got. sign_digest state stats got.1 filename fn_hash info.timestamp got.0)
        else some (hash_add_integer hash_block state all_ones, stats, digests)

    unfoldable pub compute_file_signature_sha1 :
        HashState S
        → StatCache
        → DigestCache
        → List ℕ
        → ℕ
        → Option (HashState S × StatCache × DigestCache)
    unfolding stat_cache_stat sign_sha1
    compute_file_signature_sha1 state stats digests filename fn_hash =
        stat_cache_stat flags disk.get_file_info stats filename fn_hash
        >>= (λ r. sign_sha1 state digests filename fn_hash r.0 r.1)

    unfoldable pub compute_file_signature_timestamp :
        HashState S
        → StatCache
        → DigestCache
        → List ℕ
        → ℕ
        → Option (HashState S × StatCache × DigestCache)
    unfolding stat_cache_stat exists hash_add_integer
    compute_file_signature_timestamp out stats digests filename hash =
        stat_cache_stat flags disk.get_file_info stats filename hash >>= (λ r. some (
          hash_add_integer hash_block out (if exists r.0 then r.0.timestamp else all_ones),
          r.1,
          digests,
        ))

    unfoldable pub compute_file_signature :
        HashState S
        → StatCache
        → DigestCache
        → List ℕ
        → ℕ
        → List ℕ
        → Option (HashState S × StatCache × DigestCache)
    unfolding by_content compute_file_signature_sha1 compute_file_signature_timestamp
    compute_file_signature out stats digests filename fn_hash sha_extension_hashes =
        if by_content filename sha_extension_hashes
        then compute_file_signature_sha1 out stats digests filename fn_hash
        else compute_file_signature_timestamp out stats digests filename fn_hash

-- The callback of ListDirectory: the directories and the files so far.
unfoldable pub callback :
    FileInfo → List ℕ → List (List ℕ) × List (List ℕ) → List (List ℕ) × List (List ℕ)
unfolding is_directory
callback info path (dirs, files) =
    if is_directory info then (dirs ++ path ∷ [], files) else (dirs, files ++ path ∷ [])

-- What ListDirectory calls it for, one entry after the other.
unfoldable pub list_entries :
    List (FileInfo × List ℕ) → List (List ℕ) × List (List ℕ) → List (List ℕ) × List (List ℕ)
unfolding callback
list_entries [] lists = lists
list_entries ((info, path) ∷ entries) lists = list_entries entries (callback info path lists)

module _ {ℓ} {S : Type ℓ} (hash_block : S → List ℕ → S) where
  unfoldable pub add_paths : HashTableFlags → HashState S → List (List ℕ) → HashState S
  unfolding hash_add_path hash_add_separator
  add_paths flags h [] = h
  add_paths flags h (p ∷ paths) =
      add_paths flags (hash_add_separator hash_block (hash_add_path hash_block flags h p)) paths

  -- CalculateGlobSignatureFor, with the entries that ListDirectory lists and qsort by strcmp.
  unfoldable pub calculate_glob_signature_for :
      S
      → (S → List ℕ)
      → HashTableFlags
      → (List (List ℕ) → List (List ℕ))
      → List (FileInfo × List ℕ)
      → Option (List ℕ)
  unfolding list_entries add_paths hash_init hash_finalize
  calculate_glob_signature_for initial finalize_impl flags qsort entries =
      let (dirs, files) = list_entries entries ([], []) in
      let h = add_paths flags (hash_init initial) (qsort dirs) in
      hash_finalize hash_block finalize_impl (add_paths flags h (qsort files))
