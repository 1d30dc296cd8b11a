-- ===== src/FileSign/Content.antt =====
-- The signature of a file does not depend on the caches, as long as they are true to the disk.
use mathlib.Core.Option.{some-injective, some-ne-none}
use tundra.Hashing.{HashState, hash_init, hash_update, hash_add_integer, hash_finalize}
use tundra.Hashing.Update.{hash_update-IsHashState, hash_finalize-some}
use tundra.FileSign.Reading.{hash_file-update}
use tundra.HashTable.{HashTableFlags, compare_fn}
use tundra.HashTable.Lookup.{key_of, compare_fn_iff}
use tundra.HashTable.Contents.{IsTable}
use tundra.StatCache.{StatCache, no_info, Agrees, FileSystem, stat_cache_stat-Agrees}
use tundra.DigestCache.{DigestCache}
use tundra.DigestCache.Records.{answer, IsCache, Sets, digest_cache_set-Sets, digest_cache_get-Gets}
use tundra.FileSign.{
  Disk, exists, missing_text, all_ones, by_content, hash_add_string, hash_file, sign_content,
  sign_digest, sign_sha1, compute_file_signature_sha1, compute_file_signature_timestamp,
  compute_file_signature,
}
use tundra.Prelude.{
  ℕ, ◌+◌, ◌≤◌, ◌≡◌, ◌≢◌, refl, sym, ap, ◌∙◌, Bool, true, false, ◌&&◌, List, Option, none, some,
  if◌then◌else◌, ◌==◌, length, Bool-cases, inl, inr, arith,
}

module _ {ℓ} {S : Type ℓ} (hash_block : S → List ℕ → S) where
  module _ (initial : S) (finalize_impl : S → List ℕ) (flags : HashTableFlags) (disk : Disk) where
    -- The digest of a content: one update, finalized.
    abbrev pub digest_of : List ℕ → Option (List ℕ)
    digest_of content =
        hash_finalize hash_block finalize_impl (hash_update hash_block (hash_init initial) content)

    -- Each digest that the cache answers for a file's present time stamp is that of its content.
    abbrev pub IsTrue : DigestCache → Type 0
    IsTrue digests =
        (str : List ℕ) (h : ℕ) (digest : List ℕ)
        → h ≢ 0
        → answer flags digests str h (disk.get_file_info str).timestamp ≡ some (some digest)
        → (content : List ℕ) × (disk.read_file str ≡ some content)
          × (digest_of content ≡ some digest)

    -- Paths that the tables take for the same are the same file.
    abbrev pub SameContent : Type 0
    SameContent =
        (a b : List ℕ) → key_of flags a ≡ key_of flags b → disk.read_file a ≡ disk.read_file b

    abbrev with_digest : HashState S → Option (List ℕ) → HashState S
    with_digest state none = state
    with_digest state (some digest) = hash_update hash_block state digest

    -- The signature of a file, without any cache.
    abbrev pub content_signature : HashState S → Option (List ℕ) → HashState S
    content_signature state none = hash_add_string hash_block state missing_text
    content_signature state (some content) = with_digest state (digest_of content)

    abbrev pub signature : HashState S → List ℕ → List ℕ → HashState S
    signature state filename sha_extension_hashes =
        let info = disk.get_file_info filename in
        if by_content filename sha_extension_hashes
        then (if exists info
            then content_signature state (disk.read_file filename)
            else hash_add_integer hash_block state all_ones)
        else hash_add_integer hash_block state (if exists info then info.timestamp else all_ones)

    -- What a call leaves: the signature, and caches that are true to the disk.
    abbrev pub Signs : HashState S → Option (HashState S × StatCache × DigestCache) → Type ℓ
    Signs expected r =
        (stats : StatCache) × (digests : DigestCache) × (r ≡ some (expected, stats, digests))
        × IsTable flags no_info stats
        × Agrees flags disk.get_file_info stats
        × IsCache flags digests
        × IsTrue digests

    set-IsTrue :
        (digests digests' : DigestCache) (filename : List ℕ) (fn_hash : ℕ) (content digest : List ℕ)
        → SameContent
        → disk.read_file filename ≡ some content
        → digest_of content ≡ some digest
        → Sets flags digests digests' filename fn_hash
            (disk.get_file_info filename).timestamp
            digest
        → IsTrue digests
        → IsTrue digests'
    set-IsTrue digests digests' filename fn_hash content digest same read e sets true_now str h d
          pos =
        elim (Bool-cases (fn_hash == h && compare_fn flags filename str)) [
          | inl m ↦
              rw (sets str h (disk.get_file_info str).timestamp pos, m)
                (λ found.
                  let keys = compare_fn_iff flags filename str in
                  let ek : key_of flags filename ≡ key_of flags str = ground (arith, m, keys) in
                  (
                    content,
                    sym (same filename str ek) ∙ read,
                    e
                        ∙ chosen
                            ((disk.get_file_info filename).timestamp
                              == (disk.get_file_info str).timestamp)
                            d (some-injective _ _ found),
                  ))
          | inr m ↦
              rw (sets str h (disk.get_file_info str).timestamp pos, m)
                (λ found. true_now str h d pos found)
        ]
      where
        chosen :
            (b : Bool) (d : List ℕ)
            → (if b then some digest else none) ≡ some d
            → some digest ≡ some d
        chosen true d found = found
        chosen false d found = absurd (some-ne-none _ (sym found))

    digest-some : (content : List ℕ) → (d : List ℕ) × (digest_of content ≡ some d)
    unfolding hash_init
    digest-some content = (
      _,
      hash_finalize-some hash_block finalize_impl
          (hash_update hash_block (hash_init initial) content)
          (hash_update-IsHashState hash_block (hash_init initial) content (omega arith)).0,
    )

    file-digest :
        (content digest : List ℕ)
        → digest_of content ≡ some digest
        → hash_finalize hash_block finalize_impl
            (hash_file hash_block (length content + 1) (hash_init initial) content)
          ≡ some digest
    unfolding hash_init
    file-digest content digest e =
        ap (hash_finalize hash_block finalize_impl) (
          hash_file-update hash_block (length content + 1) (hash_init initial) content (omega arith)
            (omega arith) (omega arith))
        ∙ e

    sign_content-Signs :
        (state : HashState S) (stats : StatCache) (digests : DigestCache) (filename : List ℕ)
        (fn_hash : ℕ) (r : Option (List ℕ))
        → SameContent
        → IsTable flags no_info stats
        → Agrees flags disk.get_file_info stats
        → IsCache flags digests
        → digests.table.table_size_shift ≤ 29
        → IsTrue digests
        → fn_hash ≢ 0
        → disk.read_file filename ≡ r
        → Signs (content_signature state r) (
            sign_content hash_block initial finalize_impl flags disk state stats digests filename
              fn_hash
              (disk.get_file_info filename).timestamp
              r)
    unfolding sign_content
    sign_content-Signs state stats digests filename fn_hash none same vs agrees vd small true_now
          pos read =
        (stats, digests, refl, vs, agrees, vd, true_now)
    sign_content-Signs state stats digests filename fn_hash (some content) same vs agrees vd small
          true_now pos read =
        let (digest, e) = digest-some content in
        let (digests', set, vd', sets) =
          digest_cache_set-Sets flags digests filename fn_hash
            (disk.get_file_info filename).timestamp digest vd small pos in
        (
          stats,
          digests',
          rw (file-digest content digest e, set)
              (ap (λ d. some (with_digest state d, stats, digests')) (sym e)),
          vs,
          agrees,
          vd',
          set-IsTrue digests digests' filename fn_hash content digest same read e sets true_now,
        )

    sign_digest-Signs :
        (state : HashState S) (stats : StatCache) (digests : DigestCache) (filename : List ℕ)
        (fn_hash : ℕ) (got : Option (List ℕ))
        → SameContent
        → IsTable flags no_info stats
        → Agrees flags disk.get_file_info stats
        → IsCache flags digests
        → digests.table.table_size_shift ≤ 29
        → IsTrue digests
        → fn_hash ≢ 0
        → answer flags digests filename fn_hash (disk.get_file_info filename).timestamp ≡ some got
        → Signs (content_signature state (disk.read_file filename)) (
            sign_digest hash_block initial finalize_impl flags disk state stats digests filename
              fn_hash
              (disk.get_file_info filename).timestamp
              got)
    unfolding sign_digest
    sign_digest-Signs state stats digests filename fn_hash none same vs agrees vd small true_now pos
          got =
        sign_content-Signs state stats digests filename fn_hash (disk.read_file filename) same vs
          agrees vd small true_now pos refl
    sign_digest-Signs state stats digests filename fn_hash (some digest) same vs agrees vd small
          true_now pos got =
        let (content, read, e) = true_now filename fn_hash digest pos got in
        (
          stats,
          digests,
          rw read (ap (λ d. some (with_digest state d, stats, digests)) (sym e)),
          vs,
          agrees,
          vd,
          true_now,
        )

    sha1-Signs :
        (state : HashState S) (stats : StatCache) (digests : DigestCache) (filename : List ℕ)
        (fn_hash : ℕ)
        → SameContent
        → IsTable flags no_info stats
        → Agrees flags disk.get_file_info stats
        → IsCache flags digests
        → digests.table.table_size_shift ≤ 29
        → IsTrue digests
        → fn_hash ≢ 0
        → Signs
            (if exists (disk.get_file_info filename)
              then content_signature state (disk.read_file filename)
              else hash_add_integer hash_block state all_ones)
            (sign_sha1 hash_block initial finalize_impl flags disk state digests filename fn_hash
              (disk.get_file_info filename)
              stats)
    unfolding sign_sha1
    sha1-Signs state stats digests filename fn_hash same vs agrees vd small true_now pos =
        let info = disk.get_file_info filename in
        let (got, digests', e, (answers, vd', size, kept)) =
          digest_cache_get-Gets flags digests filename fn_hash info.timestamp vd pos in
        elim (Bool-cases (exists info)) [
          | inl there ↦
              rw (there, e)
                (sign_digest-Signs state stats digests' filename fn_hash got same vs agrees vd'
                  (omega (arith, size))
                  (λ str h d hpos found.
                    true_now str h d hpos
                      (sym (kept str h (disk.get_file_info str).timestamp hpos) ∙ found))
                  pos (kept filename fn_hash info.timestamp pos ∙ answers))
          | inr gone ↦ rw gone (stats, digests, refl, vs, agrees, vd, true_now)
        ]

    -- Where paths that the tables take for the same are the same file, with one content, and the
    -- system marks nothing dirty, and both caches have at most 2^29 slots and are true to the disk (no
    -- record dirty or other than the system says, and each digest for a file's present time stamp that
    -- of its content), a file with a hash that is not zero is signed as it is without any cache, by its
    -- content or its time stamp as its extension demands, and both caches are true to the disk after it.
    pub compute_file_signature-Signs :
        (state : HashState S) (stats : StatCache) (digests : DigestCache) (filename : List ℕ)
        (fn_hash : ℕ) (sha_extension_hashes : List ℕ)
        → FileSystem flags disk.get_file_info
        → SameContent
        → IsTable flags no_info stats
        → stats.table_size_shift ≤ 29
        → Agrees flags disk.get_file_info stats
        → IsCache flags digests
        → digests.table.table_size_shift ≤ 29
        → IsTrue digests
        → fn_hash ≢ 0
        → Signs (signature state filename sha_extension_hashes) (
            compute_file_signature hash_block initial finalize_impl flags disk state stats digests
              filename fn_hash sha_extension_hashes)
    unfolding compute_file_signature compute_file_signature_sha1 compute_file_signature_timestamp
    compute_file_signature-Signs state stats digests filename fn_hash exts fs same vs smalls agrees
          vd smalld true_now pos =
        let (stats', e, vs', agrees') =
          stat_cache_stat-Agrees flags disk.get_file_info stats filename fn_hash fs vs smalls pos
            agrees in
        elim (Bool-cases (by_content filename exts)) [
          | inl sha ↦
              rw (sha, e)
                (sha1-Signs state stats' digests filename fn_hash same vs' agrees' vd smalld
                  true_now pos)
          | inr stamp ↦ rw (stamp, e) (stats', digests, refl, vs', agrees', vd, true_now)
        ]
