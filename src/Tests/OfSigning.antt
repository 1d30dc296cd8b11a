-- ===== src/Tests/OfSigning.antt =====
-- A disk with one file in every place, empty caches, and a block function that adds up.
use mathlib.Core.List.{Pairwise, Perm, Pairwise-singleton, forall_mem-cons}
use mathlib.Core.List.Perm
use mathlib.Core.Option.{some-injective, some-ne-none}
use tundra.HashTable.{HashTableFlags, hash_table_init, hash_table_lookup}
use tundra.HashTable.Contents.{hash_table_init-IsTable}
use tundra.Hashing.{HashState, hash_init}
use tundra.StatCache.{FileInfo, no_info, is_clean, FileSystem, hash_table_init-Agrees}
use tundra.DigestCache.{
  DigestCache, no_record, digest_cache_init, digest_cache_set, digest_cache_get, digest_cache_open,
  FrozenDigestRecord, digest_cache_magic, digest_cache_destroy,
}
use tundra.DigestCache.Records.{IsCache, Sets, digest_cache_set-Sets}
use tundra.FileSign.{Disk, compute_file_signature, calculate_glob_signature_for}
use tundra.FileSign.Content.{IsTrue, signature, Signs, compute_file_signature-Signs}
use tundra.FileSign.Glob.{is_not_after, NotAfter, Sorts, calculate_glob_signature_for-perm}
use tundra.Prelude.{
  ℕ, ◌+◌, ◌≤◌, ◌≡◌, inl, inr, refl, sym, false, List, [], ◌∷◌, some, if◌then◌else◌, ◌>>=◌,
  Bool-cases, arith,
}

abbrev cased : HashTableFlags
cased = HashTableFlags.flag_case_sensitive

abbrev path_c : List ℕ
path_c = b'a' ∷ b'.' ∷ b'c' ∷ []

abbrev empty_cache : DigestCache
empty_cache = digest_cache_init 100

empty_cache-IsCache : IsCache cased empty_cache
unfolding digest_cache_init
empty_cache-IsCache = hash_table_init-IsTable cased no_record

empty_cache_shift : empty_cache.table.table_size_shift ≤ 29
unfolding digest_cache_init hash_table_init
empty_cache_shift = omega arith

digest_cache_set-Sets_example :
    (self' : DigestCache) × (digest_cache_set cased empty_cache path_c 5 20 (1 ∷ []) ≡ some self')
    × IsCache cased self'
    × Sets cased empty_cache self' path_c 5 20 (1 ∷ [])
digest_cache_set-Sets_example =
    digest_cache_set-Sets cased empty_cache path_c 5 20 (1 ∷ []) empty_cache-IsCache
      empty_cache_shift (omega arith)

-- A digest that is set, and got for its time stamp and for another.
digest_runs :
    (digest_cache_set cased empty_cache path_c 5 20 (1 ∷ [])
      >>= (λ c. digest_cache_get cased c path_c 5 20 >>= (λ r. some r.0)))
    ≡ some (some (1 ∷ []))
unfolding digest_cache_set digest_cache_get digest_cache_init
digest_runs = refl

abbrev old_record : FrozenDigestRecord
old_record = record {
  timestamp = 20;
  access_time = 5;
  filename_hash = 7;
  content_digest = 1 ∷ [];
  filename = path_c;
}

-- A record that was not used for a week is left out, another is taken.
open_runs :
    (digest_cache_open empty_cache
        (some (record {
          magic_number = digest_cache_magic;
          records = old_record ∷ record old_record { access_time = 900000; filename_hash = 8 } ∷ [];
        }))
        1000000
      >>= (λ c. some (c.table.record_count + (digest_cache_destroy c).table.record_count)))
    ≡ some 1
unfolding digest_cache_open digest_cache_init digest_cache_destroy
open_runs = refl

abbrev file_info : FileInfo
file_info = record { flags = 5; size = 10; timestamp = 20 }

abbrev disk : Disk
disk = record { get_file_info = λ path. file_info; read_file = λ path. some (1 ∷ 2 ∷ []) }

disk-FileSystem : FileSystem cased disk.get_file_info
unfolding is_clean
disk-FileSystem = record { same_file = λ a b e. refl; clean = λ path. refl }

abbrev add_block : ℕ → List ℕ → ℕ
add_block s [] = s
add_block s (b ∷ bytes) = add_block (s + b) bytes

abbrev digest : ℕ → List ℕ
digest s = s ∷ []

abbrev fresh : HashState ℕ
fresh = hash_init 0

empty_cache-IsTrue : IsTrue add_block 0 digest cased disk empty_cache
unfolding digest_cache_init hash_table_init hash_table_lookup
empty_cache-IsTrue str h d pos e = absurd (some-ne-none _ (sym (some-injective _ _ e)))

no_stats_shift : (hash_table_init {A = FileInfo}).table_size_shift ≤ 29
unfolding hash_table_init
no_stats_shift = omega arith

-- djb2_hash of ".c", and so the file is signed by its content.
compute_file_signature-Signs_example :
    Signs add_block 0 digest cased disk
      (signature add_block 0 digest cased disk fresh path_c (5861526 ∷ []))
      (compute_file_signature add_block 0 digest cased disk fresh hash_table_init empty_cache path_c
        9
        (5861526 ∷ []))
compute_file_signature-Signs_example =
    compute_file_signature-Signs add_block 0 digest cased disk fresh hash_table_init empty_cache
      path_c 9 (5861526 ∷ []) disk-FileSystem (λ a b e. refl)
      (hash_table_init-IsTable cased no_info) no_stats_shift
      (hash_table_init-Agrees cased disk.get_file_info) empty_cache-IsCache empty_cache_shift
      empty_cache-IsTrue (omega arith)

insert : List ℕ → List (List ℕ) → List (List ℕ)
insert p [] = p ∷ []
insert p (q ∷ l) = if is_not_after p q then p ∷ q ∷ l else q ∷ insert p l

abbrev insertion_sort : List (List ℕ) → List (List ℕ)
insertion_sort [] = []
insertion_sort (p ∷ l) = insert p (insertion_sort l)

NotAfter-trans : (a b c : List ℕ) → NotAfter a b → NotAfter b c → NotAfter a c
unfolding is_not_after
NotAfter-trans [] b c h k = refl
NotAfter-trans (x ∷ xs) [] c h k = ground arith
NotAfter-trans (x ∷ xs) (y ∷ ys) [] h k = ground arith
NotAfter-trans (x ∷ xs) (y ∷ ys) (z ∷ zs) h k = ground (arith, NotAfter-trans xs ys zs)

NotAfter-total : (a b : List ℕ) → is_not_after a b ≡ false → NotAfter b a
unfolding is_not_after
NotAfter-total [] b h = ground arith
NotAfter-total (x ∷ xs) [] h = refl
NotAfter-total (x ∷ xs) (y ∷ ys) h = ground (arith, NotAfter-total xs ys)

insert-perm : (p : List ℕ) (l : List (List ℕ)) → Perm (insert p l) (p ∷ l)
unfolding insert
insert-perm p [] = Perm.rfl
insert-perm p (q ∷ l) = elim (Bool-cases (is_not_after p q)) [
  | inl e ↦ rw e Perm.rfl
  | inr e ↦ rw e (Perm.trans (Perm.cons q (insert-perm p l)) (Perm.swap p q l))
]

NotAfter-prop : (a b : List ℕ) → IsProp (NotAfter a b)
NotAfter-prop a b = hlevel

insert-sorted :
    (p : List ℕ) (l : List (List ℕ)) → Pairwise NotAfter l → Pairwise NotAfter (insert p l)
unfolding insert
insert-sorted p [] s = Pairwise-singleton _ p
insert-sorted p (q ∷ l) (Pairwise.cons below s) = elim (Bool-cases (is_not_after p q)) [
  | inl e ↦ rw e (
      Pairwise.cons
        ((forall_mem-cons (NotAfter-prop p)).1 (e, λ x m. NotAfter-trans p q x e (below x m)))
        (Pairwise.cons below s))
  | inr e ↦ rw e (
      Pairwise.cons
        (λ x m.
          (forall_mem-cons (NotAfter-prop q)).1 (NotAfter-total p q e, below) x
            ((Perm.mem_iff (insert-perm p l)).0 m))
        (insert-sorted p l s))
]

sort-perm : (l : List (List ℕ)) → Perm (insertion_sort l) l
sort-perm [] = Perm.rfl
sort-perm (p ∷ l) = Perm.trans (insert-perm p (insertion_sort l)) (Perm.cons p (sort-perm l))

sort-sorted : (l : List (List ℕ)) → Pairwise NotAfter (insertion_sort l)
sort-sorted [] = Pairwise.nil
sort-sorted (p ∷ l) = insert-sorted p (insertion_sort l) (sort-sorted l)

insertion_sort-Sorts : Sorts insertion_sort
insertion_sort-Sorts = record { permutes = sort-perm; sorts = sort-sorted }

abbrev entry_a : FileInfo × List ℕ
entry_a = (file_info, b'a' ∷ [])

abbrev entry_b : FileInfo × List ℕ
entry_b = (record file_info { flags = 9 }, b'b' ∷ [])

calculate_glob_signature_for-perm_example :
    calculate_glob_signature_for add_block 0 digest cased insertion_sort (entry_a ∷ entry_b ∷ [])
    ≡ calculate_glob_signature_for add_block 0 digest cased insertion_sort (entry_b ∷ entry_a ∷ [])
calculate_glob_signature_for-perm_example =
    calculate_glob_signature_for-perm add_block 0 digest cased insertion_sort
      (entry_a ∷ entry_b ∷ []) (entry_b ∷ entry_a ∷ []) insertion_sort-Sorts
      (Perm.swap entry_b entry_a [])
