-- ===== src/FileSign/Glob.antt =====
-- The signature of a directory does not depend on the order in which its entries are listed.
use mathlib.Core.List.{Pairwise, Perm, mem-cons_self, forall_mem-cons, filter_map}
use mathlib.Core.Option.{Option-elim}
use mathlib.Core.List.Pairwise
use mathlib.Core.List.Perm
use tundra.Hashing.{hash_init, hash_finalize}
use tundra.HashTable.{HashTableFlags}
use tundra.StatCache.{FileInfo}
use tundra.FileSign.{is_directory, callback, list_entries, add_paths, calculate_glob_signature_for}
use tundra.Prelude.{
  ℕ, ◌&&◌, ◌||◌, ltb, ◌==◌, subst, ◌≡◌, refl, sym, ap, ap₂, ◌∙◌, Bool, true, false, List, [], ◌∷◌,
  ◌++◌, Option, none, some, if◌then◌else◌, Bool-cases, inl, inr, append-nil, append_assoc, arith,
}

-- `strcmp(a, b) <= 0`
unfoldable pub is_not_after : List ℕ → List ℕ → Bool
is_not_after [] ys = true
is_not_after (x ∷ xs) [] = false
is_not_after (x ∷ xs) (y ∷ ys) = ltb x y || (x == y && is_not_after xs ys)

abbrev pub NotAfter : List ℕ → List ℕ → Type 0
NotAfter a b = is_not_after a b ≡ true

-- What qsort documents: the same elements, and none before one that is below it.
pub record Sorts (qsort : List (List ℕ) → List (List ℕ)) : Type 0 where
  pub permutes : (l : List (List ℕ)) → Perm (qsort l) l
  pub sorts : (l : List (List ℕ)) → Pairwise NotAfter (qsort l)

NotAfter-refl : (a : List ℕ) → NotAfter a a
unfolding is_not_after
NotAfter-refl [] = refl
NotAfter-refl (x ∷ xs) = ground (arith, NotAfter-refl xs)

NotAfter-antisymm : (a b : List ℕ) → NotAfter a b → NotAfter b a → a ≡ b
unfolding is_not_after
NotAfter-antisymm [] [] h k = refl
NotAfter-antisymm [] (y ∷ ys) h k = ground arith
NotAfter-antisymm (x ∷ xs) [] h k = ground arith
NotAfter-antisymm (x ∷ xs) (y ∷ ys) h k = ground (arith, NotAfter-antisymm xs ys)

NotAfter-prop : (a b : List ℕ) → IsProp (NotAfter a b)
NotAfter-prop a b = hlevel

-- The first element of a sorted list is not after any element of a permutation of it.
first-NotAfter :
    {a b : List ℕ} {l r : List (List ℕ)}
    → Pairwise NotAfter (a ∷ l)
    → Perm (b ∷ r) (a ∷ l)
    → NotAfter a b
first-NotAfter {a} {b} {l} (Pairwise.cons below _) p =
    (forall_mem-cons (NotAfter-prop a)).1 (NotAfter-refl a, below) b
      ((Perm.mem_iff p).0 mem-cons_self)

sorted-eq : (l r : List (List ℕ)) → Pairwise NotAfter l → Pairwise NotAfter r → Perm l r → l ≡ r
sorted-eq [] r sl sr p = Perm.nil-eq p
sorted-eq (a ∷ l) [] sl sr p = Perm.eq-nil p
sorted-eq (a ∷ l) (b ∷ r) sl sr p =
    let same : a ≡ b =
      NotAfter-antisymm a b (first-NotAfter sl (Perm.symm p)) (first-NotAfter sr p) in
    let p' : Perm (a ∷ l) (a ∷ r) = subst (λ c. Perm (a ∷ l) (c ∷ r)) (sym same) p in
    ap₂ ◌∷◌ same (sorted-eq l r (Pairwise.of_cons sl) (Pairwise.of_cons sr) (Perm.cons_inv p'))

abbrev dir_of : FileInfo × List ℕ → Option (List ℕ)
dir_of (info, path) = if is_directory info then some path else none

abbrev file_of : FileInfo × List ℕ → Option (List ℕ)
file_of (info, path) = if is_directory info then none else some path

list_entries-filter_map :
    (entries : List (FileInfo × List ℕ)) (dirs files : List (List ℕ))
    → list_entries entries (dirs, files)
      ≡ (dirs ++ filter_map dir_of entries, files ++ filter_map file_of entries)
unfolding list_entries callback filter_map Option-elim
list_entries-filter_map [] dirs files =
    ap₂ (λ d f. (d, f)) (sym (append-nil dirs)) (sym (append-nil files))
list_entries-filter_map ((info, path) ∷ entries) dirs files =
    elim (Bool-cases (is_directory info)) [
      | inl e ↦ rw e (
          list_entries-filter_map entries (dirs ++ path ∷ []) files
          ∙ ap (λ d. (d, files ++ filter_map file_of entries))
              (append_assoc dirs (path ∷ []) (filter_map dir_of entries)))
      | inr e ↦ rw e (
          list_entries-filter_map entries dirs (files ++ path ∷ [])
          ∙ ap (λ f. (dirs ++ filter_map dir_of entries, f))
              (append_assoc files (path ∷ []) (filter_map file_of entries)))
    ]

qsort-perm :
    (qsort : List (List ℕ) → List (List ℕ))
    → Sorts qsort
    → (l r : List (List ℕ)) → Perm l r
    → qsort l ≡ qsort r
qsort-perm qsort v l r p =
    sorted-eq (qsort l) (qsort r) (v.sorts l) (v.sorts r)
      (Perm.trans (v.permutes l) (Perm.trans p (Perm.symm (v.permutes r))))

-- Where qsort sorts as it documents, a directory whose entries are listed in another order has the
-- same signature.
pub calculate_glob_signature_for-perm {ℓ} :
    {S : Type ℓ} (hash_block : S → List ℕ → S) (initial : S) (finalize_impl : S → List ℕ)
    (flags : HashTableFlags) (qsort : List (List ℕ) → List (List ℕ))
    (entries entries' : List (FileInfo × List ℕ))
    → Sorts qsort
    → Perm entries entries'
    → calculate_glob_signature_for hash_block initial finalize_impl flags qsort entries
      ≡ calculate_glob_signature_for hash_block initial finalize_impl flags qsort entries'
unfolding calculate_glob_signature_for
calculate_glob_signature_for-perm hash_block initial finalize_impl flags qsort entries entries' v
      p =
    let dirs =
      qsort-perm qsort v (filter_map dir_of entries) (filter_map dir_of entries')
        (Perm.filter_map dir_of p) in
    let files =
      qsort-perm qsort v (filter_map file_of entries) (filter_map file_of entries')
        (Perm.filter_map file_of p) in
    rw (list_entries-filter_map entries [] [], list_entries-filter_map entries' [] [])
      (ap₂
        (λ d f.
          hash_finalize hash_block finalize_impl
            (add_paths hash_block flags (add_paths hash_block flags (hash_init initial) d) f))
        dirs files)
