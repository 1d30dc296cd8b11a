-- ===== src/Tests/OfTable.antt =====
-- A table of numbers, from its first insertion on, and keys with the same hash.
use tundra.HashTable.{
  HashTableFlags, HashTable, hash_table_init, compare_fn, hash_table_lookup, hash_table_insert,
  hash_table_walk, hash_set_lookup, hash_set_insert,
}
use tundra.HashTable.Contents.{IsTable, hash_table_init-IsTable}
use tundra.HashTable.Insertion.{hash_table_lookup-insert}
use tundra.StringHash.{djb2_hash, djb2_hash_no_case, djb2_hash_path}
use tundra.IncludeSet.{
  IncludeSet, include_set_add, Adds, include_set_add_lem, hash_table_init-IsIncludeSet,
}
use tundra.Prelude.{
  Bool, true, false, ℕ, true, ◌&&◌, ◌≡◌, ◌≢◌, ◌≤◌, refl, List, [], ◌∷◌, Option, none, some,
  if◌then◌else◌, ◌==◌, ◌>>=◌, arith,
}

abbrev a_text : List ℕ
a_text = b'a' ∷ []

abbrev upper_a_text : List ℕ
upper_a_text = b'A' ∷ []

abbrev b_text : List ℕ
b_text = b'b' ∷ []

abbrev no_case : HashTableFlags
no_case = HashTableFlags.flag_case_insensitive

abbrev cased : HashTableFlags
cased = HashTableFlags.flag_case_sensitive

abbrev empty : HashTable ℕ
empty = hash_table_init

abbrev two : Option (HashTable ℕ)
two = hash_table_insert 0 empty 5 a_text 7 >>= (λ t. hash_table_insert 0 t 5 b_text 8)

table_runs :
    ((two >>= (λ t. hash_table_lookup 0 cased t 5 b_text)) ≡ some (some 8))
    × ((two >>= (λ t. hash_table_lookup 0 cased t 5 upper_a_text)) ≡ some none)
    × ((two >>= (λ t. hash_table_lookup 0 no_case t 5 upper_a_text)) ≡ some (some 7))
    × ((two >>= hash_table_walk 0) ≡ some ((0, 5, a_text, 7) ∷ (1, 5, b_text, 8) ∷ []))
unfolding hash_table_insert hash_table_lookup hash_table_walk hash_table_init
table_runs = (refl, refl, refl, refl)

set_runs :
    (hash_set_insert hash_table_init 3 a_text >>= (λ t. hash_set_lookup cased t 3 a_text))
    ≡ some true
unfolding hash_set_insert hash_set_lookup hash_table_init
set_runs = refl

empty_lookup : hash_table_lookup 0 no_case empty 5 a_text ≡ some none
unfolding hash_table_lookup hash_table_init
empty_lookup = refl

empty_shift : empty.table_size_shift ≤ 29
unfolding hash_table_init
empty_shift = omega arith

abbrev five : ℕ
five = 5

five_pos : five ≢ 0
five_pos = omega arith

hash_table_lookup-insert_example :
    (t' : HashTable ℕ) × (hash_table_insert 0 empty 5 a_text 7 ≡ some t')
    × IsTable no_case 0 t'
    × ((h : ℕ) (str : List ℕ)
        → h ≢ 0
        → hash_table_lookup 0 no_case t' h str ≡ (
            if 5 == h && compare_fn no_case a_text str
            then some (some 7)
            else hash_table_lookup 0 no_case empty h str))
hash_table_lookup-insert_example =
    hash_table_lookup-insert no_case 0 empty 5 a_text 7 (hash_table_init-IsTable no_case 0)
      empty_shift five_pos empty_lookup

include_runs :
    ((include_set_add no_case hash_table_init a_text (djb2_hash_path no_case a_text)
        >>= (λ r. include_set_add no_case r.1 upper_a_text (djb2_hash_path no_case upper_a_text)))
      >>= (λ r. some r.0))
    ≡ some false
unfolding include_set_add djb2_hash_path hash_table_init
include_runs = refl

-- The hashes of `a` and `A`, and of no text.
hash_runs :
    (djb2_hash a_text ≡ 177670) × (djb2_hash_no_case upper_a_text ≡ 177670) × (djb2_hash [] ≡ 5381)
unfolding djb2_hash djb2_hash_no_case
hash_runs = (refl, refl, refl)

include_shift : (hash_table_init {A = Unit {0}}).table_size_shift ≤ 29
unfolding hash_table_init
include_shift = omega arith

include_set_add_lem_example :
    (result : Bool × IncludeSet) × (include_set_add no_case hash_table_init a_text
        (djb2_hash_path no_case a_text)
      ≡ some result)
    × Adds no_case hash_table_init a_text result
include_set_add_lem_example =
    include_set_add_lem no_case hash_table_init a_text (hash_table_init-IsIncludeSet no_case)
      include_shift
