-- ===== src/HashTable/Lookup.antt =====
-- What the loop of a lookup finds, and that it ends at a free slot.
use tundra.Hashing.{fold_case}
use tundra.Prelude.Strings.{same_string_iff}
use tundra.Prelude.{
  ℕ, zero, suc, ◌<◌, true, ◌&&◌, ◌≡◌, ◌≢◌, ◌↔◌, refl, sym, ap, ◌∙◌, inl, inr, List, [], ◌∷◌, map,
  Option, none, some, ◌==◌, get_or, Bool-cases, arith,
}
use tundra.HashTable.{
  HashTableFlags, fast_compare_no_case, compare_fn, Slots, next_slot, lookup_loop,
}
use tundra.HashTable.Probe.{IsSize, next_slot_lt, distance, distance-next_slot, Run}

-- What a table looks at in a string.
abbrev pub key_of : HashTableFlags → List ℕ → List ℕ
key_of HashTableFlags.flag_case_sensitive s = s
key_of HashTableFlags.flag_case_insensitive s = map fold_case s

fast_compare_no_case_iff :
    (l r : List ℕ) → (fast_compare_no_case l r ≡ true) ↔ (map fold_case l ≡ map fold_case r)
unfolding fast_compare_no_case
fast_compare_no_case_iff [] [] = (λ _. refl, λ _. refl)
fast_compare_no_case_iff [] (c ∷ r) = ground arith
fast_compare_no_case_iff (c ∷ l) [] = ground arith
fast_compare_no_case_iff (c ∷ l) (d ∷ r) = ground (arith, fast_compare_no_case_iff l r)

pub compare_fn_iff :
    (flags : HashTableFlags) (l r : List ℕ)
    → (compare_fn flags l r ≡ true) ↔ (key_of flags l ≡ key_of flags r)
unfolding compare_fn
compare_fn_iff HashTableFlags.flag_case_sensitive l r = same_string_iff l r
compare_fn_iff HashTableFlags.flag_case_insensitive l r = fast_compare_no_case_iff l r

module _ {ℓ} {A : Type ℓ} (flags : HashTableFlags) (s : Slots A) (size : ℕ) where
  -- A slot that holds the key.
  pub record Matches (hash : ℕ) (string : List ℕ) (i : ℕ) : Type 0 where
    pub in_table : i < size
    pub same_hash : get_or s.hashes i 0 ≡ hash
    pub same_key : key_of flags (get_or s.strings i []) ≡ key_of flags string

  -- What a lookup makes of the slots.
  abbrev pub Answers : ℕ → List ℕ → ℕ → Option ℕ → Type 0
  Answers hash string a (some i) = Matches hash string i
  Answers hash string a none = (i : ℕ) → Run s.hashes size a i → Matches hash string i → ⊥

  stops_when_free : (a i : ℕ) → get_or s.hashes a 0 ≡ 0 → Run s.hashes size a i → i ≡ a
  stops_when_free a i free (Run.here b) = refl
  stops_when_free a i free (Run.there b c taken run) = absurd (taken free)

  goes_past :
      (hash : ℕ) (string : List ℕ) (a i : ℕ)
      → (Matches hash string a → ⊥)
      → ((j : ℕ) → Run s.hashes size (next_slot size a) j → Matches hash string j → ⊥)
      → Run s.hashes size a i
      → Matches hash string i
      → ⊥
  goes_past hash string a i differs behind (Run.here b) m = differs m
  goes_past hash string a i differs behind (Run.there b c taken run) m = behind i run m

  passes :
      (hash : ℕ) (string : List ℕ) (a : ℕ) (r : Option ℕ)
      → (Matches hash string a → ⊥)
      → Answers hash string (next_slot size a) r
      → Answers hash string a r
  passes hash string a none differs behind =
      λ i run m. goes_past hash string a i differs behind run m
  passes hash string a (some i) differs found = found

  -- The search ends where there is a free slot, and finds the key if it comes to it.
  pub lookup_loop-Answers :
      (v : IsSize size) (hash : ℕ) (string : List ℕ) (z : ℕ)
      → hash ≢ 0
      → z < size
      → get_or s.hashes z 0 ≡ 0
      → (fuel a : ℕ) → a < size
      → distance size a z < fuel
      → (r : Option ℕ) × (lookup_loop flags s size hash string fuel a ≡ some r)
        × Answers hash string a r
  unfolding lookup_loop
  lookup_loop-Answers v hash string z pos hz free zero a ha enough = absurd (omega arith)
  lookup_loop-Answers v hash string z pos hz free (suc fuel) a ha enough =
      let same = compare_fn_iff flags (get_or s.strings a []) string in
      elim (Bool-cases (get_or s.hashes a 0 == 0)) [
        | inl e ↦ (
          none,
          rw e refl,
          λ i run m. pos (
              sym m.same_hash
              ∙ ap (λ j. get_or s.hashes j 0) (stops_when_free a i (ground arith) run)
              ∙ ground arith),
        )
        | inr e ↦
            let taken : get_or s.hashes a 0 ≢ 0 = ground arith in
            let nearer =
              distance-next_slot v a z ha hz
                (λ h. taken (ap (λ i. get_or s.hashes i 0) h ∙ free)) in
            let (r, loop, answers) =
              lookup_loop-Answers v hash string z pos hz free fuel (next_slot size a)
                (next_slot_lt v a ha) (omega arith) in
            elim (Bool-cases
              (hash == get_or s.hashes a 0 && compare_fn flags (get_or s.strings a []) string)) [
                | inl m ↦ (
                  some a,
                  rw (e, m) refl,
                  record {
                    in_table = ha;
                    same_hash = ground arith;
                    same_key = ground (arith, same);
                  },
                )
                | inr m ↦ (
                  r,
                  rw (e, m) loop,
                  passes hash string a r (λ k. ground (arith, same, k.same_hash, k.same_key))
                      answers,
                )
              ]
      ]
