-- ===== src/ScanCache/Rehash.antt =====
-- The rehash of ScanCachePrepareInsert: each key has the record that it had.
use tundra.SortedArrays.{HashDigest}
use tundra.ScanCache.{
  Record, same_digest, chain_index, find_record, push_record, rehash_chain, rehash_chains,
}
use tundra.ScanCache.Chains.{
  same_digest_iff, Among, InChains, record_at, IsSize, IsChained, InChains-at, record_at-InChains,
  length-push_record, record_at-push_record, push_record-Among,
}
use tundra.Prelude.{
  ℕ, zero, suc, ◌<◌, ◌≡◌, ◌⊎◌, inl, inr, refl, sym, ap, subst, ◌∙◌, List, [], ◌∷◌, Option, none,
  some, if◌then◌else◌, length, get_or, replicate, length-replicate, Bool-cases, arith,
}

pub no_record_found : (key : HashDigest) → find_record key [] ≡ none
unfolding find_record
no_record_found key = refl

-- Whether one of the records that are moved has the key.
abbrev Moved : List Record → HashDigest → Option Record → Option Record → Type 0
Moved rs key before after =
    ((find_record key rs ≡ none) × (after ≡ before))
    ⊎ ((r : Record) × Among r rs × (r.key ≡ key) × (after ≡ some r))

abbrev AllMoved : List (List Record) → HashDigest → Option Record → Option Record → Type 0
AllMoved chains key before after =
    (((i : ℕ) → i < length chains → find_record key (get_or chains i []) ≡ none) × (after ≡ before))
    ⊎ ((r : Record) × InChains r chains × (r.key ≡ key) × (after ≡ some r))

module _ (size : ℕ) (p : IsSize size) where
  length-rehash_chain :
      (chain : List Record) (table : List (List Record))
      → length (rehash_chain size chain table) ≡ length table
  unfolding rehash_chain
  length-rehash_chain [] table = refl
  length-rehash_chain (r ∷ chain) table =
      length-rehash_chain chain (push_record size r table) ∙ length-push_record size p r table

  pub length-rehash_chains :
      (chains table : List (List Record)) → length (rehash_chains size chains table) ≡ length table
  unfolding rehash_chains
  length-rehash_chains [] table = refl
  length-rehash_chains (chain ∷ chains) table =
      length-rehash_chains chains (rehash_chain size chain table) ∙ length-rehash_chain chain table

  Moved-first :
      (r : Record) (chain : List Record) (key : HashDigest) (before next after : Option Record)
      → next ≡ (if same_digest key r.key then some r else before)
      → Moved chain key next after
      → Moved (r ∷ chain) key before after
  unfolding find_record
  Moved-first r chain key before next after e (inr (s, among, k, found)) =
      inr (s, inr among, k, found)
  Moved-first r chain key before next after e (inl (absent, same)) =
      elim (Bool-cases (same_digest key r.key)) [
        | inl m ↦ inr (r, inl refl, sym ((same_digest_iff key r.key).0 m), same ∙ e ∙ rw m refl)
        | inr m ↦ inl (rw m absent, same ∙ e ∙ rw m refl)
      ]

  rehash_chain-Moved :
      (chain : List Record) (table : List (List Record)) (key : HashDigest)
      → length table ≡ size
      → Moved chain key
          (record_at size table key)
          (record_at size (rehash_chain size chain table) key)
  unfolding rehash_chain
  rehash_chain-Moved [] table key len = inl (no_record_found key, refl)
  rehash_chain-Moved (r ∷ chain) table key len =
      let table' = push_record size r table in
      Moved-first r chain key (record_at size table key) (record_at size table' key)
        (record_at size (rehash_chain size chain table') key)
        (record_at-push_record size p r table key len)
        (rehash_chain-Moved chain table' key (length-push_record size p r table ∙ len))

  Moved-chain :
      (chain : List Record) (chains : List (List Record)) (key : HashDigest)
      (before next after : Option Record)
      → Moved chain key before next
      → AllMoved chains key next after
      → AllMoved (chain ∷ chains) key before after
  Moved-chain chain chains key before next after first (inr (s, inside, k, found)) =
      inr (s, inr inside, k, found)
  Moved-chain chain chains key before next after (inr (r, among, k, e)) (inl (absent, same)) =
      inr (r, inl among, k, same ∙ e)
  Moved-chain chain chains key before next after (inl (here, e)) (inl (absent, same)) =
      inl (none_of, same ∙ e)
    where
      none_of :
          (i : ℕ) → i < suc (length chains) → find_record key (get_or (chain ∷ chains) i []) ≡ none
      none_of zero lt = here
      none_of (suc i) lt = absent i (omega arith)

  rehash_chains-AllMoved :
      (chains table : List (List Record)) (key : HashDigest)
      → length table ≡ size
      → AllMoved chains key
          (record_at size table key)
          (record_at size (rehash_chains size chains table) key)
  unfolding rehash_chains
  rehash_chains-AllMoved [] table key len = inl (λ i lt. absurd (omega arith), refl)
  rehash_chains-AllMoved (chain ∷ chains) table key len =
      let table' = rehash_chain size chain table in
      Moved-chain chain chains key (record_at size table key) (record_at size table' key)
        (record_at size (rehash_chains size chains table') key)
        (rehash_chain-Moved chain table key len)
        (rehash_chains-AllMoved chains table' key (length-rehash_chain chain table ∙ len))

  -- Where the records of the new table come from.
  rehash_chain-Among :
      (chain : List Record) (table : List (List Record)) (s : Record) (i : ℕ)
      → length table ≡ size
      → Among s (get_or (rehash_chain size chain table) i [])
      → ((chain_index size s.key ≡ i) × Among s chain) ⊎ Among s (get_or table i [])
  unfolding rehash_chain
  rehash_chain-Among [] table s i len h = inr h
  rehash_chain-Among (r ∷ chain) table s i len h =
      let table' = push_record size r table in
      elim (rehash_chain-Among chain table' s i (length-push_record size p r table ∙ len) h) [
        | inl (e, among) ↦ inl (e, inr among)
        | inr h' ↦ elim (push_record-Among size p r s table i len h') [
          | inl (same, e) ↦ inl (ap (λ t. chain_index size t.key) same ∙ e, inl same)
          | inr old ↦ inr old
        ]
      ]

  rehash_chains-Among :
      (chains table : List (List Record)) (s : Record) (i : ℕ)
      → length table ≡ size
      → Among s (get_or (rehash_chains size chains table) i [])
      → ((chain_index size s.key ≡ i) × InChains s chains) ⊎ Among s (get_or table i [])
  unfolding rehash_chains
  rehash_chains-Among [] table s i len h = inr h
  rehash_chains-Among (chain ∷ chains) table s i len h =
      let table' = rehash_chain size chain table in
      elim (rehash_chains-Among chains table' s i (length-rehash_chain chain table ∙ len) h) [
        | inl (e, inside) ↦ inl (e, inr inside)
        | inr h' ↦ elim (rehash_chain-Among chain table s i len h') [
          | inl (e, among) ↦ inl (e, inl among)
          | inr old ↦ inr old
        ]
      ]

pub get_or-replicate : (n i : ℕ) → get_or (replicate {A = List Record} n []) i [] ≡ []
get_or-replicate zero i = refl
get_or-replicate (suc n) zero = refl
get_or-replicate (suc n) (suc i) = get_or-replicate n i

-- From a table whose chains are right, the rehash into one of another power of two of chains gives a
-- table whose chains are right, in which each key has the record that it had.
pub rehash_chains-record_at :
    (old_size size : ℕ) (table : List (List Record))
    → IsSize size
    → length table ≡ old_size
    → IsChained old_size table
    → let table' = rehash_chains size table (replicate size []) in
      IsChained size table'
      × ((key : HashDigest)
          → chain_index old_size key < old_size
          → record_at size table' key ≡ record_at old_size table key)
rehash_chains-record_at old_size size table p len v = (chained, kept)
  where
    empty : List (List Record)
    empty = replicate size []

    empty_length : length empty ≡ size
    empty_length = length-replicate size []

    nothing : (key : HashDigest) → record_at size empty key ≡ none
    nothing key =
        ap (find_record key) (get_or-replicate size (chain_index size key)) ∙ no_record_found key

    there : (r : Record) → InChains r table → record_at old_size table r.key ≡ some r
    there r h = record_at-InChains old_size table r len v h

    kept :
        (key : HashDigest)
        → chain_index old_size key < old_size
        → record_at size (rehash_chains size table empty) key ≡ record_at old_size table key
    kept key lt = elim (rehash_chains-AllMoved size p table empty key empty_length) [
      | inl (absent, same) ↦
          same ∙ nothing key ∙ sym (absent (chain_index old_size key) (omega (arith, len)))
      | inr (r, inside, k, found) ↦ found ∙ sym (there r inside) ∙ ap (record_at old_size table) k
    ]

    chained : IsChained size (rehash_chains size table empty)
    chained i s lt h = elim (rehash_chains-Among size p table empty s i empty_length h) [
      | inr old ↦ absurd (subst (Among s) (get_or-replicate size i) old)
      | inl (e, inside) ↦
          let (j, below, among) = InChains-at s table inside in
          let (index, found) = v j s (omega (arith, len)) among in
          let low : chain_index old_size s.key < old_size = omega (arith, index, below, len) in
          (
            e,
            ap (λ k. find_record s.key (get_or (rehash_chains size table empty) k [])) (sym e)
                ∙ kept s.key low
                ∙ there s inside,
          )
    ]
