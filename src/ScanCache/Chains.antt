-- ===== src/ScanCache/Chains.antt =====
-- What a chain and a table of chains hold.
use Prim.Native.Nat.{bit_and}
use native.Mathlib.Nat.{mod-lt}
use mathlib.Core.Option.{some-injective, some-ne-none}
use tundra.Prelude.Bits.{bit_and_mask, pow2_pos}
use tundra.SortedArrays.{HashDigest, compare_hash_digests}
use tundra.ScanCache.{Record, same_digest, chain_index, find_record, push_record}
use tundra.Words.{load_big_endian32}
use tundra.Prelude.{
  ℕ, suc, ◌-◌, ◌^◌, ◌<◌, ◌≡◌, ◌↔◌, ◌⊎◌, inl, inr, refl, sym, ap, subst, ◌∙◌, true, false, List, [],
  ◌∷◌, Option, some, if◌then◌else◌, length, get_or, set, length-set, get_or-set_self, get_or-set_ne,
  Bool-cases, ℕ_discrete, arith,
}

pub same_digest_iff : (l r : HashDigest) → (same_digest l r ≡ true) ↔ (l ≡ r)
unfolding same_digest compare_hash_digests
same_digest_iff l r = (λ e. ground arith, λ e. ground arith)

pub same_digest_refl : (k : HashDigest) → same_digest k k ≡ true
same_digest_refl k = (same_digest_iff k k).1 refl

-- The record stands in the chain, or in one of the chains.
abbrev pub Among : Record → List Record → Type 0
Among r [] = ⊥
Among r (s ∷ chain) = (r ≡ s) ⊎ Among r chain

abbrev pub InChains : Record → List (List Record) → Type 0
InChains r [] = ⊥
InChains r (chain ∷ chains) = Among r chain ⊎ InChains r chains

-- The record that a table has for a key.
abbrev pub record_at : ℕ → List (List Record) → HashDigest → Option Record
record_at size table key = find_record key (get_or table (chain_index size key) [])

pub record IsSize (size : ℕ) : Type 0 where
  pub shift : ℕ
  pub is_power : size ≡ 2 ^ shift

pub chain_index_lt : {size : ℕ} → IsSize size → (key : HashDigest) → chain_index size key < size
unfolding chain_index
chain_index_lt {size} p key =
    let word = load_big_endian32 key.c in
    let masked = bit_and_mask p.shift word in
    let pow = pow2_pos p.shift in
    let low = mod-lt word pow in
    subst (λ n. bit_and word (n - 1) < n) (sym p.is_power) (omega (arith, masked, low))

-- Each record stands in its chain, and is the one that is found there for its key.
abbrev pub IsChained : ℕ → List (List Record) → Type 0
IsChained size table =
    (i : ℕ) (r : Record)
    → i < size
    → Among r (get_or table i [])
    → (chain_index size r.key ≡ i) × (find_record r.key (get_or table i []) ≡ some r)

pub find_record-Among :
    (key : HashDigest) (chain : List Record) (r : Record)
    → find_record key chain ≡ some r
    → Among r chain × (r.key ≡ key)
unfolding find_record
find_record-Among key [] r = λ e. absurd (some-ne-none _ (sym e))
find_record-Among key (s ∷ chain) r = elim (Bool-cases (same_digest key s.key)) [
  | inl m ↦ rw m (λ e.
      let same : s ≡ r = some-injective _ _ e in
      (inl (sym same), sym (ap (λ t. t.key) same) ∙ sym ((same_digest_iff key s.key).0 m)))
  | inr m ↦ rw m (λ e. let (among, k) = find_record-Among key chain r e in (inr among, k))
]

pub InChains-at :
    (r : Record) (chains : List (List Record))
    → InChains r chains
    → (i : ℕ) × (i < length chains) × Among r (get_or chains i [])
InChains-at r [] h = absurd h
InChains-at r (chain ∷ chains) (inl h) = (0, omega arith, h)
InChains-at r (chain ∷ chains) (inr h) =
    let (i, lt, among) = InChains-at r chains h in (suc i, omega arith, among)

-- A record that stands in a table of chains is the one for its key.
pub record_at-InChains :
    (size : ℕ) (table : List (List Record)) (r : Record)
    → length table ≡ size
    → IsChained size table
    → InChains r table
    → record_at size table r.key ≡ some r
record_at-InChains size table r len v h =
    let (i, lt, among) = InChains-at r table h in
    let (index, found) = v i r (omega (arith, len)) among in
    ap (λ k. find_record r.key (get_or table k [])) index ∙ found

module _ (size : ℕ) (p : IsSize size) where
  pub length-push_record :
      (r : Record) (table : List (List Record)) → length (push_record size r table) ≡ length table
  unfolding push_record
  length-push_record r table = length-set table (chain_index size r.key) _

  pub record_at-push_record :
      (r : Record) (table : List (List Record)) (key : HashDigest)
      → length table ≡ size
      → record_at size (push_record size r table) key
        ≡ (if same_digest key r.key then some r else record_at size table key)
  unfolding push_record find_record
  record_at-push_record r table key len =
      let i = chain_index size r.key in
      let chain : List Record = r ∷ get_or table i [] in
      let lt = chain_index_lt p r.key in
      elim (ℕ_discrete i (chain_index size key)) [
        | yes e ↦
            ap (λ k. find_record key (get_or (set table i chain) k [])) (sym e)
            ∙ ap (find_record key) (get_or-set_self table i chain [] (omega (arith, len)))
            ∙ ap
                (λ k. if same_digest key r.key then some r else find_record key (get_or table k []))
                e
        | no ne ↦
            let other : same_digest key r.key ≡ false =
              differs key r.key (λ z. ne (ap (chain_index size) (sym z))) in
            ap (find_record key) (get_or-set_ne table chain [] ne) ∙ rw other refl
      ]
    where
      differs : (k l : HashDigest) → (k ≡ l → ⊥) → same_digest k l ≡ false
      differs k l ne = elim (Bool-cases (same_digest k l)) [
        | inl e ↦ absurd (ne ((same_digest_iff k l).0 e))
        | inr e ↦ e
      ]

  -- Where the records of a chain with one more at its head come from.
  pub push_record-Among :
      (r s : Record) (table : List (List Record)) (i : ℕ)
      → length table ≡ size
      → Among s (get_or (push_record size r table) i [])
      → ((s ≡ r) × (chain_index size r.key ≡ i)) ⊎ Among s (get_or table i [])
  unfolding push_record
  push_record-Among r s table i len =
      let j = chain_index size r.key in
      let chain : List Record = r ∷ get_or table j [] in
      let lt = chain_index_lt p r.key in
      elim (ℕ_discrete j i) [
        | yes e ↦ λ h.
            let h' : Among s chain =
              subst (Among s) (get_or-set_self table j chain [] (omega (arith, len)))
                (subst (λ k. Among s (get_or (set table j chain) k [])) (sym e) h) in
            elim h' [
              | inl same ↦ inl (same, e)
              | inr old ↦ inr (subst (λ k. Among s (get_or table k [])) e old)
            ]
        | no ne ↦ λ h. inr (subst (Among s) (get_or-set_ne table chain [] ne) h)
      ]
