-- ===== src/ScanCache/Links.antt =====
-- The stores of an insertion: a record at the head of its chain, or in place of another.
use mathlib.Core.Option.{some-ne-none}
use tundra.SortedArrays.{HashDigest}
use tundra.ScanCache.{
  Record, same_digest, chain_index, find_record, push_record, store_in_chain, store_record,
}
use tundra.ScanCache.Chains.{
  same_digest_iff, same_digest_refl, Among, record_at, IsSize, IsChained, record_at-push_record,
  push_record-Among,
}
use tundra.Prelude.{
  ℕ, zero, suc, ◌≡◌, ◌⊎◌, inl, inr, refl, sym, ap, subst, ◌∙◌, Bool, true, false, List, [], ◌∷◌,
  Option, none, some, if◌then◌else◌, length, get_or, Bool-cases,
}

-- A record at the head of the chain of a key that has none.
pub push_record-IsChained :
    (size : ℕ) (p : IsSize size) (r : Record) (table : List (List Record))
    → length table ≡ size
    → IsChained size table
    → record_at size table r.key ≡ none
    → IsChained size (push_record size r table)
push_record-IsChained size p r table len v absent i s lt h =
    elim (push_record-Among size p r s table i len h) [
      | inl (same, e) ↦
          let k = ap (λ t. t.key) same in
          (
            ap (chain_index size) k ∙ e,
            ap (λ j. find_record s.key (get_or (push_record size r table) j []))
                  (sym (ap (chain_index size) k ∙ e))
                ∙ record_at-push_record size p r table s.key len
                ∙ ap (λ b. if b then some r else record_at size table s.key)
                    (ap (λ d. same_digest d r.key) k ∙ same_digest_refl r.key)
                ∙ ap some (sym same),
          )
      | inr old ↦
          let (index, found) = v i s lt old in
          let there : record_at size table s.key ≡ some s =
            ap (λ j. find_record s.key (get_or table j [])) index ∙ found in
          (
            index,
            ap (λ j. find_record s.key (get_or (push_record size r table) j [])) (sym index)
                ∙ record_at-push_record size p r table s.key len
                ∙ kept s there (Bool-cases (same_digest s.key r.key)),
          )
    ]
  where
    kept :
        (s : Record)
        → record_at size table s.key ≡ some s
        → (same_digest s.key r.key ≡ true) ⊎ (same_digest s.key r.key ≡ false)
        → (if same_digest s.key r.key then some r else record_at size table s.key) ≡ some s
    kept s there (inr m) = rw m there
    kept s there (inl m) =
        let k = (same_digest_iff s.key r.key).0 m in
        absurd (some-ne-none _ (sym there ∙ ap (record_at size table) k ∙ absent))

-- What a store makes of the record that is found.
abbrev pub replaced : Record → Option Record → Option Record
replaced r none = none
replaced r (some s) = some (if same_digest r.key s.key then r else s)

pub find_record-store_in_chain :
    (key : HashDigest) (r : Record) (chain : List Record)
    → find_record key (store_in_chain r chain) ≡ replaced r (find_record key chain)
unfolding find_record store_in_chain
find_record-store_in_chain key r [] = refl
find_record-store_in_chain key r (s ∷ chain) =
    let same = same_digest_iff r.key s.key in
    elim (Bool-cases (same_digest r.key s.key)) [
      | inl m ↦
          let k : r.key ≡ s.key = same.0 m in
          elim (Bool-cases (same_digest key s.key)) [
            | inl f ↦ rw (m, ap (same_digest key) k, f, m) refl
            | inr f ↦ rw (m, ap (same_digest key) k, f) (find_record-store_in_chain key r chain)
          ]
      | inr m ↦ elim (Bool-cases (same_digest key s.key)) [
        | inl f ↦ rw (m, f, m) refl
        | inr f ↦ rw (m, f) (find_record-store_in_chain key r chain)
      ]
    ]

store_in_chain-Among :
    (r s : Record) (chain : List Record)
    → Among s (store_in_chain r chain)
    → ((s ≡ r) × ((old : Record) × Among old chain × (old.key ≡ r.key)))
      ⊎ (Among s chain × (same_digest r.key s.key ≡ false))
unfolding store_in_chain
store_in_chain-Among r s [] h = absurd h
store_in_chain-Among r s (t ∷ chain) (inr h) = elim (store_in_chain-Among r s chain h) [
  | inl (e, (old, among, k)) ↦ inl (e, (old, inr among, k))
  | inr (among, k) ↦ inr (inr among, k)
]
store_in_chain-Among r s (t ∷ chain) (inl h) = elim (Bool-cases (same_digest r.key t.key)) [
  | inl m ↦ inl (
    h ∙ chosen_true (same_digest r.key t.key) r t m,
    (t, inl refl, sym ((same_digest_iff r.key t.key).0 m)),
  )
  | inr m ↦
      let e : s ≡ t = h ∙ chosen_false (same_digest r.key t.key) r t m in
      inr (inl e, ap (λ z. same_digest r.key z.key) e ∙ m)
]
  where
    chosen_true : (b : Bool) (x y : Record) → b ≡ true → (if b then x else y) ≡ x
    chosen_true b x y e = rw e refl

    chosen_false : (b : Bool) (x y : Record) → b ≡ false → (if b then x else y) ≡ y
    chosen_false b x y e = rw e refl

pub get_or-store_record :
    (r : Record) (table : List (List Record)) (i : ℕ)
    → get_or (store_record r table) i [] ≡ store_in_chain r (get_or table i [])
unfolding store_record store_in_chain
get_or-store_record r [] i = refl
get_or-store_record r (chain ∷ table) zero = refl
get_or-store_record r (chain ∷ table) (suc i) = get_or-store_record r table i

pub length-store_record :
    (r : Record) (table : List (List Record)) → length (store_record r table) ≡ length table
unfolding store_record
length-store_record r [] = refl
length-store_record r (chain ∷ table) = ap suc (length-store_record r table)

pub store_record-IsChained :
    (size : ℕ) (r : Record) (table : List (List Record))
    → IsChained size table
    → IsChained size (store_record r table)
store_record-IsChained size r table v i s lt h =
    let chain = get_or table i [] in
    let found_in : (k : HashDigest) (o : Option Record)
        → find_record k chain ≡ o
        → find_record k (get_or (store_record r table) i []) ≡ replaced r o =
      λ k o e.
        ap (find_record k) (get_or-store_record r table i)
        ∙ find_record-store_in_chain k r chain
        ∙ ap (replaced r) e in
    elim (store_in_chain-Among r s chain (subst (Among s) (get_or-store_record r table i) h)) [
      | inl (e, (old, among, k)) ↦
          let (index, found) = v i old lt among in
          let ks : s.key ≡ old.key = ap (λ t. t.key) e ∙ sym k in
          let m : same_digest r.key old.key ≡ true = (same_digest_iff r.key old.key).1 (sym k) in
          (
            ap (chain_index size) ks ∙ index,
            found_in s.key (some old) (ap (λ z. find_record z chain) ks ∙ found)
                ∙ rw m (ap some (sym e)),
          )
      | inr (among, m) ↦
          let (index, found) = v i s lt among in (index, found_in s.key (some s) found ∙ rw m refl)
    ]
