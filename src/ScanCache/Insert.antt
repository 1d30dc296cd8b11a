-- ===== src/ScanCache/Insert.antt =====
-- An insertion into the scan cache: the key has the new record, or the one that it had if its time
-- stamp is the same, and the other keys have what they had.
use mathlib.Core.Option.{some-ne-none}
use tundra.SortedArrays.{HashDigest}
use tundra.HashTable.{HashTableFlags}
use tundra.ScanCache.{
  Record, ScanCache, same_digest, chain_index, find_record, lookup_dynamic, hash_files, put_record,
  insert_found, scan_cache_insert,
}
use tundra.ScanCache.Chains.{
  same_digest_iff, record_at, find_record-Among, length-push_record, record_at-push_record,
}
use tundra.ScanCache.Room.{
  IsFull, IsScanCache, IsLight, IsFull-IsSize, lookup-record_at, IsFull-pos, prepare_insert-Grown,
}
use tundra.ScanCache.Links.{
  push_record-IsChained, replaced, find_record-store_in_chain, get_or-store_record,
  length-store_record, store_record-IsChained,
}
use tundra.Prelude.{
  ℕ, ◌+◌, ◌^◌, ◌≤◌, ◌<◌, ◌≡◌, ◌⊎◌, inl, inr, refl, sym, ap, ◌∙◌, true, false, List, [], Option,
  none, some, if◌then◌else◌, ◌==◌, get_or, Bool-cases, Option-cases, arith,
}

module _ (flags : HashTableFlags) (key : HashDigest) (timestamp : ℕ) (files : List (List ℕ)) where
  abbrev new_record : Record
  new_record = record { key = key; file_timestamp = timestamp; includes = hash_files flags files }

  -- The record that a key has after an insertion: the one that it had, if its time stamp is the same.
  abbrev pub record_after : Option Record → Record
  record_after none = new_record
  record_after (some old) = if old.file_timestamp == timestamp then old else new_record

  abbrev pub Inserts : ScanCache → ScanCache → Type 0
  Inserts self self' =
      ((k : HashDigest)
        → lookup_dynamic self' k ≡ (
            if same_digest key k
            then some (record_after (lookup_dynamic self key))
            else lookup_dynamic self k))
      × (self'.frozen_data ≡ self.frozen_data)
      × (IsLight self
          → self.record_count < 2 ^ 24
          → IsLight self' × (self'.record_count ≤ self.record_count + 1))

  same_digest_sym : (k l : HashDigest) → same_digest k l ≡ same_digest l k
  same_digest_sym k l = elim (Bool-cases (same_digest k l)) [
    | inl e ↦ e ∙ sym ((same_digest_iff l k).1 (sym ((same_digest_iff k l).0 e)))
    | inr e ↦ elim (Bool-cases (same_digest l k)) [
      | inl f ↦
          absurd (ground (arith, e, (same_digest_iff k l).1 (sym ((same_digest_iff l k).0 f))))
      | inr f ↦ e ∙ sym f
    ]
  ]

  push_fresh :
      (self : ScanCache) (v : IsFull self)
      → lookup_dynamic self key ≡ none
      → IsFull (put_record true new_record self)
        × ((k : HashDigest)
            → lookup_dynamic (put_record true new_record self) k
              ≡ (if same_digest key k then some new_record else lookup_dynamic self k))
  unfolding put_record
  push_fresh self v absent =
      let size = self.table_size in
      let pos = IsFull-pos v in
      let gone = sym (lookup-record_at self key pos) ∙ absent in
      let self' = put_record true new_record self in
      (
        record {
          shift = v.shift;
          low = v.low;
          high = v.high;
          is_power = v.is_power;
          chains = length-push_record size (IsFull-IsSize v) new_record self.table ∙ v.chains;
          chained =
              push_record-IsChained size (IsFull-IsSize v) new_record self.table v.chains v.chained
                gone;
        },
        λ k.
            lookup-record_at self' k pos
            ∙ record_at-push_record size (IsFull-IsSize v) new_record self.table k v.chains
            ∙ ap (λ b. if b then some new_record else record_at size self.table k)
                (same_digest_sym k key)
            ∙ ap (λ o. if same_digest key k then some new_record else o)
                (sym (lookup-record_at self k pos)),
      )

  stored :
      (k : HashDigest) (before old : Option Record)
      → ((s : Record) → before ≡ some s → s.key ≡ k)
      → ((key ≡ k) → (s : Record) × (before ≡ some s))
      → replaced new_record before ≡ (if same_digest key k then some new_record else before)
  stored k none old keyed there = elim (Bool-cases (same_digest key k)) [
    | inl m ↦ absurd (some-ne-none _ (sym (there ((same_digest_iff key k).0 m)).1))
    | inr m ↦ rw m refl
  ]
  stored k (some s) old keyed there =
      let e = ap (same_digest key) (keyed s refl) in
      elim (Bool-cases (same_digest key k)) [ inl m ↦ rw (e, m) refl | inr m ↦ rw (e, m) refl ]

  store_old :
      (self : ScanCache) (v : IsFull self) (old : Record)
      → lookup_dynamic self key ≡ some old
      → IsFull (put_record false new_record self)
        × ((k : HashDigest)
            → lookup_dynamic (put_record false new_record self) k
              ≡ (if same_digest key k then some new_record else lookup_dynamic self k))
  unfolding put_record
  store_old self v old there =
      let size = self.table_size in
      let pos = IsFull-pos v in
      let self' = put_record false new_record self in
      (
        record {
          shift = v.shift;
          low = v.low;
          high = v.high;
          is_power = v.is_power;
          chains = length-store_record new_record self.table ∙ v.chains;
          chained = store_record-IsChained size new_record self.table v.chained;
        },
        λ k.
            let chain = get_or self.table (chain_index size k) [] in
            lookup-record_at self' k pos
            ∙ ap (find_record k) (get_or-store_record new_record self.table (chain_index size k))
            ∙ find_record-store_in_chain k new_record chain
            ∙ stored k (find_record k chain) none (λ s e. (find_record-Among k chain s e).1)
                (λ e. (
                  old,
                  ap (record_at size self.table) (sym e)
                      ∙ sym (lookup-record_at self key pos)
                      ∙ there,
                ))
            ∙ ap (λ o. if same_digest key k then some new_record else o)
                (sym (lookup-record_at self k pos)),
      )

  pushed :
      (self : ScanCache)
      → IsScanCache self
      → self.table_size ≤ 2 ^ 30
      → lookup_dynamic self key ≡ none
      → (self' : ScanCache) × (scan_cache_insert flags self key timestamp files ≡ some self')
        × IsScanCache self'
        × Inserts self self'
  unfolding scan_cache_insert insert_found put_record
  pushed self v small absent =
      let (grown, room, (v', kept, frozen, count, lighter)) = prepare_insert-Grown self v small in
      let (full, lookups) = push_fresh grown v' (kept key ∙ absent) in
      (
        put_record true new_record grown,
        rw (absent, room) refl,
        inr full,
        (
          λ k.
              lookups k
              ∙ ap (λ o. if same_digest key k then some new_record else o) (kept k)
              ∙ ap (λ o. if same_digest key k then some (record_after o) else lookup_dynamic self k)
                  (sym absent),
          frozen,
          λ light few.
              let still = lighter light few in (omega (arith, still, count), omega (arith, count)),
        ),
      )

  replaced_old :
      (self : ScanCache) (old : Record)
      → IsScanCache self
      → self.table_size ≤ 2 ^ 30
      → lookup_dynamic self key ≡ some old
      → (self' : ScanCache) × (scan_cache_insert flags self key timestamp files ≡ some self')
        × IsScanCache self'
        × Inserts self self'
  unfolding scan_cache_insert insert_found put_record
  replaced_old self old v small there =
      let (grown, room, (v', kept, frozen, count, lighter)) = prepare_insert-Grown self v small in
      let (full, lookups) = store_old grown v' old (kept key ∙ there) in
      elim (Bool-cases (old.file_timestamp == timestamp)) [
        | inl same ↦
            let after : record_after (lookup_dynamic self key) ≡ old =
              ap record_after there ∙ rw same refl in
            (
              self,
              rw (there, same) refl,
              v,
              (
                λ k. unchanged k after (Bool-cases (same_digest key k)),
                refl,
                λ light few. (light, omega arith),
              ),
            )
        | inr other ↦
            let after : record_after (lookup_dynamic self key) ≡ new_record =
              ap record_after there ∙ rw other refl in
            (
              put_record false new_record grown,
              rw (there, other, room) refl,
              inr full,
              (
                λ k.
                    lookups k
                    ∙ ap (λ o. if same_digest key k then some new_record else o) (kept k)
                    ∙ ap (λ r. if same_digest key k then some r else lookup_dynamic self k)
                        (sym after),
                frozen,
                λ light few. (lighter light few, omega (arith, count)),
              ),
            )
      ]
    where
      unchanged :
          (k : HashDigest)
          → record_after (lookup_dynamic self key) ≡ old
          → (same_digest key k ≡ true) ⊎ (same_digest key k ≡ false)
          → lookup_dynamic self k ≡ (
              if same_digest key k
              then some (record_after (lookup_dynamic self key))
              else lookup_dynamic self k)
      unchanged k after (inr m) = rw m refl
      unchanged k after (inl m) =
          ap (lookup_dynamic self) (sym ((same_digest_iff key k).0 m))
          ∙ there
          ∙ ap some (sym after)
          ∙ rw m refl

  -- From an empty table, or one of 2^6 to 2^30 chains that is right, an insertion succeeds and leaves
  -- a table that is right and not empty. In it the key has the new record, with the hashes of the
  -- paths, or the record that it had, if that has the same time stamp; every other key has the record
  -- that it had; and the frozen data are the same.
  pub scan_cache_insert-Inserts :
      (self : ScanCache)
      → IsScanCache self
      → self.table_size ≤ 2 ^ 30
      → (self' : ScanCache) × (scan_cache_insert flags self key timestamp files ≡ some self')
        × IsScanCache self'
        × Inserts self self'
  scan_cache_insert-Inserts self v small = elim (Option-cases (lookup_dynamic self key)) [
    | inl absent ↦ pushed self v small absent
    | inr (old, there) ↦ replaced_old self old v small there
  ]
