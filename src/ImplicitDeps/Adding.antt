-- ===== src/ImplicitDeps/Adding.antt =====
-- The loop that adds a list of files to the set and schedules the new ones.
use mathlib.Core.Option.{some-injective}
use tundra.Prelude.Strings.{same_string, same_string_iff}
use tundra.HashTable.{HashTableFlags, hash_set_lookup, hash_set_insert}
use tundra.HashTable.Lookup.{key_of}
use tundra.HashTable.Size.{IsLight, IsLight-shift, hash_table_insert-IsLight}
use tundra.StringHash.{djb2_hash_path}
use tundra.IncludeSet.{
  IncludeSet, include_set_add, IsIncludeSet, Contains, Adds, include_set_add_lem,
}
use tundra.ImplicitDeps.{SourceTree, ScanInput, ScanState}
use tundra.ImplicitDeps.Graph.{Listed}
use tundra.Prelude.{
  ℕ, ◌+◌, ◌^◌, ◌≤◌, ◌<◌, ◌≡◌, ◌↔◌, ◌⊎◌, inl, inr, refl, sym, ap, subst, ◌∙◌, Bool, true, false,
  List, [], ◌∷◌, Option, some, if◌then◌else◌, length, ◌>>=◌, Bool-cases, bind-some, arith,
}

-- The paths that are left.
remove : List ℕ → List (List ℕ) → List (List ℕ)
remove f [] = []
remove f (g ∷ rest) = if same_string f g then rest else g ∷ remove f rest

length-remove :
    (f : List ℕ) (rest : List (List ℕ)) → Listed f rest → length (remove f rest) + 1 ≡ length rest
unfolding remove
length-remove f [] h = absurd h
length-remove f (g ∷ rest) h = elim (Bool-cases (same_string f g)) [
  | inl e ↦ rw e (omega arith)
  | inr e ↦ elim h [
    | inl same ↦ absurd (ground (arith, e, (same_string_iff f g).1 same))
    | inr later ↦ rw e (omega (arith, length-remove f rest later))
  ]
]

Listed-remove :
    (f u : List ℕ) (rest : List (List ℕ)) → Listed u rest → (u ≡ f) ⊎ Listed u (remove f rest)
unfolding remove
Listed-remove f u [] h = absurd h
Listed-remove f u (g ∷ rest) h = elim (Bool-cases (same_string f g)) [
  | inl e ↦ elim h [
    | inl same ↦ inl (same ∙ sym ((same_string_iff f g).0 e))
    | inr later ↦ rw e (inr later)
  ]
  | inr e ↦ elim h [
    | inl same ↦ rw e (inr (inl same))
    | inr later ↦ elim (Listed-remove f u rest later) [
      | inl same ↦ inl same
      | inr still ↦ rw e (inr (inr still))
    ]
  ]
]

-- An addition counts one record more, or leaves the set as it is.
include_set_add-size :
    (flags : HashTableFlags) (t t' : IncludeSet) (f : List ℕ) (hash : ℕ) (added : Bool)
    → include_set_add flags t f hash ≡ some (added, t')
    → t.record_count < 2 ^ 24
    → IsLight t
    → ((added ≡ true) × (t'.record_count ≡ t.record_count + 1) × IsLight t')
      ⊎ ((added ≡ false) × (t' ≡ t))
unfolding include_set_add hash_set_insert
include_set_add-size flags t t' f hash added h few light =
    let (found, looked, e) = bind-some (hash_set_lookup flags t hash f) h in split found e
  where
    split :
        (found : Bool)
        → (let r : Option (Bool × IncludeSet) =
              if found
              then some (false, t)
              else hash_set_insert t hash f >>= (λ self'. some (true, self')) in
            r ≡ some (added, t'))
        → ((added ≡ true) × (t'.record_count ≡ t.record_count + 1) × IsLight t')
          ⊎ ((added ≡ false) × (t' ≡ t))
    split true e =
        let same = some-injective _ _ e in inr (ap (λ r. r.0) (sym same), ap (λ r. r.1) (sym same))
    split false e =
        let (t1, inserted, e') = bind-some (hash_set_insert t hash f) e in
        let same = some-injective _ _ e' in
        let (count, light') = hash_table_insert-IsLight tt t t1 hash f tt inserted few light in
        let st : t1 ≡ t' = ap (λ r. r.1) same in
        inl (
          ap (λ r. r.0) (sym same),
          subst (λ z. z.record_count ≡ t.record_count + 1) st count,
          subst IsLight st light',
        )

module _ (input : ScanInput) (tree : SourceTree) (universe : List (List ℕ)) (limit : ℕ) where
  -- A set of files of the universe, those of it that may still come, and no more of both than the
  -- limit.
  pub record IsFileSet (t : IncludeSet) (rest : List (List ℕ)) : Type 0 where
    pub set : IsIncludeSet input.flags t
    pub light : IsLight t
    pub count : t.record_count + length rest ≤ limit
    pub cover : (u : List ℕ) → Listed u universe → Contains input.flags t u ⊎ Listed u rest

  -- What the additions leave: the files are in the set beside those that were there, and the new ones
  -- lie on the stack above those that lay there.
  pub record Added (files : List (List ℕ)) (before after : ScanState) (rest : List (List ℕ))
      : Type 0 where
    pub rest' : List (List ℕ)
    pub is_set : IsFileSet after.incset rest'
    pub same_cache : after.scan_cache ≡ before.scan_cache
    pub contains :
        (s : List ℕ)
        → Contains input.flags after.incset s
          ↔ (Listed s files ⊎ Contains input.flags before.incset s)
    pub fewer :
        length after.filename_stack + length rest' ≤ length before.filename_stack + length rest
    pub kept : (s : List ℕ) → Listed s before.filename_stack → Listed s after.filename_stack
    pub scheduled :
        (s : List ℕ)
        → Listed s after.filename_stack
        → Listed s files ⊎ Listed s before.filename_stack
    pub fresh :
        (s : List ℕ)
        → Listed s files
        → Contains input.flags before.incset s ⊎ Listed s after.filename_stack

  -- One addition: it succeeds, and the new file is taken from those that may come.
  pub record AddedOne (f : List ℕ) (t : IncludeSet) (rest : List (List ℕ)) (added : Bool)
      (t' : IncludeSet) : Type 0 where
    pub rest1 : List (List ℕ)
    pub is_set : IsFileSet t' rest1
    pub contains : (s : List ℕ) → Contains input.flags t' s ↔ ((f ≡ s) ⊎ Contains input.flags t s)
    pub told :
        ((added ≡ true) × (length rest1 + 1 ≡ length rest))
        ⊎ ((added ≡ false) × Contains input.flags t f × (length rest1 ≡ length rest))

  module _ (names : (a b : List ℕ) → key_of input.flags a ≡ key_of input.flags b → a ≡ b)
      (low : limit ≤ 2 ^ 23) where
    add_new :
        (f : List ℕ) (t t' : IncludeSet) (rest : List (List ℕ))
        → Listed f universe
        → IsFileSet t rest
        → Adds input.flags t f (true, t')
        → t'.record_count ≡ t.record_count + 1
        → IsLight t'
        → AddedOne f t rest true t'
    add_new f t t' rest inside v (v', isnew, holds) count light =
        let absent = isnew.0 refl in
        let waiting : Listed f rest = elim (v.cover f inside) [
          | inl c ↦ absurd (absent c)
          | inr l ↦ l
        ] in
        let shorter = length-remove f rest waiting in
        record {
          rest1 = remove f rest;
          is_set = record {
            set = v';
            light = light;
            count = omega (arith, v.count, count, shorter);
            cover = λ u l. elim (v.cover u l) [
              | inl c ↦ inl ((holds u).1 (inr c))
              | inr w ↦ elim (Listed-remove f u rest w) [
                | inl same ↦ inl ((holds u).1 (inl (ap (key_of input.flags) (sym same))))
                | inr still ↦ inr still
              ]
            ];
          };
          contains = λ s. (
            λ c. elim ((holds s).0 c) [ inl k ↦ inl (names f s k) | inr old ↦ inr old ],
            λ c.
                (holds s).1
                  (elim c [ inl k ↦ inl (ap (key_of input.flags) k) | inr old ↦ inr old ]),
          );
          told = inl (refl, shorter);
        }

    add_old :
        (f : List ℕ) (t : IncludeSet) (rest : List (List ℕ))
        → IsFileSet t rest
        → Adds input.flags t f (false, t)
        → AddedOne f t rest false t
    add_old f t rest v (v', isnew, holds) =
        let there = (holds f).1 (inl refl) in
        record {
          rest1 = rest;
          is_set = v;
          contains = λ s.
              (inr, λ c. elim c [ inl k ↦ subst (Contains input.flags t) k there | inr old ↦ old ]);
          told = inr (refl, there, refl);
        }

    pub add_one :
        (f : List ℕ) (t : IncludeSet) (rest : List (List ℕ))
        → Listed f universe
        → IsFileSet t rest
        → (added : Bool) × (t' : IncludeSet) × (include_set_add input.flags t f
              (djb2_hash_path input.flags f)
            ≡ some (added, t'))
          × AddedOne f t rest added t'
    add_one f t rest inside v =
        let small = IsLight-shift t (omega (arith, v.count)) v.light in
        let (result, e, adds) = include_set_add_lem input.flags t f v.set small in
        let size =
          include_set_add-size input.flags t result.1 f (djb2_hash_path input.flags f) result.0 e
            (omega (arith, v.count)) v.light in
        elim size [
          | inl (new, count, light) ↦ (
            result.0,
            result.1,
            e,
            subst (λ b. AddedOne f t rest b result.1) (sym new)
                (add_new f t result.1 rest inside v
                  (subst (λ b. Adds input.flags t f (b, result.1)) new adds) count light),
          )
          | inr (old, same) ↦ (
            result.0,
            result.1,
            e,
            subst (λ b. AddedOne f t rest b result.1) (sym old)
                (subst (AddedOne f t rest false) (sym same) (
                  add_old f t rest v (
                    subst (λ z. Adds input.flags t f (false, z)) same
                      (subst (λ b. Adds input.flags t f (b, result.1)) old adds)))),
          )
        ]
