-- ===== src/Scanner.antt =====
-- The files that the includes of a file stand for: FindFile and ScanFile of src/Scanner.cpp. `exists`
-- is what the stat cache says of a path, which it asks at once for each path that is tried.
use mathlib.Core.Option.{some-injective}
use tundra.FilePath.{PathType, PathBuffer, path_init, path_strip_last, path_concat, path_format}
use tundra.IncludeScanner.{
  IncludeData, GenericScannerData, scan_includes_cpp, scan_includes_generic,
}
use tundra.Prelude.{
  ℕ, Bool, ◌≡◌, refl, ap, ◌∙◌, inl, inr, List, [], ◌∷◌, Option, none, some, if◌then◌else◌, ◌>>=◌,
  Bool-cases, bind-some,
}

-- ScannerData::m_ScannerType, with what the generic scanner needs.
pub data ScannerType : Type 0 where
  cpp : ScannerType
  generic : GenericScannerData → ScannerType

pub record ScannerData : Type 0 where
  pub scanner_type : ScannerType
  pub include_paths : List (List ℕ)

abbrev pub with_found : Option (List ℕ) → List (List ℕ) → List (List ℕ)
with_found none found = found
with_found (some path) found = path ∷ found

-- PathConcat and PathFormat: the path that is tried.
unfoldable pub path_in : PathBuffer → PathBuffer → Option (List ℕ)
unfolding path_concat path_format
path_in buffer include_buf = path_concat buffer include_buf >>= path_format

module _ (type : PathType) (exists : List ℕ → Bool) where
  -- The loop of FindFile over the include paths.
  unfoldable pub find_in_paths : PathBuffer → List (List ℕ) → Option (Option (List ℕ))
  unfolding path_init path_in
  find_in_paths include_buf [] = some none
  find_in_paths include_buf (include_path ∷ include_paths) =
      let rest = find_in_paths include_buf include_paths in
      path_init include_path type
      >>= (λ buffer. path_in buffer include_buf)
      >>= (λ path_buf. if exists path_buf then some (some path_buf) else rest)

  -- FindFile: the path of a file that exists, or none.
  unfoldable pub find_file : List ℕ → ScannerData → IncludeData → Option (Option (List ℕ))
  unfolding find_in_paths path_strip_last
  find_file filename scanner_config include = path_init filename type >>= (λ filename_buf.
      path_init include.string type >>= (λ include_buf.
        let searched = find_in_paths include_buf scanner_config.include_paths in
        if include.is_system_include
        then searched
        else path_in (path_strip_last filename_buf).1 include_buf
          >>= (λ path_buf. if exists path_buf then some (some path_buf) else searched)))

  -- The loop of ScanFile over the includes.
  unfoldable pub resolve : List ℕ → ScannerData → List IncludeData → Option (List (List ℕ))
  unfolding find_file
  resolve filename scanner_config [] = some []
  resolve filename scanner_config (include ∷ includes) =
      let rest = resolve filename scanner_config includes in
      find_file filename scanner_config include
      >>= (λ found. rest >>= (λ found_includes. some (with_found found found_includes)))

-- The switch of ScanFile.
unfoldable pub scan_includes : (ℕ → Bool) → ScannerType → List ℕ → Option (List IncludeData)
unfolding scan_includes_cpp scan_includes_generic
scan_includes isspace ScannerType.cpp file_data = scan_includes_cpp isspace file_data
scan_includes isspace (ScannerType.generic config) file_data =
    scan_includes_generic isspace config file_data

unfoldable pub scan_file :
    PathType → (List ℕ → Bool) → (ℕ → Bool) → List ℕ → ScannerData → List ℕ → Option (List (List ℕ))
unfolding scan_includes resolve
scan_file type exists isspace filename scanner_config file_data =
    scan_includes isspace scanner_config.scanner_type file_data
    >>= (λ includes. resolve type exists filename scanner_config includes)

-- The paths that an include may stand for, in the order of preference: beside the file that includes
-- it, unless it is a system include, and then in each include path.
abbrev in_paths : PathType → PathBuffer → List (List ℕ) → Option (List (List ℕ))
in_paths type include_buf [] = some []
in_paths type include_buf (p ∷ ps) =
    (path_init p type >>= (λ buffer. path_in buffer include_buf))
    >>= (λ path. in_paths type include_buf ps >>= (λ others. some (path ∷ others)))

abbrev pub candidates : PathType → List ℕ → ScannerData → IncludeData → Option (List (List ℕ))
candidates type filename config include = path_init filename type >>= (λ filename_buf.
    path_init include.string type >>= (λ include_buf.
      in_paths type include_buf config.include_paths >>= (λ others.
        if include.is_system_include
        then some others
        else path_in (path_strip_last filename_buf).1 include_buf
          >>= (λ path. some (path ∷ others)))))

abbrev pub first_existing : (List ℕ → Bool) → List (List ℕ) → Option (List ℕ)
first_existing exists [] = none
first_existing exists (p ∷ ps) = if exists p then some p else first_existing exists ps

-- Each include has paths that it may stand for, none of them too long.
pub data Candidates (type : PathType) (filename : List ℕ) (config : ScannerData)
    : List IncludeData → List (List (List ℕ)) → Type 0 where
  none_left : Candidates type filename config [] []
  one_more :
      {i : IncludeData} {is : List IncludeData} {c : List (List ℕ)} {cs : List (List (List ℕ))}
      → candidates type filename config i ≡ some c
      → Candidates type filename config is cs
      → Candidates type filename config (i ∷ is) (c ∷ cs)

-- The first path that exists for each include that has one.
abbrev pub firsts : (List ℕ → Bool) → List (List (List ℕ)) → List (List ℕ)
firsts exists [] = []
firsts exists (c ∷ cs) = with_found (first_existing exists c) (firsts exists cs)

module _ (type : PathType) (exists : List ℕ → Bool) where
  path_first :
      (include_buf : PathBuffer) (p : List ℕ) (ps : List (List ℕ)) (path : List ℕ)
      (others : List (List ℕ))
      → (path_init p type >>= (λ buffer. path_in buffer include_buf)) ≡ some path
      → find_in_paths type exists include_buf ps ≡ some (first_existing exists others)
      → find_in_paths type exists include_buf (p ∷ ps)
        ≡ some (first_existing exists (path ∷ others))
  unfolding find_in_paths
  path_first include_buf p ps path others e rest = elim (Bool-cases (exists path)) [
    | inl x ↦ rw (e, x) refl
    | inr x ↦ rw (e, x) rest
  ]

  find_in_paths_lem :
      (include_buf : PathBuffer) (paths : List (List ℕ)) (c : List (List ℕ))
      → in_paths type include_buf paths ≡ some c
      → find_in_paths type exists include_buf paths ≡ some (first_existing exists c)
  unfolding find_in_paths
  find_in_paths_lem include_buf [] c h =
      ap (λ l. some (first_existing exists l)) (some-injective _ _ h)
  find_in_paths_lem include_buf (p ∷ ps) c h =
      let (path, e, h1) =
        bind-some (path_init p type >>= (λ buffer. path_in buffer include_buf)) h in
      let (others, e', h2) = bind-some (in_paths type include_buf ps) h1 in
      let rest = find_in_paths_lem include_buf ps others e' in
      path_first include_buf p ps path others e rest
      ∙ ap (λ l. some (first_existing exists l)) (some-injective _ _ h2)

  tried :
      (filename_buf include_buf : PathBuffer) (include : IncludeData) (others c : List (List ℕ))
      {searched : Option (Option (List ℕ))}
      → searched ≡ some (first_existing exists others)
      → (if include.is_system_include
          then some others
          else path_in (path_strip_last filename_buf).1 include_buf
            >>= (λ path. some (path ∷ others)))
        ≡ some c
      → (if include.is_system_include
          then searched
          else path_in (path_strip_last filename_buf).1 include_buf
            >>= (λ path_buf. if exists path_buf then some (some path_buf) else searched))
        ≡ some (first_existing exists c)
  tried filename_buf include_buf include others c searched =
      elim (Bool-cases include.is_system_include) [
        | inl s ↦
            rw s (λ h. searched ∙ ap (λ l. some (first_existing exists l)) (some-injective _ _ h))
        | inr s ↦ rw s (λ h.
            let (path, e, h') =
              bind-some (path_in (path_strip_last filename_buf).1 include_buf) h in
            let all = ap (λ l. some (first_existing exists l)) (some-injective _ _ h') in
            elim (Bool-cases (exists path)) [
              | inl x ↦ rw (e, x) (rw x refl ∙ all)
              | inr x ↦ rw (e, x) (searched ∙ rw x refl ∙ all)
            ])
      ]

  located :
      (filename : List ℕ) (config : ScannerData) (include : IncludeData)
      (filename_buf include_buf : PathBuffer) (others c : List (List ℕ))
      → path_init filename type ≡ some filename_buf
      → path_init include.string type ≡ some include_buf
      → find_in_paths type exists include_buf config.include_paths
        ≡ some (first_existing exists others)
      → (if include.is_system_include
          then some others
          else path_in (path_strip_last filename_buf).1 include_buf
            >>= (λ path. some (path ∷ others)))
        ≡ some c
      → find_file type exists filename config include ≡ some (first_existing exists c)
  unfolding find_file
  located filename config include filename_buf include_buf others c e1 e2 searched h =
      rw (e1, e2) (tried filename_buf include_buf include others c searched h)

  -- Where none of the paths that an include may stand for is too long, FindFile gives the first of
  -- them that exists, if one does.
  find_file_lem :
      (filename : List ℕ) (config : ScannerData) (include : IncludeData) (c : List (List ℕ))
      → candidates type filename config include ≡ some c
      → find_file type exists filename config include ≡ some (first_existing exists c)
  unfolding find_file
  find_file_lem filename config include c h =
      let (filename_buf, e1, h1) = bind-some (path_init filename type) h in
      let (include_buf, e2, h2) = bind-some (path_init include.string type) h1 in
      let (others, e3, h3) = bind-some (in_paths type include_buf config.include_paths) h2 in
      let searched = find_in_paths_lem include_buf config.include_paths others e3 in
      located filename config include filename_buf include_buf others c e1 e2 searched h3

  resolve-firsts :
      (filename : List ℕ) (config : ScannerData) (includes : List IncludeData)
      (cs : List (List (List ℕ)))
      → Candidates type filename config includes cs
      → resolve type exists filename config includes ≡ some (firsts exists cs)
  unfolding resolve
  resolve-firsts filename config [] [] Candidates.none_left = refl
  resolve-firsts filename config [] (c ∷ cs) each = elim each [ ]
  resolve-firsts filename config (i ∷ is) [] each = elim each [ ]
  resolve-firsts filename config (i ∷ is) (c ∷ cs) (Candidates.one_more h rest) =
      rw (find_file_lem filename config i c h, resolve-firsts filename config is cs rest) refl

  -- Where none of the paths that the includes of a file may stand for is too long, scanning the file
  -- finds, in the order of the includes, the first of an include's paths that exists: beside the file,
  -- unless it is a system include, or else in the include paths in their order.
  pub scan_file-firsts :
      (isspace : ℕ → Bool) (filename : List ℕ) (config : ScannerData) (file_data : List ℕ)
      (includes : List IncludeData) (cs : List (List (List ℕ)))
      → scan_includes isspace config.scanner_type file_data ≡ some includes
      → Candidates type filename config includes cs
      → scan_file type exists isspace filename config file_data ≡ some (firsts exists cs)
  unfolding scan_file
  scan_file-firsts isspace filename config file_data includes cs h each =
      rw h (resolve-firsts filename config includes cs each)
