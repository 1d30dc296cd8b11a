-- ===== src/ImplicitDeps.antt =====
-- ScanImplicitDeps of src/Scanner.cpp: all files that a file includes, and that those include. What
-- the stat cache says of a path is `tree.info`; what can be read of a file that can be opened is
-- `tree.read`. The copies into scratch memory are the same lists.
pub mod Graph
pub mod Visit
pub mod Adding
pub mod AddFiles
pub mod Loop
pub mod Result
use tundra.FilePath.{PathType}
use tundra.FileSign.{exists}
use tundra.HashTable.{HashTableFlags, hash_table_init, hash_table_walk}
use tundra.IncludeSet.{IncludeSet, include_set_add}
use tundra.StatCache.{FileInfo}
use tundra.SortedArrays.{HashDigest}
use tundra.Scanner.{ScannerData, scan_file}
use tundra.ScanCache.{
  FileAndHash, ScanCache, compute_scan_cache_key, hash_files, scan_cache_lookup, scan_cache_insert,
}
use tundra.Prelude.{
  ℕ, zero, suc, Bool, true, false, List, [], ◌∷◌, ◌++◌, map, Option, none, some, if◌then◌else◌,
  ◌==◌, ◌>>=◌,
}

-- What comes of fopen, fseek and ftell, and of fread: the file cannot be opened or has no length, or
-- its length is not read, or the bytes.
pub data FileRead : Type 0 where
  unopened unread : FileRead
  content : List ℕ → FileRead

pub record SourceTree : Type 0 where
  pub info : List ℕ → FileInfo
  pub read : List ℕ → FileRead

-- What ScanInput and the ScannerData say, and the C library's functions.
pub record ScanInput : Type 0 where
  pub flags : HashTableFlags
  pub path_type : PathType
  pub isspace : ℕ → Bool
  pub lower_bound : List ℕ → ℕ → ℕ
  pub scanner_config : ScannerData
  pub scanner_guid : HashDigest

-- `scan_start += sizeof utf8_mark`, where the mark is there.
unfoldable pub skip_utf8_mark : List ℕ → List ℕ
skip_utf8_mark (b0 ∷ b1 ∷ b2 ∷ rest) =
    if b0 == 0xef
    then (if b1 == 0xbb
        then (if b2 == 0xbf then rest else b0 ∷ b1 ∷ b2 ∷ rest)
        else b0 ∷ b1 ∷ b2 ∷ rest)
    else b0 ∷ b1 ∷ b2 ∷ rest
skip_utf8_mark bytes = bytes

-- The C string in a buffer that ends with a zero.
unfoldable pub c_string : List ℕ → List ℕ
c_string [] = []
c_string (c ∷ rest) = if c == 0 then [] else c ∷ c_string rest

-- The text that is scanned, with a newline behind it.
unfoldable pub text_of : List ℕ → List ℕ
unfolding skip_utf8_mark c_string
text_of bytes = c_string (skip_utf8_mark (bytes ++ 10 ∷ []))

-- incset, scan_cache and filename_stack, its top first.
pub record ScanState : Type 0 where
  pub incset : IncludeSet
  pub scan_cache : ScanCache
  pub filename_stack : List (List ℕ)

module _ (input : ScanInput) (tree : SourceTree) where
  -- The loops that add the files to the set, and schedule the new ones.
  unfoldable pub add_files : List FileAndHash → ScanState → Option ScanState
  unfolding include_set_add
  add_files [] state = some state
  add_files (f ∷ files) state =
      include_set_add input.flags state.incset f.filename f.filename_hash >>= (λ (added, incset).
        add_files files (record state {
          incset = incset;
          filename_stack =
              if added then f.filename ∷ state.filename_stack else state.filename_stack;
        }))

  unfoldable pub scan_key : List ℕ → HashDigest
  unfolding compute_scan_cache_key
  scan_key fn = compute_scan_cache_key input.flags fn input.scanner_guid

  -- ScanFile, on a text that was read.
  unfoldable pub scan_text : List ℕ → List ℕ → Option (List (List ℕ))
  unfolding text_of scan_file exists
  scan_text fn bytes =
      scan_file input.path_type (λ p. exists (tree.info p)) input.isspace fn input.scanner_config
        (text_of bytes)

  -- The insertion of what was found into the scan cache, and the loop over it.
  unfoldable pub keep_found : List ℕ → List (List ℕ) → ScanState → Option ScanState
  unfolding scan_key scan_cache_insert add_files hash_files
  keep_found fn found_includes state =
      scan_cache_insert input.flags state.scan_cache (scan_key fn) (tree.info fn).timestamp
        found_includes
      >>= (λ scan_cache.
          add_files (hash_files input.flags found_includes)
            (record state { scan_cache = scan_cache }))

  -- A file that the scan cache does not know. An empty file is passed over like one that cannot be
  -- opened.
  unfoldable pub scan_read : List ℕ → FileRead → ScanState → Option ScanState
  unfolding scan_text keep_found
  scan_read fn FileRead.unopened state = some state
  scan_read fn FileRead.unread state = keep_found fn [] state
  scan_read fn (FileRead.content []) state = some state
  scan_read fn (FileRead.content (b ∷ bytes)) state =
      scan_text fn (b ∷ bytes) >>= (λ found_includes. keep_found fn found_includes state)

  unfoldable pub scan_cached : List ℕ → Option (List FileAndHash) → ScanState → Option ScanState
  unfolding add_files scan_read
  scan_cached fn (some files) state = add_files files state
  scan_cached fn none state = scan_read fn (tree.read fn) state

  -- A round of the loop, for the file that was popped.
  unfoldable pub visit_file : List ℕ → ScanState → Option ScanState
  unfolding exists scan_key scan_cache_lookup scan_cached
  visit_file fn state =
      let found =
        scan_cache_lookup input.lower_bound state.scan_cache (scan_key fn)
          (tree.info fn).timestamp in
      if exists (tree.info fn)
      then scan_cached fn found.0 (record state { scan_cache = found.1 })
      else some state

  -- The loop, with a round for each unit of fuel, and no result if it does not end in them.
  unfoldable pub scan_loop : ℕ → List (List ℕ) → ScanState → Option ScanState
  unfolding visit_file
  scan_loop fuel [] state = some state
  scan_loop zero (fn ∷ stack) state = none
  scan_loop (suc fuel) (fn ∷ stack) state =
      visit_file fn (record state { filename_stack = stack })
      >>= (λ state'. scan_loop fuel state'.filename_stack state')

  -- ScanImplicitDeps: the included files, and the scan cache after it.
  unfoldable pub scan_implicit_deps : ℕ → ScanCache → List ℕ → Option (List FileAndHash × ScanCache)
  unfolding scan_loop hash_table_walk hash_table_init
  scan_implicit_deps fuel scan_cache filename = do
    let stack : List (List ℕ) = filename ∷ []
    let start : ScanState = record {
      incset = hash_table_init;
      scan_cache = scan_cache;
      filename_stack = stack;
    }
    state ← scan_loop fuel stack start
    calls ← hash_table_walk tt state.incset
    some (
      map (λ (index, hash, path, u). record { filename = path; filename_hash = hash }) calls,
      state.scan_cache,
    )
