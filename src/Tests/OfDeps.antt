-- ===== src/Tests/OfDeps.antt =====
-- The file `s/a` with the line `#include "b"`, where `s/b` is there and empty.
use tundra.Prelude.Strings.{same_string, same_string_iff}
use tundra.FilePath.{
  PathType, path_init, path_strip_last, get_segments, path_prefix, copy_segments, drop_dot_dots,
  climb, buffer_size, shift_ends,
}
use tundra.IncludeScanner.{include_word}
use tundra.Scanner.{ScannerType}
use tundra.FileSign.{exists}
use tundra.HashTable.{HashTableFlags}
use tundra.ScanCache.{FileAndHash, ScanCache, scan_cache_init, scan_cache_lookup}
use mathlib.Core.Option.{some-ne-none}
use tundra.ImplicitDeps.{FileRead, SourceTree, ScanInput, scan_key, scan_text, scan_implicit_deps}
use tundra.ImplicitDeps.Graph.{Reach, Scans, IsGraph, IsCache}
use tundra.ImplicitDeps.Loop.{IsClosed}
use tundra.ImplicitDeps.Result.{Given, scan_implicit_deps-Reach}
use tundra.Prelude.{
  ℕ, Bool, true, false, ◌||◌, ◌&&◌, leb, ◌==◌, ◌≡◌, ◌↔◌, ◌⊎◌, inl, inr, refl, sym, ap, subst, ◌∙◌,
  List, [], ◌∷◌, ◌++◌, some, map, if◌then◌else◌, Bool-cases, ◌>>=◌, arith,
}

abbrev c_isspace : ℕ → Bool
c_isspace c = c == 32 || (leb 9 c && leb c 13)

abbrev file_a : List ℕ
file_a = b's' ∷ b'/' ∷ b'a' ∷ []

abbrev file_b : List ℕ
file_b = b's' ∷ b'/' ∷ b'b' ∷ []

abbrev include_line : List ℕ
include_line = 35 ∷ (include_word ++ (32 ∷ 34 ∷ b'b' ∷ 34 ∷ []))

abbrev input : ScanInput
input = record {
  flags = HashTableFlags.flag_case_sensitive;
  path_type = PathType.unix;
  isspace = c_isspace;
  lower_bound = λ table key. 0;
  scanner_config = record { scanner_type = ScannerType.cpp; include_paths = [] };
  scanner_guid = record { a = 1; b = 2; c = 3 };
}

abbrev tree : SourceTree
tree = record {
  info = λ fn. record {
    flags = if same_string fn file_a || same_string fn file_b then 5 else 0;
    size = 10;
    timestamp = 20;
  };
  read = λ fn. if same_string fn file_a then FileRead.content include_line else FileRead.content [];
}

abbrev includes : List ℕ → List (List ℕ)
includes fn = if same_string fn file_a then file_b ∷ [] else []

-- The only files that are there.
there-cases : (fn : List ℕ) → exists (tree.info fn) ≡ true → (fn ≡ file_a) ⊎ (fn ≡ file_b)
unfolding exists
there-cases fn e = elim (Bool-cases (same_string fn file_a)) [
  | inl a ↦ inl ((same_string_iff fn file_a).0 a)
  | inr na ↦ elim (Bool-cases (same_string fn file_b)) [
    | inl b ↦ inr ((same_string_iff fn file_b).0 b)
    | inr nb ↦ absurd (gone (same_string fn file_a) (same_string fn file_b) na nb e)
  ]
]
  where
    gone :
        (a b : Bool)
        → a ≡ false
        → b ≡ false
        → exists (record { flags = if a || b then 5 else 0; size = 10; timestamp = 20 }) ≡ true
        → ⊥
    gone a b ea eb = rw (ea, eb) (λ h. ground (arith, h))

scan_a : Scans input tree includes file_a (tree.read file_a)
unfolding scan_text same_string path_init path_strip_last get_segments path_prefix copy_segments
    drop_dot_dots climb buffer_size shift_ends
scan_a = refl

scan_b : Scans input tree includes file_b (tree.read file_b)
unfolding same_string
scan_b = refl

keys_apart : scan_key input tree file_a ≡ scan_key input tree file_b → ⊥
unfolding scan_key
keys_apart e = let h = ap (λ d. d.a) e in ground (arith, h)

includes_missing : (fn : List ℕ) → exists (tree.info fn) ≡ false → includes fn ≡ []
unfolding exists
includes_missing fn e = elim (Bool-cases (same_string fn file_a)) [
  | inl a ↦ absurd (here (same_string fn file_a) (same_string fn file_b) a e)
  | inr na ↦ rw na refl
]
  where
    here :
        (a b : Bool)
        → a ≡ true
        → exists (record { flags = if a || b then 5 else 0; size = 10; timestamp = 20 }) ≡ false
        → ⊥
    here a b ea = rw ea (λ h. ground (arith, h))

graph : IsGraph input tree includes
graph = record {
  scanned = λ fn e. elim (there-cases fn e) [
    | inl a ↦ subst (λ f. Scans input tree includes f (tree.read f)) (sym a) scan_a
    | inr b ↦ subst (λ f. Scans input tree includes f (tree.read f)) (sym b) scan_b
  ];
  missing = includes_missing;
  keys = λ a b ea eb e. elim (there-cases a ea) [
    | inl aa ↦ elim (there-cases b eb) [
      | inl ba ↦ aa ∙ sym ba
      | inr bb ↦
          absurd (keys_apart (ap (scan_key input tree) (sym aa) ∙ e ∙ ap (scan_key input tree) bb))
    ]
    | inr ab ↦ elim (there-cases b eb) [
      | inl ba ↦
          absurd
            (keys_apart (ap (scan_key input tree) (sym ba) ∙ sym e ∙ ap (scan_key input tree) ab))
      | inr bb ↦ ab ∙ sym bb
    ]
  ];
  names = λ a b e. e;
}

abbrev universe : List (List ℕ)
universe = file_b ∷ []

universe-IsClosed : IsClosed input tree includes universe file_a
universe-IsClosed g s h = elim (Bool-cases (same_string g file_a)) [
  | inl a ↦ rw a (λ l. l)
  | inr na ↦ rw na (λ l. absurd l)
]

scan_cache_init-IsCache : IsCache input tree includes 1 scan_cache_init
unfolding scan_cache_init scan_cache_lookup
scan_cache_init-IsCache = record {
  formed = inl (refl, refl);
  light = omega arith;
  few = omega arith;
  true_now = λ fn files here e. absurd (some-ne-none _ (sym e));
}

scan_implicit_deps-Reach_example :
    (files : List FileAndHash) × (c' : ScanCache) × (scan_implicit_deps input tree 2 scan_cache_init
        file_a
      ≡ some (files, c'))
    × ((s : List ℕ) → Given input s files ↔ Reach includes file_a s)
    × IsCache input tree includes 3 c'
scan_implicit_deps-Reach_example =
    scan_implicit_deps-Reach input tree includes universe file_a scan_cache_init 1 graph
      universe-IsClosed (omega arith) (omega arith) scan_cache_init-IsCache

abbrev names_of : List FileAndHash → List (List ℕ)
names_of files = map (λ f. f.filename) files

-- The same scan, run.
scan_runs :
    (scan_implicit_deps input tree 2 scan_cache_init file_a >>= (λ r. some (names_of r.0)))
    ≡ some (file_b ∷ [])
unfolding scan_implicit_deps scan_cache_init same_string path_init path_strip_last get_segments
    path_prefix copy_segments drop_dot_dots climb buffer_size shift_ends exists
scan_runs = refl
