-- ===== src/IncludeScanner/Lines.antt =====
-- The loop over a buffer's lines: every line is looked at once, in order, and the fuel is enough.
use tundra.IncludeScanner.{
  IncludeData, GenericScannerData, get_next_line, scan_lines, scan_cpp_line, scan_line_generic,
  scan_includes_cpp, scan_includes_generic,
}
use tundra.Prelude.{
  ℕ, zero, suc, ◌+◌, ◌≤◌, ◌<◌, Bool, ◌≡◌, refl, ap, inl, inr, Option, none, some, List, [], ◌∷◌,
  ◌++◌, length, if◌then◌else◌, ◌==◌, Bool-cases, arith,
}

grow : ℕ → List (List ℕ) → List (List ℕ)
grow c [] = (c ∷ []) ∷ []
grow c (l ∷ ls) = (c ∷ l) ∷ ls

-- The lines between the line feeds.
pub lines : List ℕ → List (List ℕ)
unfolding grow
lines [] = [] ∷ []
lines (c ∷ p) = let rest = lines p in if c == 10 then [] ∷ rest else grow c rest

lines_behind : Option (List ℕ) → List (List ℕ)
lines_behind none = []
lines_behind (some p) = lines p

size : Option (List ℕ) → ℕ
size none = 0
size (some p) = length p + 1

lines-next : (p : List ℕ) → lines p ≡ (get_next_line p).0 ∷ lines_behind (get_next_line p).1
unfolding get_next_line lines_behind lines
lines-next [] = refl
lines-next (c ∷ p) = elim (Bool-cases (c == 10)) [
  | inl e ↦ rw e refl
  | inr e ↦ rw e (ap (grow c) (lines-next p))
]

size-next : (p : List ℕ) → size (get_next_line p).1 ≤ length p
unfolding get_next_line size
size-next [] = omega arith
size-next (c ∷ p) = ground (arith, size-next p)

-- What a scanner of a line finds, as a list of at most one.
abbrev pub found : Option IncludeData → List IncludeData
found none = []
found (some d) = d ∷ []

abbrev pub all_found : (List ℕ → Option IncludeData) → List (List ℕ) → List IncludeData
all_found scan [] = []
all_found scan (l ∷ ls) = found (scan l) ++ all_found scan ls

scan_lines-all :
    (scan : List ℕ → Option IncludeData) (fuel : ℕ) (o : Option (List ℕ))
    → size o < fuel
    → scan_lines scan fuel o ≡ some (all_found scan (lines_behind o))
unfolding scan_lines size lines_behind
scan_lines-all scan zero o h = absurd (omega arith)
scan_lines-all scan (suc fuel) none h = refl
scan_lines-all scan (suc fuel) (some p) h =
    let shorter = size-next p in
    let ih = scan_lines-all scan fuel (get_next_line p).1 (omega arith) in
    rw (ih, lines-next p) (join (scan (get_next_line p).0) _)
  where
    join :
        (o : Option IncludeData) (ds : List IncludeData)
        → elim o [ none ↦ some ds | some d ↦ some (d ∷ ds) ] ≡ some (found o ++ ds)
    join none ds = refl
    join (some d) ds = refl

module _ (isspace : ℕ → Bool) where
  -- ScanIncludesCpp comes to an end, and finds what ScanCppLine finds in the lines between the line
  -- feeds, each looked at once, in their order.
  pub scan_includes_cpp-lines :
      (buffer : List ℕ)
      → scan_includes_cpp isspace buffer ≡ some (all_found (scan_cpp_line isspace) (lines buffer))
  unfolding scan_includes_cpp size lines_behind
  scan_includes_cpp-lines buffer =
      scan_lines-all (scan_cpp_line isspace) (length buffer + 2) (some buffer) (omega arith)

  -- ScanIncludesGeneric comes to an end, and finds what ScanLineGeneric finds in the lines between
  -- the line feeds, each looked at once, in their order.
  pub scan_includes_generic-lines :
      (config : GenericScannerData) (buffer : List ℕ)
      → scan_includes_generic isspace config buffer
        ≡ some (all_found (scan_line_generic isspace config) (lines buffer))
  unfolding scan_includes_generic size lines_behind
  scan_includes_generic-lines config buffer =
      scan_lines-all (scan_line_generic isspace config) (length buffer + 2) (some buffer)
        (omega arith)
