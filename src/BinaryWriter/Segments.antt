-- ===== src/BinaryWriter/Segments.antt =====
-- What the calls of BinaryWriter.hpp build: pointers that lie one behind the other inside their
-- segment, and whose targets were positions of a segment.
use tundra.BinaryWriter.{
  BinaryLocator, BinaryFixup, BinarySegment, BinaryWriter, no_segment, binary_segment_align,
  binary_segment_write, binary_segment_write_pointer, binary_writer_add_segment,
}
use tundra.BinaryWriter.Fixups.{Laid}
use tundra.Prelude.{
  ℕ, ◌+◌, ◌≤◌, ◌<◌, ◌≡◌, ap, subst, List, [], ◌∷◌, ◌++◌, length, get_or, set, length-set,
  get_or-set_self, get_or-set_ne, ℕ_discrete, arith,
}

-- The calls that change a writer; a segment goes by its index.
pub data WriterCall : Type 0 where
  add_segment : WriterCall
  align : ℕ → ℕ → WriterCall
  write : ℕ → List ℕ → WriterCall
  write_pointer : ℕ → BinaryLocator → WriterCall

unfoldable pub run_writer_call : BinaryWriter → WriterCall → BinaryWriter
unfolding binary_writer_add_segment binary_segment_align binary_segment_write
    binary_segment_write_pointer
run_writer_call w WriterCall.add_segment = binary_writer_add_segment w
run_writer_call w (WriterCall.align i alignment) =
    set w i (binary_segment_align (get_or w i no_segment) alignment)
run_writer_call w (WriterCall.write i bytes) =
    set w i (binary_segment_write (get_or w i no_segment) bytes)
run_writer_call w (WriterCall.write_pointer i locator) =
    set w i (binary_segment_write_pointer (get_or w i no_segment) locator)

unfoldable pub run_writer_calls : BinaryWriter → List WriterCall → BinaryWriter
unfolding run_writer_call
run_writer_calls w [] = w
run_writer_calls w (call ∷ calls) = run_writer_calls (run_writer_call w call) calls

-- A position that BinarySegmentPosition gave.
abbrev pub IsPosition : BinaryWriter → BinaryLocator → Type 0
IsPosition w locator =
    (locator.seg_index < length w)
    × (locator.offset ≤ length (get_or w locator.seg_index no_segment).bytes.elements)

abbrev pub Aimed : BinaryWriter → List BinaryFixup → Type 0
Aimed w [] = Unit
Aimed w (fixup ∷ fixups) = IsPosition w fixup.target × Aimed w fixups

abbrev pub IsSegment : BinaryWriter → ℕ → BinarySegment → Type 0
IsSegment w i seg =
    (seg.index ≡ i)
    × Laid 0 (length seg.bytes.elements) seg.fixups.elements
    × Aimed w seg.fixups.elements

abbrev pub IsWriter : BinaryWriter → Type 0
IsWriter w = (i : ℕ) → i < length w → IsSegment w i (get_or w i no_segment)

-- A call for a segment of the writer, and for a pointer a position.
abbrev pub IsCall : BinaryWriter → WriterCall → Type 0
IsCall w WriterCall.add_segment = Unit
IsCall w (WriterCall.align i alignment) = i < length w
IsCall w (WriterCall.write i bytes) = i < length w
IsCall w (WriterCall.write_pointer i locator) = (i < length w) × IsPosition w locator

abbrev pub AreCalls : BinaryWriter → List WriterCall → Type 0
AreCalls w [] = Unit
AreCalls w (call ∷ calls) = IsCall w call × AreCalls (run_writer_call w call) calls

pub Laid-weaken : (lo n m : ℕ) (fs : List BinaryFixup) → n ≤ m → Laid lo n fs → Laid lo m fs
Laid-weaken lo n m [] le h = omega arith
Laid-weaken lo n m (f ∷ fs) le (h, t) = (h, Laid-weaken (f.pointer_offset + 4) n m fs le t)

pub Laid-append :
    (lo n : ℕ) (fs : List BinaryFixup) (f : BinaryFixup)
    → f.pointer_offset ≡ n
    → Laid lo n fs
    → Laid lo (n + 4) (fs ++ f ∷ [])
Laid-append lo n [] f e h = (omega arith, omega arith)
Laid-append lo n (g ∷ fs) f e (h, t) = (h, Laid-append (g.pointer_offset + 4) n fs f e t)

-- What a writer's positions are, they stay while its segments grow.
abbrev pub Keeps : BinaryWriter → BinaryWriter → Type 0
Keeps w w' = (locator : BinaryLocator) → IsPosition w locator → IsPosition w' locator

pub Aimed-Keeps :
    (w w' : BinaryWriter) (fs : List BinaryFixup) → Keeps w w' → Aimed w fs → Aimed w' fs
Aimed-Keeps w w' [] keeps h = tt
Aimed-Keeps w w' (f ∷ fs) keeps (h, t) = (keeps f.target h, Aimed-Keeps w w' fs keeps t)

pub Aimed-append :
    (w : BinaryWriter) (fs : List BinaryFixup) (f : BinaryFixup)
    → Aimed w fs
    → IsPosition w f.target
    → Aimed w (fs ++ f ∷ [])
Aimed-append w [] f h p = (p, tt)
Aimed-append w (g ∷ fs) f (h, t) p = (h, Aimed-append w fs f t p)

-- A segment in place of another that is no longer.
pub set-IsWriter :
    (w : BinaryWriter) (i : ℕ) (seg : BinarySegment)
    → i < length w
    → length (get_or w i no_segment).bytes.elements ≤ length seg.bytes.elements
    → IsSegment w i seg
    → IsWriter w
    → IsWriter (set w i seg)
set-IsWriter w i seg lt le new all j h = elim (ℕ_discrete i j) [
  | yes e ↦
      subst (λ k. IsSegment (set w i seg) k (get_or (set w i seg) k no_segment)) e
        (rw (get_or-set_self w i seg no_segment lt)
          (new.0, new.1, Aimed-Keeps w (set w i seg) seg.fixups.elements keeps new.2))
  | no ne ↦
      let old = all j (omega (arith, length-set w i seg)) in
      rw (get_or-set_ne w seg no_segment ne) (
        old.0,
        old.1,
        Aimed-Keeps w (set w i seg) (get_or w j no_segment).fixups.elements keeps old.2,
      )
]
  where
    keeps : Keeps w (set w i seg)
    keeps locator (inside, at) = (
      omega (arith, length-set w i seg),
      elim (ℕ_discrete i locator.seg_index) [
        | yes e ↦
            let grown = ap (λ s. length s.bytes.elements) (get_or-set_self w i seg no_segment lt) in
            let there = ap (λ k. length (get_or (set w i seg) k no_segment).bytes.elements) e in
            let before = ap (λ k. length (get_or w k no_segment).bytes.elements) e in
            omega (arith, grown, there, before)
        | no ne ↦ rw (get_or-set_ne w seg no_segment ne) at
      ],
    )
