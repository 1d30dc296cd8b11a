-- ===== src/BinaryWriter.antt =====
-- src/BinaryWriter.cpp and BinaryWriter.hpp: the segments of a binary file, with the pointers in them
-- that are made relative when the file is written, and FrozenPtr of src/BinaryData.hpp, which reads
-- them. Integers of 32 and 64 bits stand as their two's complement.
pub mod Segments
pub mod Fixups
pub mod Calls
pub mod Layout
pub mod Pointers
pub mod Places
pub mod File
use tundra.Prelude.Bytes.{to_bytes, overwrite, read_bytes}
use tundra.Memory.{Buffer, buffer_append, buffer_append_one, align_up, size_minus}
use tundra.Prelude.{
  ℕ, zero, suc, ◌+◌, ◌-◌, ◌*◌, ◌%◌, ◌^◌, Bool, true, false, List, [], ◌∷◌, ◌++◌, map, Option, none,
  some, if◌then◌else◌, ltb, ◌==◌, length, get_or, ◌>>=◌,
}

pub record BinaryLocator : Type 0 where
  pub seg_index : ℕ
  pub offset : ℕ

pub record BinaryFixup : Type 0 where
  pub pointer_offset : ℕ
  pub target : BinaryLocator

pub record BinarySegment : Type 0 where
  pub index : ℕ
  pub global_offset : ℕ
  pub bytes : Buffer ℕ
  pub fixups : Buffer BinaryFixup

-- BinaryWriter, and the segments that it points to.
abbrev pub BinaryWriter : Type 0
BinaryWriter = List BinarySegment

unfoldable pub binary_segment_size : BinarySegment → ℕ
binary_segment_size self = length self.bytes.elements

-- BinarySegmentInit
unfoldable pub binary_segment_init : ℕ → BinarySegment
binary_segment_init index = record {
  index = index;
  global_offset = 2 ^ 64 - 1;
  bytes = record { elements = []; capacity = 128 * 1024 };
  fixups = record { elements = []; capacity = 4096 };
}

-- The loop of BinarySegmentAlign
unfoldable pub append_filler : ℕ → Buffer ℕ → Buffer ℕ
unfolding buffer_append_one
append_filler zero bytes = bytes
append_filler (suc delta) bytes = append_filler delta (buffer_append_one bytes 0xfe)

unfoldable pub binary_segment_align : BinarySegment → ℕ → BinarySegment
unfolding append_filler align_up size_minus
binary_segment_align self alignment =
    let offset = length self.bytes.elements in
    let aligned = align_up offset alignment in
    record self { bytes = append_filler (size_minus aligned offset) self.bytes }

-- BinarySegmentWrite, and BinarySegmentAlloc with what the caller stores in the bytes.
unfoldable pub binary_segment_write : BinarySegment → List ℕ → BinarySegment
unfolding buffer_append
binary_segment_write seg content = record seg { bytes = buffer_append seg.bytes content }

-- BinarySegmentWriteUint8, of Int16, Int32, Uint32, Int64 and Uint64, by the size in bytes.
unfoldable pub binary_segment_write_int : ℕ → BinarySegment → ℕ → BinarySegment
unfolding binary_segment_write
binary_segment_write_int size seg v = binary_segment_write seg (to_bytes size v)

unfoldable pub binary_segment_write_string_data : BinarySegment → List ℕ → BinarySegment
unfolding binary_segment_write
binary_segment_write_string_data seg s = binary_segment_write seg (s ++ 0 ∷ [])

unfoldable pub binary_segment_write_null_pointer : BinarySegment → BinarySegment
unfolding binary_segment_write_int
binary_segment_write_null_pointer seg = binary_segment_write_int 4 seg 0

unfoldable pub binary_segment_write_pointer : BinarySegment → BinaryLocator → BinarySegment
unfolding buffer_append_one binary_segment_write_int
binary_segment_write_pointer seg locator =
    let fixup : BinaryFixup = record {
      pointer_offset = length seg.bytes.elements;
      target = locator;
    } in
    binary_segment_write_int 4 (record seg { fixups = buffer_append_one seg.fixups fixup })
      0x7eeeeeee

unfoldable pub binary_segment_position : BinarySegment → BinaryLocator
binary_segment_position self = record {
  seg_index = self.index;
  offset = length self.bytes.elements;
}

-- An `int32_t` as the `int64_t` of its value.
unfoldable pub sign_extend : ℕ → ℕ
sign_extend w = if ltb w (2 ^ 31) then w else w + (2 ^ 64 - 2 ^ 32)

-- `dest_pos - source_pos`
unfoldable pub relocation : ℕ → ℕ → ℕ
relocation source_pos dest_pos = (dest_pos + (2 ^ 64 - source_pos)) % 2 ^ 64

-- No segment: read at no index that a fixup has.
abbrev pub no_segment : BinarySegment
no_segment = record {
  index = 0;
  global_offset = 0;
  bytes = record { elements = []; capacity = 0 };
  fixups = record { elements = []; capacity = 0 };
}

-- `segs[target.m_SegIndex]->m_GlobalOffset + target.m_Offset`
unfoldable pub target_pos : List BinarySegment → BinaryLocator → ℕ
target_pos segs target =
    ((get_or segs target.seg_index no_segment).global_offset + target.offset) % 2 ^ 64

-- One round of the loop of BinarySegmentFixupPointers: it croaks where the distance has no 32 bits.
unfoldable pub fixup_pointer : ℕ → List BinarySegment → BinaryFixup → List ℕ → Option (List ℕ)
unfolding sign_extend relocation target_pos
fixup_pointer my_seg_base segs fixup bytes =
    let source_pos = (my_seg_base + fixup.pointer_offset) % 2 ^ 64 in
    let delta = relocation source_pos (target_pos segs fixup.target) in
    let delta32 = delta % 2 ^ 32 in
    if sign_extend delta32 == delta
    then some (overwrite bytes fixup.pointer_offset (to_bytes 4 delta32))
    else none

unfoldable pub fixup_pointers : ℕ → List BinarySegment → List BinaryFixup → List ℕ → Option (List ℕ)
unfolding fixup_pointer
fixup_pointers my_seg_base segs [] bytes = some bytes
fixup_pointers my_seg_base segs (fixup ∷ fixups) bytes =
    fixup_pointer my_seg_base segs fixup bytes
    >>= (λ bytes'. fixup_pointers my_seg_base segs fixups bytes')

unfoldable pub binary_segment_fixup_pointers :
    List BinarySegment → BinarySegment → Option BinarySegment
unfolding fixup_pointers
binary_segment_fixup_pointers segs self =
    fixup_pointers self.global_offset segs self.fixups.elements self.bytes.elements
    >>= (λ bytes. some (record self { bytes = record self.bytes { elements = bytes } }))

-- BinaryWriterInit, and BinaryWriterDestroy, which frees the segments.
unfoldable pub binary_writer_init : BinaryWriter
binary_writer_init = []

unfoldable pub binary_writer_add_segment : BinaryWriter → BinaryWriter
unfolding binary_segment_init
binary_writer_add_segment self = self ++ binary_segment_init (length self) ∷ []

-- The loops of BinaryWriterFinalize: the global positions, and the fixups of one segment after the
-- other. Neither changes what the others read of a segment.
unfoldable pub global_positions : ℕ → List BinarySegment → List BinarySegment
unfolding binary_segment_size
global_positions offset [] = []
global_positions offset (seg ∷ segs) =
    record seg { global_offset = offset }
    ∷ global_positions ((offset + binary_segment_size seg) % 2 ^ 64) segs

unfoldable pub fixup_all : List BinarySegment → List BinarySegment → Option (List BinarySegment)
unfolding binary_segment_fixup_pointers
fixup_all segs [] = some []
fixup_all segs (seg ∷ rest) = do
  seg' ← binary_segment_fixup_pointers segs seg
  rest' ← fixup_all segs rest
  some (seg' ∷ rest')

unfoldable pub binary_writer_finalize : BinaryWriter → Option BinaryWriter
unfolding binary_segment_align global_positions fixup_all
binary_writer_finalize w =
    let segs = global_positions 0 (map (λ seg. binary_segment_align seg 16) w) in
    fixup_all segs segs

-- fopen for a path to be written, and fwrite: the contents behind a file's, and the bytes written.
pub record Stdio : Type 0 where
  pub fopen : List ℕ → Bool
  pub fwrite : List ℕ → List ℕ → List ℕ × ℕ

-- The loop of BinaryWriterFlush: whether all was written, and the file's contents.
unfoldable pub write_segments : Stdio → List BinarySegment → List ℕ → Bool × List ℕ
write_segments io [] file = (true, file)
write_segments io (seg ∷ segs) file =
    let out = io.fwrite file seg.bytes.elements in
    let rest = write_segments io segs out.0 in
    if length seg.bytes.elements == out.1 then rest else (false, out.0)

-- BinaryWriterFlush: no value where it croaks; no contents where the file cannot be opened.
unfoldable pub binary_writer_flush : Stdio → BinaryWriter → List ℕ → Option (Bool × Option (List ℕ))
unfolding binary_writer_finalize write_segments
binary_writer_flush io self out_fn = binary_writer_finalize self >>= (λ segs.
    if io.fopen out_fn
    then (let (success, file) = write_segments io segs [] in some (success, some file))
    else some (false, none))

-- FrozenPtr::Get, of the pointer at position `pos` of a file that is mapped at an address.
unfoldable pub frozen_ptr_get : ℕ → List ℕ → ℕ → ℕ
unfolding sign_extend
frozen_ptr_get address file pos =
    let offset = read_bytes 4 file pos in
    let target = (address + pos + sign_extend offset) % 2 ^ 64 in if offset == 0 then 0 else target
