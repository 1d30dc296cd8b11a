-- ===== src/FilePath.antt =====
-- src/PathUtil.cpp and PathUtil.hpp: path buffers, their construction from text, their
-- concatenation and their printing. Bytes are numbers; text ends at its first zero byte in the
-- source and at the end of the list here. Texts are shorter than 2^16 bytes, as the `uint16_t`
-- offsets of PathSeg want it.
pub mod Normal
pub mod Segments
pub mod Buffers
use tundra.Prelude.{
  ℕ, zero, suc, ◌+◌, ◌-◌, ◌%◌, ◌^◌, Bool, true, false, not, ◌&&◌, ◌||◌, List, [], ◌∷◌, ◌++◌, Option,
  none, some, if◌then◌else◌, ltb, leb, ◌==◌, length, get_or, take, drop, ◌>>=◌, ◌>>◌, check,
}

pub data PathType : Type 0 where
  unix windows : PathType

-- m_SegEnds up to m_SegCount, and as much of m_Data as was written. The two bits of m_Flags are
-- Booleans.
pub record PathBuffer : Type 0 where
  pub type : PathType
  pub absolute : Bool
  pub windows_device_path : Bool
  pub leading_dot_dots : ℕ
  pub seg_ends : List ℕ
  pub bytes : List ℕ

abbrev pub max_path_length : ℕ
max_path_length = 512

abbrev pub max_path_segments : ℕ
max_path_segments = 64

-- A PathSeg, with the bytes that its offset and length delimit.
pub record PathSeg : Type 0 where
  pub text : List ℕ
  pub dotdot : Bool
  pub drop : Bool

unfoldable pub is_separator : ℕ → Bool
is_separator c = c == b'\\' || c == b'/'

is_dotdot : List ℕ → Bool
is_dotdot (a ∷ b ∷ []) = a == b'.' && b == b'.'
is_dotdot _ = false

is_dot : List ℕ → Bool
is_dot (a ∷ []) = a == b'.'
is_dot _ = false

-- The segment that ends at a separator or at the end of the text; an empty one is none.
unfoldable pub make_seg : List ℕ → List PathSeg
unfolding is_dotdot is_dot
make_seg [] = []
make_seg (c ∷ cs) =
    record { text = c ∷ cs; dotdot = is_dotdot (c ∷ cs); drop = is_dot (c ∷ cs) } ∷ []

-- The loop of PathGetSegments, with the bytes since `last` that it has passed.
unfoldable pub segments_from : List ℕ → List ℕ → List PathSeg
unfolding make_seg is_separator
segments_from current [] = make_seg current
segments_from current (c ∷ cs) =
    (if is_separator c then make_seg current else [])
    ++ segments_from (if is_separator c then [] else current ++ c ∷ []) cs

-- Croaks at the 65th segment.
unfoldable pub get_segments : List ℕ → Option (List PathSeg)
unfolding segments_from
get_segments path =
    let segments = segments_from [] path in
    if leb (length segments) max_path_segments then some segments else none

-- The loop of PathInit that drops segments, from the last to the first, with dotdot_drops.
unfoldable pub drop_dot_dots : List PathSeg → List PathSeg × ℕ
drop_dot_dots [] = ([], 0)
drop_dot_dots (s ∷ ss) =
    let (rest, drops) = drop_dot_dots ss in
    if s.drop
    then (s ∷ rest, drops)
    else if s.dotdot
    then (record s { drop = true } ∷ rest, drops + 1)
    else if ltb 0 drops
    then (record s { drop = true } ∷ rest, drops - 1)
    else (s ∷ rest, drops)

-- The loop of PathInit that copies what is left, with the bytes copied so far.
unfoldable pub copy_segments : List PathSeg → List ℕ → Option (List ℕ × List ℕ)
copy_segments [] bytes = some ([], bytes)
copy_segments (s ∷ ss) bytes =
    let copied = copy_segments ss (bytes ++ s.text) in
    let skipped = copy_segments ss bytes in
    if s.drop
    then skipped
    else if leb max_path_length (length bytes)
    then none
    else copied >>= (λ (ends, all). some (length (bytes ++ s.text) ∷ ends, all))

is_alpha : ℕ → Bool
is_alpha c = (leb b'a' c && leb c b'z') || (leb b'A' c && leb c b'Z')

-- The flags, and the text that is left to be cut into segments.
unfoldable pub path_prefix : PathType → List ℕ → Bool × Bool × List ℕ
unfolding is_separator is_alpha
path_prefix PathType.unix [] = (false, false, [])
path_prefix PathType.unix (c ∷ cs) = if c == b'/' then (true, false, cs) else (false, false, c ∷ cs)
path_prefix PathType.windows path =
    if is_separator (get_or path 0 0)
    then (true, false, drop 1 path)
    else if is_alpha (get_or path 0 0) && get_or path 1 0 == b':' && is_separator (get_or path 2 0)
    then (true, true, path)
    else (false, false, path)

unfoldable pub path_init : List ℕ → PathType → Option PathBuffer
path_init path type = do
  let (absolute, device, rest) = path_prefix type path
  segments ← get_segments rest
  let (kept, drops) = drop_dot_dots segments
  (ends, bytes) ← copy_segments kept []
  some (record {
    type = type;
    absolute = absolute;
    windows_device_path = device;
    leading_dot_dots = drops;
    seg_ends = ends;
    bytes = bytes;
  })

-- m_SegEnds[count - 1], or 0; BufferSize
unfoldable pub buffer_size : PathBuffer → ℕ → ℕ
buffer_size b zero = 0
buffer_size b (suc n) = get_or b.seg_ends n 0

unfoldable pub seg_length : PathBuffer → ℕ → ℕ
seg_length b zero = get_or b.seg_ends 0 0
seg_length b (suc i) = get_or b.seg_ends (suc i) 0 - get_or b.seg_ends i 0

abbrev pub min_seg_count : PathBuffer → ℕ
min_seg_count b = if b.windows_device_path then 1 else 0

unfoldable pub path_strip_last : PathBuffer → Bool × PathBuffer
path_strip_last b =
    let count = length b.seg_ends in
    if ltb (min_seg_count b) count
    then (true, record b { seg_ends = take (count - 1) b.seg_ends })
    else (false, b)

-- `memcmp(a, b, n) == 0`
unfoldable pub same_bytes : ℕ → List ℕ → List ℕ → Bool
same_bytes zero xs ys = true
same_bytes (suc n) xs ys = get_or xs 0 0 == get_or ys 0 0 && same_bytes n (drop 1 xs) (drop 1 ys)

-- operator== of PathUtil.hpp
unfoldable pub path_eq : PathBuffer → PathBuffer → Bool
path_eq a b =
    if not (length a.seg_ends == length b.seg_ends)
    then false
    else if length a.seg_ends == 0
    then true
    else same_bytes (length a.seg_ends) a.seg_ends b.seg_ends
      && same_bytes (seg_length a (length a.seg_ends - 1)) a.bytes b.bytes

-- The loop of PathConcatImpl over the other path's leading `..`, with seg_count and
-- m_LeadingDotDots.
unfoldable pub climb : ℕ → ℕ → ℕ → ℕ → ℕ × ℕ
climb min_count zero count dots = (count, dots)
climb min_count (suc n) count dots =
    climb min_count n (if ltb min_count count then count - 1 else count)
      (if ltb min_count count then dots else if count == 0 then dots + 1 else dots)

-- The other path's segment ends, behind the bytes that are kept.
unfoldable pub shift_ends : ℕ → List ℕ → List ℕ
shift_ends keep [] = []
shift_ends keep (e ∷ es) = ((e + keep) % 2 ^ 16) ∷ shift_ends keep es

-- PathConcat and PathConcatImpl
unfoldable pub path_concat : PathBuffer → PathBuffer → Option PathBuffer
path_concat b other = if other.absolute then some other else do
  let (count, dots) =
      climb (min_seg_count b) other.leading_dot_dots (length b.seg_ends) b.leading_dot_dots
  let keep = buffer_size b count
  let other_size = buffer_size other (length other.seg_ends)
  check (leb (count + length other.seg_ends) max_path_segments)
  check (leb (keep + other_size) max_path_length)
  some (record b {
    leading_dot_dots = if b.absolute then 0 else dots;
    seg_ends = take count b.seg_ends ++ shift_ends keep other.seg_ends;
    bytes = take keep b.bytes ++ take other_size other.bytes;
  })

-- The bytes of each segment, as SegLength and the running offset of PathFormatPartial cut them.
unfoldable pub segments_after : ℕ → List ℕ → List ℕ → List (List ℕ)
segments_after start [] bytes = []
segments_after start (e ∷ es) bytes =
    take (e - start) (drop start bytes) ∷ segments_after e es bytes

unfoldable pub segments : PathBuffer → List (List ℕ)
unfolding segments_after
segments b = segments_after 0 b.seg_ends b.bytes

unfoldable pub path_separator : PathType → ℕ
path_separator PathType.unix = b'/'
path_separator PathType.windows = b'\\'

dot_dots : ℕ → ℕ → List ℕ
dot_dots sep zero = []
dot_dots sep (suc n) = b'.' ∷ b'.' ∷ sep ∷ dot_dots sep n

-- The loop over the segments, with the bytes that were written.
unfoldable pub format_loop : ℕ → Bool → List (List ℕ) → List ℕ → Option (List ℕ)
format_loop sep first [] out = some out
format_loop sep first (s ∷ ss) out =
    let rest = format_loop sep false ss (out ++ ((if first then [] else sep ∷ []) ++ s)) in
    if leb max_path_length (length out + length s + 1) then none else rest

-- PathFormat: PathFormatPartial from the first segment to the last.
unfoldable pub path_format : PathBuffer → Option (List ℕ)
unfolding path_separator dot_dots format_loop segments
path_format b =
    let sep = path_separator b.type in
    let root : List ℕ = if b.absolute && not b.windows_device_path then sep ∷ [] else [] in
    format_loop sep true (segments b) (root ++ dot_dots sep b.leading_dot_dots)
