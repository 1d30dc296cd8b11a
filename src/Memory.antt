-- ===== src/Memory.antt =====
-- src/MemAllocLinear.cpp and MemAllocLinear.hpp: the bump allocator, its scopes and its string
-- copies; and the growth of src/Buffer.hpp. Addresses are offsets from the aligned base.
pub mod Linear
pub mod Growth
use Prim.Native.Nat.{bit_and}
use tundra.Prelude.{
  ℕ, suc, ◌+◌, ◌-◌, ◌*◌, ◌%◌, ◌^◌, Bool, List, [], ◌∷◌, ◌++◌, Option, none, some, if◌then◌else◌,
  ltb, leb, ◌==◌, length, get_or, take, replicate, ◌>>=◌, ◌>>◌, check,
}

abbrev pub max_alignment : ℕ
max_alignment = 64

-- `base_pointer` is the address that HeapAllocate returned, `pointer` the first aligned one.
pub record MemAllocLinear : Type 0 where
  pub base_pointer : ℕ
  pub pointer : ℕ
  pub size : ℕ
  pub offset : ℕ

-- `(x + align - 1) & ~(align - 1)` in a `size_t`
unfoldable pub align_up : ℕ → ℕ → ℕ
align_up x align =
    let y : ℕ = (x + align + (2 ^ 64 - 1)) % 2 ^ 64 in
    let mask : ℕ = (align + (2 ^ 64 - 1)) % 2 ^ 64 in y - bit_and y mask

-- `x - y` in a `size_t`
unfoldable pub size_minus : ℕ → ℕ → ℕ
size_minus x y = (x + (2 ^ 64 - y)) % 2 ^ 64

-- LinearAllocInit, with the address of the block of `max_size + kMaxAlignment - 1` bytes.
unfoldable pub linear_alloc_init : ℕ → ℕ → MemAllocLinear
unfolding align_up size_minus
linear_alloc_init base max_size =
    let aligned_base = align_up base max_alignment in
    record {
      base_pointer = base;
      pointer = aligned_base;
      size = size_minus max_size (size_minus aligned_base base);
      offset = 0;
    }

-- LinearAllocate: the address and the allocator after it; it croaks where there is no space. The sum
-- is that of a `size_t`.
unfoldable pub linear_allocate : MemAllocLinear → ℕ → ℕ → Option (ℕ × MemAllocLinear)
linear_allocate self size align = do
  check (bit_and align (align - 1) == 0)
  check (ltb 0 align)
  let offset = align_up self.offset align
  check (bit_and offset (align - 1) == 0)
  let end : ℕ = (offset + size) % 2 ^ 64
  (if leb end self.size then some (self.pointer + offset, record self { offset = end }) else none)

unfoldable pub linear_alloc_reset : MemAllocLinear → MemAllocLinear
linear_alloc_reset self = record self { offset = 0 }

-- MemAllocLinearScope: what its constructor saves, its destructor restores.
unfoldable pub in_scope :
    MemAllocLinear → (MemAllocLinear → Option MemAllocLinear) → Option MemAllocLinear
in_scope self body = body self >>= (λ after. some (record after { offset = self.offset }))

-- A Buffer: the elements up to m_Size, and m_Capacity.
pub record Buffer {ℓ} (A : Type ℓ) : Type ℓ where
  pub elements : List A
  pub capacity : ℕ

-- The capacity that BufferAlloc leaves. Its sums count elements in memory, so they do not wrap.
unfoldable pub grown_capacity : ℕ → ℕ → ℕ → ℕ
grown_capacity old_size capacity count =
    let new_capacity : ℕ = if capacity == 0 then 8 else capacity * 2 in
    if ltb capacity (old_size + count)
    then (if ltb new_capacity (old_size + count) then old_size + count else new_capacity)
    else capacity

module _ {ℓ} {A : Type ℓ} where
  unfoldable pub buffer_init : Buffer A
  buffer_init = record { elements = []; capacity = 0 }

  unfoldable pub buffer_clear : Buffer A → Buffer A
  buffer_clear b = record b { elements = [] }

  -- BufferAlloc and the writes that its callers make at once: BufferAppend. HeapReallocate keeps
  -- the old elements.
  unfoldable pub buffer_append : Buffer A → List A → Buffer A
  buffer_append b elems = record {
    elements = b.elements ++ elems;
    capacity = grown_capacity (length b.elements) b.capacity (length elems);
  }

  -- BufferAllocFill; BufferAllocZero fills with zeroes, and BufferAppendOne takes one element.
  unfoldable pub buffer_alloc_fill : Buffer A → ℕ → A → Buffer A
  unfolding buffer_append
  buffer_alloc_fill b count fill_value = buffer_append b (replicate count fill_value)

  unfoldable pub buffer_append_one : Buffer A → A → Buffer A
  unfolding buffer_append
  buffer_append_one b elem = buffer_append b (elem ∷ [])

  last_of : A → List A → A
  last_of d [] = d
  last_of d (x ∷ xs) = last_of x xs

  -- BufferPopOne
  unfoldable pub buffer_pop_one : Buffer A → Option (A × Buffer A)
  unfolding last_of
  buffer_pop_one b = elim b.elements [
    | [] ↦ none
    | x ∷ xs ↦ some (last_of x xs, record b { elements = take (length xs) (x ∷ xs) })
  ]
