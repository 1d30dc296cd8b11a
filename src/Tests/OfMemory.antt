-- ===== src/Tests/OfMemory.antt =====
-- An allocator of 64 bytes of which 10 are taken, and a full buffer of two numbers.
use tundra.Memory.{MemAllocLinear, align_up, linear_allocate, Buffer, buffer_append}
use tundra.Memory.Linear.{linear_allocate_lem}
use tundra.Memory.Growth.{IsBuffer, buffer_append-IsBuffer}
use tundra.Prelude.{
  ℕ, ◌+◌, ◌-◌, ◌%◌, ◌^◌, leb, if◌then◌else◌, refl, ◌≤◌, ◌<◌, ◌≡◌, ◌⊎◌, [], ◌∷◌, none, some, arith,
}

abbrev scratch : MemAllocLinear
scratch = record { base_pointer = 1000; pointer = 1024; size = 64; offset = 10 }

rounded : align_up 10 8 ≡ 16
unfolding align_up
rounded = refl

linear_allocate_lem_example :
    let off = align_up 10 8 in
    (10 ≤ off)
    × (off < 18)
    × (off % 8 ≡ 0)
    × (((64 < off + 4) × (off + 4 < 2 ^ 64) × (linear_allocate scratch 4 8 ≡ none))
        ⊎ ((off + 4 ≤ 64)
            × (linear_allocate scratch 4 8
                ≡ some (1024 + off, record scratch { offset = off + 4 })))
        ⊎ ((2 ^ 64 ≤ off + 4)
            × (linear_allocate scratch 4 8 ≡ (
                if leb (off + 4 - 2 ^ 64) 64
                then some (1024 + off, record scratch { offset = off + 4 - 2 ^ 64 })
                else none))))
linear_allocate_lem_example =
    linear_allocate_lem scratch 4 3 (omega arith) (omega arith) (omega arith)

-- A block that fits, one that does not, and one whose end wraps.
allocate_runs :
    (linear_allocate scratch 4 8 ≡ some (1040, record scratch { offset = 20 }))
    × (linear_allocate scratch 60 8 ≡ none)
    × (linear_allocate scratch (2 ^ 64 - 12) 8 ≡ some (1040, record scratch { offset = 4 }))
unfolding linear_allocate align_up
allocate_runs = (refl, refl, refl)

abbrev pair : Buffer ℕ
pair = record { elements = 4 ∷ 5 ∷ []; capacity = 2 }

buffer_append-IsBuffer_example :
    IsBuffer (buffer_append pair (6 ∷ []))
    × (2 ≤ (buffer_append pair (6 ∷ [])).capacity)
    × (2 < 3 → 4 ≤ (buffer_append pair (6 ∷ [])).capacity)
buffer_append-IsBuffer_example = buffer_append-IsBuffer pair (6 ∷ []) (omega arith)
