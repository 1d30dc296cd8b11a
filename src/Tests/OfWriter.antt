-- ===== src/Tests/OfWriter.antt =====
-- A writer with two segments whose pointers go both ways, and a disk that takes every byte.
use tundra.BinaryWriter.{
  BinaryLocator, BinaryWriter, binary_writer_init, binary_writer_flush, Stdio, frozen_ptr_get,
  binary_segment_position, binary_segment_write_string_data, binary_segment_write_null_pointer,
  binary_segment_init,
}
use tundra.BinaryWriter.Segments.{WriterCall, run_writer_call, run_writer_calls, AreCalls, IsWriter}
use tundra.BinaryWriter.Calls.{run_writer_calls-IsWriter}
use tundra.BinaryWriter.Layout.{contents, aligned}
use tundra.BinaryWriter.Places.{IsTooBig, IsFile}
use tundra.BinaryWriter.File.{IsWritable, binary_writer_flush-IsFile}
use tundra.Prelude.{
  ℕ, ◌^◌, ◌<◌, ◌≡◌, ◌⊎◌, refl, List, [], ◌∷◌, ◌++◌, Bool, true, Option, none, some, length, arith,
}

abbrev other_segment : BinaryLocator
other_segment = record { seg_index = 1; offset = 2 }

abbrev first_segment : BinaryLocator
first_segment = record { seg_index = 0; offset = 0 }

abbrev calls : List WriterCall
calls =
    WriterCall.add_segment
    ∷ WriterCall.add_segment
    ∷ WriterCall.write 1 (7 ∷ 8 ∷ [])
    ∷ WriterCall.write_pointer 0 other_segment
    ∷ WriterCall.align 1 4
    ∷ WriterCall.write_pointer 1 first_segment
    ∷ WriterCall.write_pointer 1 other_segment
    ∷ []

abbrev writer : BinaryWriter
writer = run_writer_calls binary_writer_init calls

calls-AreCalls : AreCalls binary_writer_init calls
unfolding run_writer_call binary_writer_init
calls-AreCalls = (
  tt,
  (
    tt,
    (
      omega arith,
      (
        (omega arith, (omega arith, omega arith)),
        (
          omega arith,
          (
            (omega arith, (omega arith, omega arith)),
            ((omega arith, (omega arith, omega arith)), tt),
          ),
        ),
      ),
    ),
  ),
)

run_writer_calls-IsWriter_example : IsWriter writer
run_writer_calls-IsWriter_example = run_writer_calls-IsWriter calls calls-AreCalls

abbrev disk : Stdio
disk = record { fopen = λ path. true; fwrite = λ file bytes. (file ++ bytes, length bytes) }

disk-IsWritable : IsWritable disk []
disk-IsWritable = record { opens = refl; writes = λ file bytes. refl }

writer_size : length (contents (aligned writer)) ≡ 32
unfolding run_writer_calls binary_writer_init
writer_size = refl

writer_small : length (contents (aligned writer)) < 2 ^ 63
writer_small = omega (arith, writer_size)

binary_writer_flush-IsFile_example :
    ((binary_writer_flush disk writer [] ≡ none) × IsTooBig writer)
    ⊎ ((file : List ℕ) × (binary_writer_flush disk writer [] ≡ some (true, some file))
        × IsFile writer file)
binary_writer_flush-IsFile_example =
    binary_writer_flush-IsFile disk writer [] (run_writer_calls-IsWriter calls calls-AreCalls)
      writer_small disk-IsWritable

abbrev read_at : Option (Bool × Option (List ℕ)) → ℕ → Option ℕ
read_at (some (true, some file)) pos = some (frozen_ptr_get 1000 file pos)
read_at _ pos = none

-- The pointers at positions 0 and 20, in a file that is mapped at 1000.
pointers_run :
    (read_at (binary_writer_flush disk writer []) 0 ≡ some 1018)
    × (read_at (binary_writer_flush disk writer []) 20 ≡ some 1000)
unfolding run_writer_calls binary_writer_init binary_writer_flush frozen_ptr_get
pointers_run = (refl, refl)

-- A string with its zero, a null pointer behind it, and the position behind both.
position_runs :
    binary_segment_position (
      binary_segment_write_null_pointer
        (binary_segment_write_string_data (binary_segment_init 3) (b'a' ∷ [])))
    ≡ record { seg_index = 3; offset = 6 }
unfolding binary_segment_position binary_segment_write_null_pointer binary_segment_write_string_data
    binary_segment_init
position_runs = refl
