-- ===== src/Tests/OfRing.antt =====
-- A ring of four places that holds two indices, round its end.
use tundra.Build.Ring.{Ring, IsRing, contents, put, fetch}
use tundra.Build.Ring.Fifo.{available-length, contents-put, contents-fetch}
use tundra.Prelude.{◌≡◌, refl, [], ◌∷◌, ◌++◌, arith}

abbrev wrapped : Ring
wrapped = record { queue = 8 ∷ 5 ∷ 6 ∷ 7 ∷ []; capacity = 4; read_index = 3; write_index = 1 }

wrapped-IsRing : IsRing wrapped
wrapped-IsRing = record {
  shift = 2;
  shift_le = omega arith;
  is_power = refl;
  allocated = refl;
  read_in = omega arith;
  write_in = omega arith;
}

put_runs : contents (put wrapped 9) ≡ 7 ∷ 8 ∷ 9 ∷ []
put_runs = contents-put 9 wrapped-IsRing (omega arith)

contents-put_example : contents (put wrapped 9) ≡ (7 ∷ 8 ∷ []) ++ (9 ∷ [])
contents-put_example = contents-put 9 wrapped-IsRing (omega arith)

contents-fetch_example : 7 ∷ 8 ∷ [] ≡ (fetch wrapped).0 ∷ contents (fetch wrapped).1
contents-fetch_example =
    contents-fetch wrapped-IsRing (omega (arith, available-length wrapped-IsRing))
