-- ===== src/Build/Actions/Decision.antt =====
-- When CheckInputSignature finds that a node need not be built.
use tundra.Build.Node.{BuildProgress}
use tundra.Prelude.Strings.{same_string_iff}
use tundra.Build.Actions.{
  PreviousState, output_files_differ, output_files_missing, next_after_check,
}
use tundra.Prelude.{
  ℕ, ◌≡◌, refl, ap, ◌↔◌, Bool, true, false, List, [], ◌∷◌, Option, none, some, arith,
}

output_files_differ→eq : (a b : List (List ℕ)) → output_files_differ a b ≡ false → a ≡ b
unfolding output_files_differ
output_files_differ→eq [] [] h = refl
output_files_differ→eq [] (y ∷ ys) h = cc
output_files_differ→eq (x ∷ xs) [] h = cc
output_files_differ→eq (x ∷ xs) (y ∷ ys) h =
    ground (arith, same_string_iff x y, output_files_differ→eq xs ys)

output_files_differ_refl : (a : List (List ℕ)) → output_files_differ a a ≡ false
unfolding output_files_differ
output_files_differ_refl [] = refl
output_files_differ_refl (x ∷ xs) = ground (arith, same_string_iff x x, output_files_differ_refl xs)

-- Every file of the list exists.
abbrev pub AllExist : (List ℕ → Bool) → List (List ℕ) → Type 0
AllExist exists [] = Unit
AllExist exists (f ∷ fs) = (exists f ≡ true) × AllExist exists fs

output_files_missing→AllExist :
    (exists : List ℕ → Bool) (fs : List (List ℕ))
    → output_files_missing exists fs ≡ false
    → AllExist exists fs
unfolding output_files_missing
output_files_missing→AllExist exists [] h = tt
output_files_missing→AllExist exists (f ∷ fs) h =
    ground (arith, output_files_missing→AllExist exists fs)

AllExist→output_files_missing :
    (exists : List ℕ → Bool) (fs : List (List ℕ))
    → AllExist exists fs
    → output_files_missing exists fs ≡ false
unfolding output_files_missing
AllExist→output_files_missing exists [] h = refl
AllExist→output_files_missing exists (f ∷ fs) h =
    ground (arith, AllExist→output_files_missing exists fs h.1)

module _ {ℓ} {Digest : Type ℓ} (same : Digest → Digest → Bool) (exists : List ℕ → Bool) where
  -- A node is up to date exactly if the last build recorded it, with the same input signature, a
  -- build that did not fail, the same output files in the same order, and all of them exist.
  pub next_after_check-up_to_date :
      (prev : Option (PreviousState Digest)) (signature : Digest) (outputs : List (List ℕ))
      → (next_after_check same exists prev signature outputs ≡ BuildProgress.up_to_date) ↔ (
          (p : PreviousState Digest) × (prev ≡ some p)
          × (same p.input_signature signature ≡ true)
          × (p.build_result ≡ 0)
          × (outputs ≡ p.output_files)
          × AllExist exists outputs)
  unfolding next_after_check
  next_after_check-up_to_date none signature outputs = (λ h. cc, λ w. cc (w.1))
  next_after_check-up_to_date (some p) signature outputs = (
    λ h. (
      p,
      refl,
      ground arith,
      ground arith,
      ground (arith, output_files_differ→eq outputs p.output_files),
      ground (arith, output_files_missing→AllExist exists outputs),
    ),
    λ w. back w.0 (cc (w.1)) w.2 w.3 w.4 w.5,
  )
    where
      back :
          (p' : PreviousState Digest)
          → p ≡ p'
          → same p'.input_signature signature ≡ true
          → p'.build_result ≡ 0
          → outputs ≡ p'.output_files
          → AllExist exists outputs
          → next_after_check same exists (some p) signature outputs ≡ BuildProgress.up_to_date
      back p' e s b o x = ground (
        arith,
        output_files_differ_refl outputs,
        AllExist→output_files_missing exists outputs x,
        ap (λ r. same r.input_signature signature) e,
        ap (λ r. r.build_result) e,
        ap (λ r. output_files_differ outputs r.output_files) e,
        ap (output_files_differ outputs) o,
      )
