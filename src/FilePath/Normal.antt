-- ===== src/FilePath/Normal.antt =====
-- The backward loop of PathInit over `..` against a stack that is filled from the left.
use mathlib.Core.List.{reverse, reverse-cons}
use native.Mathlib.Numerals.{add-one}
use tundra.FilePath.{PathSeg, drop_dot_dots}
use tundra.Prelude.{
  ℕ, zero, suc, ◌+◌, ◌-◌, ◌≡◌, refl, sym, ap, ◌∙◌, true, List, [], ◌∷◌, ◌++◌, append_assoc,
  append-nil, inl, inr, Bool-cases, length, drop, if◌then◌else◌, ltb, ◌==◌, arith,
}

-- The texts of the segments that are not dropped.
unfoldable pub kept : List PathSeg → List (List ℕ)
kept [] = []
kept (s ∷ ss) = if s.drop then kept ss else s.text ∷ kept ss

-- The usual reading of a path: `.` is nothing, `..` undoes the segment before it, and one with
-- nothing to undo goes up. The last segment is the first of the stack.
pub resolve : List PathSeg → ℕ → List (List ℕ) → ℕ × List (List ℕ)
resolve [] ups stack = (ups, reverse stack)
resolve (s ∷ ss) ups stack =
    if s.drop
    then resolve ss ups stack
    else if s.dotdot
    then resolve ss (if length stack == 0 then ups + 1 else ups) (drop 1 stack)
    else resolve ss ups (s.text ∷ stack)

drop-nil : (m : ℕ) → ◌≡◌ {A = List (List ℕ)} (drop m []) []
drop-nil zero = refl
drop-nil (suc m) = refl

-- Undoing one segment and then `n` more undoes `n + 1`.
drop-drop : (n : ℕ) (st : List (List ℕ)) → drop n (drop 1 st) ≡ drop (n + 1) st
drop-drop n [] = drop-nil n ∙ sym (drop-nil (n + 1))
drop-drop n (x ∷ st) = rw add-one

ups_undo :
    (n ups : ℕ) (st : List (List ℕ))
    → (if length st == 0 then ups + 1 else ups) + (n - length (drop 1 st))
      ≡ ups + (n + 1 - length st)
ups_undo n ups [] = omega arith
ups_undo n ups (x ∷ st) = ground arith

drop-cons_pos :
    (n : ℕ) (x : List ℕ) (st : List (List ℕ)) → ltb 0 n ≡ true → drop n (x ∷ st) ≡ drop (n - 1) st
drop-cons_pos zero x st h = cc
drop-cons_pos (suc n) x st h = ap (λ k. drop k st) (omega arith)

reverse-cons-append :
    (t : List ℕ) (st ks : List (List ℕ)) → reverse (t ∷ st) ++ ks ≡ reverse st ++ t ∷ ks
reverse-cons-append t st ks =
    ap (λ l. l ++ ks) (reverse-cons t st) ∙ append_assoc (reverse st) (t ∷ []) ks

-- What `resolve` gives for the segments `ss`, if the loop of PathInit makes `ks` and `n` of them.
abbrev Resolved : List PathSeg → ℕ → List (List ℕ) → ℕ → List (List ℕ) → Type 0
Resolved ss n ks ups stack =
    ((resolve ss ups stack).0 ≡ ups + (n - length stack))
    × ((resolve ss ups stack).1 ≡ reverse (drop n stack) ++ ks)

resolve_drops :
    (ss : List PathSeg) (ups : ℕ) (stack : List (List ℕ))
    → Resolved ss (drop_dot_dots ss).1 (kept (drop_dot_dots ss).0) ups stack
unfolding resolve drop_dot_dots kept
resolve_drops [] ups stack = (omega arith, sym (append-nil (reverse stack)))
resolve_drops (s ∷ ss) ups stack =
    let n = (drop_dot_dots ss).1 in
    let ks = kept (drop_dot_dots ss).0 in
    let ups' : ℕ = if length stack == 0 then ups + 1 else ups in
    let undo = resolve_drops ss ups' (drop 1 stack) in
    let push = resolve_drops ss ups (s.text ∷ stack) in
    let skip = resolve_drops ss ups stack in
    let undone : reverse (drop n (drop 1 stack)) ++ ks ≡ reverse (drop (n + 1) stack) ++ ks =
      ap (λ l. reverse l ++ ks) (drop-drop n stack) in
    let popped : ltb 0 n ≡ true
        → reverse (drop n (s.text ∷ stack)) ++ ks ≡ reverse (drop (n - 1) stack) ++ ks =
      λ h. ap (λ l. reverse l ++ ks) (drop-cons_pos n s.text stack h) in
    let pushed = reverse-cons-append s.text stack ks in
    elim (Bool-cases s.drop) [
      | inl d ↦ ground (arith, skip)
      | inr d ↦ elim (Bool-cases s.dotdot) [
        | inl dd ↦ ground (arith, undo, undone, ups_undo n ups stack)
        | inr dd ↦ elim (Bool-cases (ltb 0 n)) [
          | inl p ↦ ground (arith, push, popped p)
          | inr p ↦
              let z : n ≡ 0 = ground arith in
              ground (
                arith,
                push,
                pushed,
                ap (λ k. reverse (drop k (s.text ∷ stack)) ++ ks) z,
                ap (λ k. reverse (drop k stack) ++ s.text ∷ ks) z,
              )
        ]
      ]
    ]

-- The segments that the loop keeps and the number of `..` that it is left with are those of the
-- usual reading.
pub drop_dot_dots-resolve :
    (ss : List PathSeg)
    → ((drop_dot_dots ss).1 ≡ (resolve ss 0 []).0)
      × (kept (drop_dot_dots ss).0 ≡ (resolve ss 0 []).1)
drop_dot_dots-resolve ss =
    let r = resolve_drops ss 0 [] in
    (
      omega (arith, r.0),
      sym (r.1 ∙ ap (λ l. reverse l ++ kept (drop_dot_dots ss).0) (drop-nil (drop_dot_dots ss).1)),
    )
