-- ===== src/FileEdits/Script.antt =====
-- What a patch is meant to do (app/file_edits.py): an edit script turns one text into another, and
-- its hunks, applied to the first, give the second.
use environments_api.Common.{
  ℕ, zero, suc, ◌+◌, ◌-◌, ◌≡◌, refl, sym, ap, ◌∙◌, true, false, List, [], ◌∷◌, ◌++◌, append-nil,
  append_assoc, arith, ltb, le→ltb_false, length, take, drop, length-append,
}
use environments_api.FileEdits.{
  Line, Hunk, line_eq, lines_eq, slice, Progress, fits, apply_hunk, apply_hunks, apply_parsed,
}

-- Lines that stay, and then lines that are replaced.
pub record Edit : Type 0 where
  pub kept : List Line
  pub old : List Line
  pub new : List Line

-- The text before the edits and the one after, with the lines behind the last edit.
unfoldable pub before : List Edit → List Line → List Line
before [] tail = tail
before (e ∷ es) tail = e.kept ++ (e.old ++ before es tail)

unfoldable pub after : List Edit → List Line → List Line
after [] tail = tail
after (e ∷ es) tail = e.kept ++ (e.new ++ after es tail)

-- The hunks of the edits, from a line on.
unfoldable pub hunks_from : ℕ → List Edit → List Hunk
hunks_from at [] = []
hunks_from at (e ∷ es) =
    record { start = at + length e.kept; old = e.old; new = e.new }
    ∷ hunks_from (at + length e.kept + length e.old) es

-- The numbers from one on, one for each edit.
unfoldable pub numbers : ℕ → List Edit → List ℕ
numbers n [] = []
numbers n (e ∷ es) = n ∷ numbers (n + 1) es

line_eq_refl : (l : Line) → line_eq l l ≡ true
unfolding line_eq
line_eq_refl [] = refl
line_eq_refl (x ∷ xs) = let ih = line_eq_refl xs in ground (arith, ih)

lines_eq_refl : (ls : List Line) → lines_eq ls ls ≡ true
unfolding lines_eq
lines_eq_refl [] = refl
lines_eq_refl (x ∷ xs) = rw (line_eq_refl x, lines_eq_refl xs) refl

drop-append_length : (n : ℕ) (xs ys : List Line) → n ≡ length xs → drop n (xs ++ ys) ≡ ys
drop-append_length zero [] ys h = refl
drop-append_length (suc n) [] ys h = absurd (omega arith)
drop-append_length zero (x ∷ xs) ys h = absurd (omega arith)
drop-append_length (suc n) (x ∷ xs) ys h = drop-append_length n xs ys (omega arith)

take-append_length : (n : ℕ) (xs ys : List Line) → n ≡ length xs → take n (xs ++ ys) ≡ xs
take-append_length zero [] ys h = refl
take-append_length (suc n) [] ys h = absurd (omega arith)
take-append_length zero (x ∷ xs) ys h = absurd (omega arith)
take-append_length (suc n) (x ∷ xs) ys h =
    ap (λ l. x ∷ l) (take-append_length n xs ys (omega arith))

-- A part of a text that is written out is the slice at its place.
slice-append :
    (pre mid post : List Line) (from to : ℕ)
    → from ≡ length pre
    → to ≡ length pre + length mid
    → slice (pre ++ (mid ++ post)) from to ≡ mid
slice-append pre mid post from to h k =
    rw (drop-append_length from pre (mid ++ post) h)
      (take-append_length (to - from) mid post (omega arith))

fits-script :
    (pre : List Line) (e : Edit) (rest : List Line) (at : ℕ)
    → at ≡ length pre
    → fits
        (pre ++ (e.kept ++ (e.old ++ rest)))
        (record { start = at + length e.kept; old = e.old; new = e.new })
      ≡ true
unfolding fits
fits-script pre e rest at h =
    let a = length-append pre e.kept in
    let b = length-append pre (e.kept ++ (e.old ++ rest)) in
    let c = length-append e.kept (e.old ++ rest) in
    let s : slice (pre ++ (e.kept ++ (e.old ++ rest))) (at + length e.kept)
          (at + length e.kept + length e.old)
        ≡ e.old =
      rw (sym (append_assoc pre e.kept (e.old ++ rest))) (
        slice-append (pre ++ e.kept) e.old rest (at + length e.kept)
          (at + length e.kept + length e.old) (omega arith) (omega arith)) in
    let t : ltb (length (pre ++ (e.kept ++ (e.old ++ rest)))) (at + length e.kept) ≡ false =
      le→ltb_false _ _ (omega (arith, b, c, h)) in
    rw (t, s) (lines_eq_refl e.old)

-- The loop's variables after a hunk of the script.
abbrev stepped : ℕ → Edit → ℕ → Progress → Progress
stepped at e number p = record p {
  output = p.output ++ e.kept ++ e.new;
  cursor = at + length e.kept + length e.old;
  applied = p.applied ++ (number ∷ []);
}

apply_hunk-script :
    (pre : List Line) (e : Edit) (rest : List Line) (at number : ℕ) (p : Progress)
    → at ≡ length pre
    → p.cursor ≡ at
    → apply_hunk
        (pre ++ (e.kept ++ (e.old ++ rest)))
        number
        (record { start = at + length e.kept; old = e.old; new = e.new })
        p
      ≡ stepped at e number p
apply_hunk-script pre e rest at number p h k =
    let s : slice (pre ++ (e.kept ++ (e.old ++ rest))) p.cursor (at + length e.kept) ≡ e.kept =
      slice-append pre e.kept (e.old ++ rest) p.cursor (at + length e.kept) (k ∙ h) (omega arith) in
    rw (fits-script pre e rest at h) (
      ap
        (λ l. record p {
          output = p.output ++ l ++ e.new;
          cursor = at + length e.kept + length e.old;
          applied = p.applied ++ (number ∷ []);
        })
        s)

-- From a cursor at the end of what was read, each hunk finds its lines.
apply_hunks-script :
    (pre : List Line) (es : List Edit) (tail source : List Line) (at number : ℕ) (p : Progress)
    → source ≡ pre ++ before es tail
    → at ≡ length pre
    → p.cursor ≡ at
    → let q = apply_hunks source number (hunks_from at es) p in
      (q.output ++ drop q.cursor source ≡ p.output ++ after es tail)
      × (q.applied ≡ p.applied ++ numbers number es)
      × (q.rejected ≡ p.rejected)
unfolding apply_hunks before after hunks_from numbers
apply_hunks-script pre [] tail source at number p whole h k = (
  rw (whole, k) (ap (λ l. p.output ++ l) (drop-append_length at pre tail h)),
  sym (append-nil p.applied),
  refl,
)
apply_hunks-script pre (e ∷ es) tail source at number p whole h k =
    let rest = before es tail in
    let next = at + length e.kept + length e.old in
    let hunk : Hunk = record { start = at + length e.kept; old = e.old; new = e.new } in
    let one : apply_hunk source number hunk p ≡ stepped at e number p =
      ap (λ l. apply_hunk l number hunk p) whole ∙ apply_hunk-script pre e rest at number p h k in
    let whole' : source ≡ (pre ++ e.kept ++ e.old) ++ rest =
      whole
      ∙ sym (append_assoc pre e.kept (e.old ++ rest))
      ∙ sym (append_assoc (pre ++ e.kept) e.old rest) in
    let n = length-append (pre ++ e.kept) e.old in
    let m = length-append pre e.kept in
    let (out, done, same) =
      apply_hunks-script (pre ++ e.kept ++ e.old) es tail source next (number + 1)
        (stepped at e number p) whole' (omega (arith, n, m, h)) refl in
    let run = ap (λ q. apply_hunks source (number + 1) (hunks_from next es) q) one in
    (
      ap (λ q. q.output ++ drop q.cursor source) run
          ∙ out
          ∙ append_assoc (p.output ++ e.kept) e.new (after es tail)
          ∙ append_assoc p.output e.kept (e.new ++ after es tail),
      ap (λ q. q.applied) run
          ∙ done
          ∙ append_assoc p.applied (number ∷ []) (numbers (number + 1) es),
      ap (λ q. q.rejected) run ∙ same,
    )

-- Applied to the text before, the hunks of any edit script, each at the place of its lines there,
-- give exactly the text after; every hunk is reported as applied, in order, and none as rejected.
pub apply_parsed-script :
    (es : List Edit) (tail : List Line)
    → apply_parsed (before es tail) (hunks_from 0 es) ≡ (after es tail, numbers 1 es, [])
unfolding apply_parsed
apply_parsed-script es tail =
    let start : Progress = record { output = []; cursor = 0; applied = []; rejected = [] } in
    let (out, done, none') =
      apply_hunks-script [] es tail (before es tail) 0 1 start refl refl refl in
    λ i. (out i, done i, none' i)
