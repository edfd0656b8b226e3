-- ===== src/FileEdits.antt =====
-- app/file_edits.py: the replacement of one occurrence, and how the hunks of a patch are applied. A
-- text is its code points, for a patch in lines, as `splitlines` with `keepends` gives them.
pub mod Script
pub mod Unique
pub mod Parse
pub mod Order
mod Tests
use environments_api.Common.Error.{validation_error}
use environments_api.Common.Result.{Result, ok, err, ◌>>=◌, ◌>>◌, guard}
use environments_api.Shells.Redact.{starts_with}
use environments_api.Common.{
  ℕ, zero, suc, ◌+◌, ◌-◌, Bool, true, false, not, ◌&&◌, List, [], ◌∷◌, ◌++◌, ltb, ◌==◌,
  if◌then◌else◌, length, take, drop, is_empty,
}

abbrev pub Line : Type 0
Line = List ℕ

pub record Hunk : Type 0 where
  pub start : ℕ
  pub old : List Line
  pub new : List Line

unfoldable pub line_eq : Line → Line → Bool
line_eq [] [] = true
line_eq [] (y ∷ ys) = false
line_eq (x ∷ xs) [] = false
line_eq (x ∷ xs) (y ∷ ys) = (x == y) && line_eq xs ys

unfoldable pub lines_eq : List Line → List Line → Bool
unfolding line_eq
lines_eq [] [] = true
lines_eq [] (y ∷ ys) = false
lines_eq (x ∷ xs) [] = false
lines_eq (x ∷ xs) (y ∷ ys) = line_eq x y && lines_eq xs ys

-- `source[from:to]`
abbrev pub slice : List Line → ℕ → ℕ → List Line
slice source from to = take (to - from) (drop from source)

-- The loop's variables.
pub record Progress : Type 0 where
  pub output : List Line
  pub cursor : ℕ
  pub applied : List ℕ
  pub rejected : List ℕ

-- The test of the hunk against the source.
unfoldable pub fits : List Line → Hunk → Bool
unfolding lines_eq
fits source h =
    not (ltb (length source) h.start)
    && lines_eq (slice source h.start (h.start + length h.old)) h.old

abbrev pub apply_hunk : List Line → ℕ → Hunk → Progress → Progress
apply_hunk source number h p =
    if fits source h
    then record p {
      output = p.output ++ slice source p.cursor h.start ++ h.new;
      cursor = h.start + length h.old;
      applied = p.applied ++ (number ∷ []);
    }
    else record p { rejected = p.rejected ++ (number ∷ []) }

unfoldable pub apply_hunks : List Line → ℕ → List Hunk → Progress → Progress
unfolding fits
apply_hunks source number [] p = p
apply_hunks source number (h ∷ hs) p =
    apply_hunks source (number + 1) hs (apply_hunk source number h p)

-- `apply_patch` of hunks that are parsed: the lines, and the numbers of the hunks that were applied
-- and of those that were rejected.
unfoldable pub apply_parsed : List Line → List Hunk → List Line × List ℕ × List ℕ
unfolding apply_hunks
apply_parsed source hunks =
    let p =
      apply_hunks source 1 hunks
        (record { output = []; cursor = 0; applied = []; rejected = [] }) in
    (p.output ++ drop p.cursor source, p.applied, p.rejected)

-- How many matches `re.finditer` of the escaped text has: the search goes on behind each one. The
-- characters of a match are passed over.
unfoldable pub occurrences : List ℕ → ℕ → List ℕ → ℕ
occurrences old skip [] = 0
occurrences old (suc skip) (x ∷ xs) = occurrences old skip xs
occurrences old zero (x ∷ xs) = elim (starts_with (x ∷ xs) old) [
  | true ↦ suc (occurrences old (length old - 1) xs)
  | false ↦ occurrences old 0 xs
]

-- `text.replace(before, after, 1)`
unfoldable pub replace_first : List ℕ → List ℕ → List ℕ → List ℕ
replace_first before after [] = []
replace_first before after (x ∷ xs) = elim (starts_with (x ∷ xs) before) [
  | true ↦ after ++ drop (length before) (x ∷ xs)
  | false ↦ x ∷ replace_first before after xs
]

-- `replace_unique`
unfoldable pub replace_unique : List ℕ → List ℕ → List ℕ → Result (List ℕ)
unfolding occurrences
replace_unique old before after =
    guard (not (is_empty before)) validation_error
    >> guard (occurrences before 0 old == 1) validation_error
    >> ok (replace_first before after old)
