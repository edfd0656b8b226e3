-- ===== src/FileEdits/Parse.antt =====
-- parse_patch (app/file_edits.py), over the lines of a patch. Digits are the ASCII ones.
use environments_api.Common.{
  ℕ, zero, suc, ◌+◌, ◌-◌, true, false, not, ◌&&◌, Option, none, some, List, [], ◌∷◌, ltb, ◌==◌,
  if◌then◌else◌, length, drop,
}
use environments_api.Common.Error.{validation_error}
use environments_api.Common.Result.{Result, ok, err, ◌>>=◌, ◌>>◌, guard}
use environments_api.Shells.Framing.{is_digit, digits_value}
use environments_api.Shells.Redact.{starts_with}
use environments_api.FileEdits.{Line, Hunk, apply_parsed}

-- `(\d+)`: the digits, and what follows them.
unfoldable pub span_digits : Line → List ℕ × Line
span_digits [] = ([], [])
span_digits (c ∷ cs) =
    let rest = span_digits cs in if is_digit c then (c ∷ rest.0, rest.1) else ([], c ∷ cs)

-- A literal part of the header.
unfoldable pub expect : List ℕ → Line → Option Line
expect text line = if starts_with line text then some (drop (length text) line) else none

number_of : List ℕ × Line → Option (ℕ × Line)
number_of ([], rest) = none
number_of (d ∷ ds, rest) = some (digits_value 0 (d ∷ ds), rest)

-- `int` of a run of digits, one at least.
unfoldable pub read_number : Line → Option (ℕ × Line)
unfolding number_of span_digits
read_number line = number_of (span_digits line)

count_of : Line → Option (ℕ × Line) → ℕ × Line
count_of line none = (1, line)
count_of line (some r) = r

-- `(?:,(\d+))?`, with the count that stands for a missing one.
unfoldable pub read_count : Line → ℕ × Line
unfolding count_of
read_count [] = (1, [])
read_count (c ∷ cs) = if c == b',' then count_of (c ∷ cs) (read_number cs) else (1, c ∷ cs)

-- `start`, `old_size` and `new_size`.
pub record Header : Type 0 where
  pub start : ℕ
  pub old_size : ℕ
  pub new_size : ℕ

infixl 5 ◌then_read◌
abbrev ◌then_read◌ : {A B : Type 0} → Option A → (A → Option B) → Option B
none then_read f = none
some a then_read f = f a

abbrev from_sizes : ℕ × Line → ℕ × Line → Option Header
from_sizes (start, l) (new_start, m) =
    let old = read_count l in
    let new = read_count m in
    expect (b' ' ∷ b'@' ∷ b'@' ∷ []) new.1 then_read λ _.
    some (record { start = start; old_size = old.0; new_size = new.0 })

-- `_HEADER.match`; the rest of the line is free.
unfoldable pub header_of : Line → Option Header
unfolding read_number read_count
header_of line = expect (b'@' ∷ b'@' ∷ b' ' ∷ b'-' ∷ []) line then_read λ l.
    read_number l then_read λ start. expect (b' ' ∷ b'+' ∷ []) (read_count start.1).1 then_read λ m.
    read_number m then_read λ new_start. from_sizes start new_start

abbrev pub no_newline : List ℕ
no_newline =
    92 ∷ b' ' ∷ b'N' ∷ b'o' ∷ b' ' ∷ b'n' ∷ b'e' ∷ b'w' ∷ b'l' ∷ b'i' ∷ b'n' ∷ b'e' ∷ b' ' ∷ b'a'
    ∷ b't' ∷ b' ' ∷ b'e' ∷ b'n' ∷ b'd' ∷ b' ' ∷ b'o' ∷ b'f' ∷ b' ' ∷ b'f' ∷ b'i' ∷ b'l' ∷ b'e' ∷ []

-- `payload.removesuffix("\n")`
unfoldable pub remove_newline : Line → Line
remove_newline [] = []
remove_newline (c ∷ []) = if c == 10 then [] else c ∷ []
remove_newline (c ∷ d ∷ cs) = c ∷ remove_newline (d ∷ cs)

-- What a hunk's lines hold: the old lines, the new ones, and the lines behind the hunk.
pub record Body : Type 0 where
  pub old : List Line
  pub new : List Line
  pub rest : List Line

abbrev pub put_line : Line → Line → Body → Result Body
put_line [] payload b = err validation_error
put_line (c ∷ cs) payload b =
    if c == b' '
    then ok (record b { old = payload ∷ b.old; new = payload ∷ b.new })
    else if c == b'-'
    then ok (record b { old = payload ∷ b.old })
    else if c == b'+'
    then ok (record b { new = payload ∷ b.new })
    else err validation_error

abbrev pub tail_of : Line → Line
tail_of [] = []
tail_of (c ∷ cs) = cs

-- The inner loop, to the next header; a marker behind a line takes that line's newline off.
unfoldable pub body : List Line → Result Body
body [] = ok (record { old = []; new = []; rest = [] })
body (l ∷ []) = elim (starts_with l (b'@' ∷ b'@' ∷ b' ' ∷ [])) [
  | true ↦ ok (record { old = []; new = []; rest = l ∷ [] })
  | false ↦ put_line l (tail_of l) (record { old = []; new = []; rest = [] })
]
body (l ∷ m ∷ ls) = elim (starts_with l (b'@' ∷ b'@' ∷ b' ' ∷ [])) [
  | true ↦ ok (record { old = []; new = []; rest = l ∷ m ∷ ls })
  | false ↦ elim (starts_with m no_newline) [
    | true ↦ body ls >>= λ b. put_line l (remove_newline (tail_of l)) b
    | false ↦ body (m ∷ ls) >>= λ b. put_line l (tail_of l) b
  ]
]

-- `int(start)` where nothing is replaced, and one less where something is; below 0 is an error.
unfoldable pub position_of : Header → Result ℕ
position_of h =
    if h.old_size == 0
    then ok h.start
    else if h.start == 0
    then err validation_error
    else ok (h.start - 1)

-- The hunk of a header and a body, with both sizes checked, and the order.
unfoldable pub hunk_of : ℕ → Header → Body → Result Hunk
unfolding position_of
hunk_of previous_end h b = do
  position ← position_of h
  guard (not (ltb position previous_end)) validation_error
  guard (length b.old == h.old_size) validation_error
  guard (length b.new == h.new_size) validation_error
  ok (record { start = position; old = b.old; new = b.new })

unfoldable pub one_hunk : ℕ → Line → List Line → Result (Hunk × List Line)
unfolding body hunk_of
one_hunk previous_end l ls = elim (header_of l) [
  | none ↦ err validation_error
  | some h ↦ body ls >>= λ b. hunk_of previous_end h b >>= λ k. ok (k, b.rest)
]

abbrev pub cons_hunk : Hunk → Option (Result (List Hunk)) → Option (Result (List Hunk))
cons_hunk k none = none
cons_hunk k (some (err e)) = some (err e)
cons_hunk k (some (ok ks)) = some (ok (k ∷ ks))

-- The outer loop; `none` stands for rounds that never end.
unfoldable pub hunks : ℕ → ℕ → List Line → Option (Result (List Hunk))
unfolding one_hunk
hunks zero previous_end lines = none
hunks (suc fuel) previous_end [] = some (ok [])
hunks (suc fuel) previous_end (l ∷ ls) = elim (one_hunk previous_end l ls) [
  | err e ↦ some (err e)
  | ok (k, rest) ↦ cons_hunk k (hunks fuel (k.start + length k.old) rest)
]

-- The labels of the files, which are not looked at.
unfoldable pub drop_labels : List Line → List Line
drop_labels [] = []
drop_labels (l ∷ []) = l ∷ []
drop_labels (l ∷ m ∷ ls) =
    if starts_with l (b'-' ∷ b'-' ∷ b'-' ∷ b' ' ∷ [])
      && starts_with m (b'+' ∷ b'+' ∷ b'+' ∷ b' ' ∷ [])
    then ls
    else l ∷ m ∷ ls

abbrev pub some_hunks : Option (Result (List Hunk)) → Option (Result (List Hunk))
some_hunks none = none
some_hunks (some (err e)) = some (err e)
some_hunks (some (ok [])) = some (err validation_error)
some_hunks (some (ok (k ∷ ks))) = some (ok (k ∷ ks))

-- `parse_patch`, with one round more than there are lines.
unfoldable pub parse_patch : List Line → Option (Result (List Hunk))
unfolding hunks drop_labels
parse_patch lines = let ls = drop_labels lines in some_hunks (hunks (length ls + 1) 0 ls)

abbrev pub apply_if :
    List Line → Option (Result (List Hunk)) → Option (Result (List Line × List ℕ × List ℕ))
apply_if source none = none
apply_if source (some (err e)) = some (err e)
apply_if source (some (ok hs)) = some (ok (apply_parsed source hs))

-- `apply_patch`
unfoldable pub apply_patch : List Line → List Line → Option (Result (List Line × List ℕ × List ℕ))
unfolding parse_patch
apply_patch source lines = apply_if source (parse_patch lines)
