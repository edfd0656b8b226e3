-- ===== src/FileEdits/Tests.antt =====
-- Tests of app/file_edits.py.
use environments_api.Common.{some, ℕ, ◌≡◌, refl, List, [], ◌∷◌}
use environments_api.FileEdits.{Hunk, Line, apply_parsed, fits, lines_eq, line_eq}
use environments_api.Common.Result.{Result, ok}
use environments_api.FileEdits.Parse.{parse_patch, apply_patch, header_of, expect, span_digits}
use environments_api.Shells.Framing.{digits_value}
use environments_api.FileEdits.Order.{IsOrderedResult, parse_patch-IsOrdered}
use environments_api.Shells.Redact.{starts_with}
use environments_api.FileEdits.{replace_unique, replace_first}
use environments_api.FileEdits.Unique.{ReplacesOne, replace_unique-ReplacesOne}
use environments_api.FileEdits.Script.{
  Edit, before, after, hunks_from, numbers, apply_parsed-script,
}

abbrev line : ℕ → Line
line c = c ∷ 10 ∷ []

-- `a b c d` becomes `a x y c`.
abbrev edits : List Edit
edits =
    record { kept = line b'a' ∷ []; old = line b'b' ∷ []; new = line b'x' ∷ line b'y' ∷ [] }
    ∷ record { kept = line b'c' ∷ []; old = line b'd' ∷ []; new = [] }
    ∷ []

apply_parsed-script_example :
    apply_parsed (before edits []) (hunks_from 0 edits) ≡ (after edits [], numbers 1 edits, [])
apply_parsed-script_example = apply_parsed-script edits []

-- A hunk whose lines are not there is rejected, and the text is as it was.
rejected_hunk :
    apply_parsed (line b'a' ∷ []) (record { start = 0; old = line b'b' ∷ []; new = [] } ∷ [])
    ≡ (line b'a' ∷ [], [], 1 ∷ [])
unfolding apply_parsed fits lines_eq line_eq
rejected_hunk = refl

abbrev source : List ℕ
source = b'a' ∷ b'b' ∷ b'c' ∷ []

abbrev edited : List ℕ
edited = b'a' ∷ b'x' ∷ b'y' ∷ b'c' ∷ []

replaces : replace_unique source (b'b' ∷ []) (b'x' ∷ b'y' ∷ []) ≡ ok edited
unfolding replace_unique replace_first starts_with
replaces = refl

replace_unique-ReplacesOne_example : ReplacesOne source (b'b' ∷ []) (b'x' ∷ b'y' ∷ []) edited
replace_unique-ReplacesOne_example =
    replace_unique-ReplacesOne source (b'b' ∷ []) (b'x' ∷ b'y' ∷ []) edited replaces

-- `@@ -2 +2 @@`, `-b`, `+x`
abbrev patch : List Line
patch =
    (b'@' ∷ b'@' ∷ b' ' ∷ b'-' ∷ b'2' ∷ b' ' ∷ b'+' ∷ b'2' ∷ b' ' ∷ b'@' ∷ b'@' ∷ 10 ∷ [])
    ∷ (b'-' ∷ line b'b')
    ∷ (b'+' ∷ line b'x')
    ∷ []

parse_patch-IsOrdered_example :
    (r : Result (List Hunk)) × (parse_patch patch ≡ some r) × IsOrderedResult 0 r
parse_patch-IsOrdered_example = parse_patch-IsOrdered patch

patches :
    apply_patch (line b'a' ∷ line b'b' ∷ []) patch
    ≡ some (ok (line b'a' ∷ line b'x' ∷ [], 1 ∷ [], []))
unfolding apply_patch header_of starts_with expect span_digits apply_parsed fits lines_eq line_eq
    digits_value
patches = refl
