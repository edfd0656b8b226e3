-- ===== src/Files/Lines.antt =====
-- `str.splitlines`, as file edits and searches cut a text into lines.
use environments_api.Common.{
  ℕ, Bool, false, not, ◌&&◌, ◌||◌, List, [], ◌∷◌, leb, ◌==◌, if◌then◌else◌, is_empty,
}
use environments_api.Files.Tree.{Text}

abbrev pub is_break : ℕ → Bool
is_break c = leb 10 c && leb c 13 || leb 28 c && leb c 30 || c == 0x85 || c == 0x2028 || c == 0x2029

abbrev pub begins_with : ℕ → Text → Bool
begins_with c [] = false
begins_with c (d ∷ ds) = c == d

abbrev pub onto_line : ℕ → List Text → List Text
onto_line c [] = (c ∷ []) ∷ []
onto_line c (line ∷ lines) = (c ∷ line) ∷ lines

-- `text.splitlines(keepends=True)`; a carriage return and a line feed end one line.
unfoldable pub split_lines : Text → List Text
split_lines [] = []
split_lines (c ∷ cs) =
    let rest = split_lines cs in
    if is_break c && not (c == 13 && begins_with 10 cs) then (c ∷ []) ∷ rest else onto_line c rest

-- A line without its end.
unfoldable pub without_end : Text → Text
without_end [] = []
without_end (c ∷ []) = if is_break c then [] else c ∷ []
without_end (c ∷ d ∷ ds) =
    let rest = without_end (d ∷ ds) in if c == 13 && d == 10 && is_empty ds then [] else c ∷ rest
