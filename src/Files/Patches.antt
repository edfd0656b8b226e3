-- ===== src/Files/Patches.antt =====
-- apply_patch (app/file_edits.py) as the patch of a file calls it.
use environments_api.Common.{◌≡◌, refl, List, none, some, Option}
use environments_api.Common.Result.{Result, ok, err}
use environments_api.FileEdits.{Line, Hunk, apply_parsed}
use environments_api.FileEdits.Parse.{parse_patch, apply_patch, apply_if}
use environments_api.FileEdits.Order.{parse_patch-IsOrdered}
use environments_api.Common.{ℕ}

applied_to-total :
    (source : List Line) (o : Option (Result (List Hunk))) (r : Result (List Hunk))
    → o ≡ some r
    → (x : Result (List Line × List ℕ × List ℕ)) × (apply_if source o ≡ some x)
applied_to-total source none r e = absurd cc
applied_to-total source (some (err y)) r e = (err y, refl)
applied_to-total source (some (ok hs)) r e = (ok (apply_parsed source hs), refl)

-- The rounds that the parser is given always suffice, so `patch_text` never ends without a result.
pub apply_patch-total :
    (source lines : List Line)
    → (x : Result (List Line × List ℕ × List ℕ)) × (apply_patch source lines ≡ some x)
unfolding apply_patch
apply_patch-total source lines =
    let (r, parsed, _) = parse_patch-IsOrdered lines in
    applied_to-total source (parse_patch lines) r parsed
