-- ===== src/Environments/Segments/Tests.antt =====
-- safe_segment at concrete ids.
use environments_api.Common.{ℕ, ◌≡◌, List, ◌∷◌, refl, []}
use environments_api.Environments.Segments.{codes, safe_segment, safe_segment-Contained, Contained}

abbrev digest : List ℕ → List ℕ
digest value = 48 ∷ 97 ∷ []

segment_kept : safe_segment digest (codes "acct-1.b") ≡ codes "acct-1.b"
unfolding safe_segment
segment_kept = refl

segment_hashed : safe_segment digest (codes "../etc") ≡ codes "h_0a"
unfolding safe_segment
segment_hashed = refl

-- `$` lets a newline through at the end.
segment_newline : safe_segment digest (97 ∷ 10 ∷ []) ≡ 97 ∷ 10 ∷ []
unfolding safe_segment
segment_newline = refl

safe_segment-Contained_example : Contained (safe_segment digest (codes "../etc"))
safe_segment-Contained_example = safe_segment-Contained digest (codes "../etc") (refl, refl)
