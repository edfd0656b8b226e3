-- ===== src/Files/Validators.antt =====
-- check_match and the validators (app/file_safety.py): the match of a file's own validator.
use environments_api.Common.{
  ℕ, ◌≡◌, refl, sym, ap, ◌∙◌, Bool, true, false, ◌||◌, Option, none, some, [], ◌∷◌, ◌++◌, ◌==◌,
  if◌then◌else◌, All,
}
use mathlib.Core.Path.{subst}
use environments_api.Common.Error.{file_changed}
use environments_api.Common.Result.{Result, ok, err}
use environments_api.Files.Tree.{
  FilePath, Bytes, Text, text_eq, Node, file, directory, link, other, Tree, node_at,
}
use environments_api.Files.Tree.Laws.{text_eq_iff}
use environments_api.Files.Access.{
  strip_left, strip_right, strip, split_commas, is_candidate, check_match, open_node, quoted,
  etag_of, etag_opened, current_etag,
}

abbrev pub IsNoComma : ℕ → Type 0
IsNoComma c = (c == b',') ≡ false

-- What the code relies on of `sha256(...).hexdigest()`: it is written in hexadecimal digits, and so
-- without a comma. Two contents may have one digest.
pub record IsHexdigest (sha256_hex : Bytes → Text) : Type 0 where
  pub no_comma : (b : Bytes) → All IsNoComma (sha256_hex b)

strip_right_end : (d : Text) → strip_right (d ++ (b'"' ∷ [])) ≡ d ++ (b'"' ∷ [])
unfolding strip_right
strip_right_end [] = refl
strip_right_end (c ∷ []) = refl
strip_right_end (c ∷ d ∷ ds) = rw (strip_right_end (d ∷ ds)) refl

strip-quoted : (d : Text) → strip (quoted d) ≡ quoted d
unfolding strip strip_left strip_right
strip-quoted d = strip_right_end (b'"' ∷ d)

split-no_comma :
    (d : Text) → All IsNoComma d → split_commas (d ++ (b'"' ∷ [])) ≡ (d ++ (b'"' ∷ [])) ∷ []
unfolding split_commas
split-no_comma [] h = refl
split-no_comma (c ∷ cs) h = rw (h.0, split-no_comma cs h.1) refl

split-quoted : (d : Text) → All IsNoComma d → split_commas (quoted d) ≡ quoted d ∷ []
unfolding split_commas
split-quoted d h = rw (split-no_comma d h) refl

snoc_injective : (a b : Text) (x : ℕ) → a ++ (x ∷ []) ≡ b ++ (x ∷ []) → a ≡ b
snoc_injective [] [] x e = refl
snoc_injective [] (c ∷ []) x e = absurd cc
snoc_injective [] (c ∷ d ∷ ds) x e = absurd cc
snoc_injective (c ∷ []) [] x e = absurd cc
snoc_injective (c ∷ d ∷ ds) [] x e = absurd cc
snoc_injective (c ∷ cs) (d ∷ ds) x e =
    let heads : c ≡ d = cc in
    let tails : cs ++ (x ∷ []) ≡ ds ++ (x ∷ []) = cc in cc (heads, snoc_injective cs ds x tails)

quoted_injective : (a b : Text) → quoted a ≡ quoted b → a ≡ b
quoted_injective a b e = snoc_injective a b b'"' (cc)

or_false : (b : Bool) → (b || false) ≡ b
or_false true = refl
or_false false = refl

-- One quoted validator in the header is a match for itself, and for no other.
check_match-quoted :
    (d e : Text)
    → All IsNoComma d
    → check_match (some (quoted d)) (some (quoted e))
      ≡ (if text_eq (quoted e) (quoted d) then ok tt else err file_changed)
unfolding check_match
check_match-quoted d e h =
    let stripped : text_eq (strip (quoted d)) (b'*' ∷ []) ≡ false =
      unfold text_eq in rw (strip-quoted d) refl in
    let listed_at : is_candidate (quoted e) (split_commas (quoted d))
        ≡ text_eq (quoted e) (quoted d) =
      unfold is_candidate in
      subst (λ l. is_candidate (quoted e) l ≡ text_eq (quoted e) (quoted d))
        (sym (split-quoted d h))
        (subst (λ s. (text_eq (quoted e) s || false) ≡ text_eq (quoted e) (quoted d))
          (sym (strip-quoted d)) (or_false (text_eq (quoted e) (quoted d)))) in
    subst
      (λ b.
        (if b || is_candidate (quoted e) (split_commas (quoted d)) then ok tt else err file_changed)
        ≡ (if text_eq (quoted e) (quoted d) then ok tt else err file_changed))
      (sym stripped) (ap (λ b. if b then ok tt else err file_changed) listed_at)

if_passed :
    (b : Bool)
    → ◌≡◌ {A = Result (Unit {0})} (if b then ok tt else err file_changed) (ok tt)
    → b ≡ true
if_passed true h = refl
if_passed false h = absurd cc

module _ (sha256_hex : Bytes → Text) (digest : IsHexdigest sha256_hex) where
  pub check_match-same :
      (before now : Bytes)
      → check_match (some (etag_of sha256_hex before)) (some (etag_of sha256_hex now)) ≡ ok tt
      → sha256_hex now ≡ sha256_hex before
  unfolding etag_of
  check_match-same before now e =
      (quoted_injective (sha256_hex now) (sha256_hex before) (
        (text_eq_iff (quoted (sha256_hex now)) (quoted (sha256_hex before))).0 (
          if_passed _ (
            sym (check_match-quoted (sha256_hex before) (sha256_hex now) (digest.no_comma before))
            ∙ e))))

  pub check_match_self :
      (b : Bytes) → check_match (some (etag_of sha256_hex b)) (some (etag_of sha256_hex b)) ≡ ok tt
  unfolding etag_of
  check_match_self b =
      check_match-quoted (sha256_hex b) (sha256_hex b) (digest.no_comma b)
      ∙ ap (λ t. if t then ok tt else err file_changed)
          ((text_eq_iff (quoted (sha256_hex b)) (quoted (sha256_hex b))).1 refl)

  -- A current validator is that of the regular file's bytes.
  pub current_etag-file :
      (p : FilePath) (t : Tree) (e : Text)
      → current_etag sha256_hex p t ≡ ok (some e)
      → (b : Bytes) × (node_at p t ≡ some (file b)) × (e ≡ etag_of sha256_hex b)
  unfolding current_etag
  current_etag-file p t e h = by_node (node_at p t) refl h
    where
      by_node :
          (o : Option Node)
          → node_at p t ≡ o
          → etag_opened sha256_hex (open_node o) ≡ ok (some e)
          → (b : Bytes) × (node_at p t ≡ some (file b)) × (e ≡ etag_of sha256_hex b)
      by_node none f h = absurd cc
      by_node (some (file b)) f h = (b, f, cc)
      by_node (some directory) f h = absurd cc
      by_node (some (link target)) f h = absurd cc
      by_node (some other) f h = absurd cc

  -- A check against the validator of known contents that passed found a file of the same digest.
  pub current_etag-same :
      (p : FilePath) (t : Tree) (before : Bytes) (actual : Option Text)
      → current_etag sha256_hex p t ≡ ok actual
      → check_match (some (etag_of sha256_hex before)) actual ≡ ok tt
      → (b : Bytes) × (node_at p t ≡ some (file b)) × (sha256_hex b ≡ sha256_hex before)
  unfolding check_match
  current_etag-same p t before none f m = absurd (cc (m))
  current_etag-same p t before (some tag) f m =
      let (b, stood, tagged) = current_etag-file p t tag f in
      (
        b,
        stood,
        check_match-same before b
            (subst (λ x. check_match (some (etag_of sha256_hex before)) (some x) ≡ ok tt) tagged m),
      )
