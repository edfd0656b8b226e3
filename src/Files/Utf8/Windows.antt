-- ===== src/Files/Utf8/Windows.antt =====
-- A window of a text's bytes (app/files.py, read): the characters that end in it, and what is held
-- back.
use environments_api.Common.{
  ℕ, ◌≤◌, ◌≡◌, refl, sym, ap, ◌∙◌, none, some, [], ◌∷◌, ◌++◌, append-nil, append_assoc, arith,
  length,
}
use mathlib.Core.Path.{subst}
use environments_api.Files.Tree.{Text, Bytes}
use environments_api.Files.Utf8.{
  Verdict, complete, partial, invalid, accept, Decoded, with_char, feed,
}
use environments_api.Files.Utf8.Chunks.{then_feed, feed-append}
use environments_api.Files.Utf8.Encoded.{feed-partial, feed-complete}

-- Bytes that the decoder holds back from the start: the beginning of a character.
abbrev IsHeld : Bytes → Type 0
IsHeld held = (feed [] held ≡ some ([], held)) × (length held ≤ 3)

accept-partial : (bs : Bytes) → accept bs ≡ partial → length bs ≤ 3
unfolding accept
accept-partial [] h = omega arith
accept-partial (b ∷ []) h = omega arith
accept-partial (b ∷ c ∷ []) h = omega arith
accept-partial (b ∷ c ∷ d ∷ []) h = omega arith
accept-partial (b ∷ c ∷ d ∷ e ∷ []) h = ground arith
accept-partial (b ∷ c ∷ d ∷ e ∷ f ∷ more) h = absurd cc

-- What is fed behind bytes that are held back is fed behind them from the start.
feed-held : (held xs : Bytes) → feed [] held ≡ some ([], held) → feed [] (held ++ xs) ≡ feed held xs
feed-held held xs h = feed-append [] held xs ∙ rw h (some_same (feed held xs))
  where
    some_same : (r : Decoded) → elim r [ none ↦ none | some (more, held') ↦ some (more, held') ] ≡ r
    some_same none = refl
    some_same (some (more, held')) = refl

-- The bytes are whole characters, which give the text, and then the start of one.
abbrev Cut : Bytes → Text → Bytes → Type 0
Cut xs text held =
    (kept : Bytes) × (xs ≡ kept ++ held) × (feed [] kept ≡ some (text, [])) × (IsHeld held)

with_char-some :
    (c : ℕ) (r : Decoded) {text : Text} {rest : Bytes}
    → with_char c r ≡ some (text, rest)
    → (more : Text) × (r ≡ some (more, rest)) × (c ∷ more ≡ text)
with_char-some c none e = absurd cc
with_char-some c (some (more, held)) {text} {rest} e =
    let whole : (c ∷ more, held) ≡ (text, rest) = cc in
    (
      more,
      ap (λ h. some (more, h)) (ap (λ (p : Text × Bytes). p.1) whole),
      ap (λ (p : Text × Bytes). p.0) whole,
    )

feed-Cut_step :
    (held xs : Bytes) (x : ℕ) (text : Text) (rest : Bytes) (v : Verdict)
    → IsHeld held
    → accept (held ++ (x ∷ [])) ≡ v
    → feed held (x ∷ xs) ≡ some (text, rest)
    → ((more : Text) → feed [] xs ≡ some (more, rest) → Cut xs more rest)
    → (IsHeld (held ++ (x ∷ []))
        → feed (held ++ (x ∷ [])) xs ≡ some (text, rest)
        → Cut ((held ++ (x ∷ [])) ++ xs) text rest)
    → Cut (held ++ (x ∷ xs)) text rest
feed-Cut_step held xs x text rest (complete c) start a e fresh longer =
    let (more, r, onto) = with_char-some c (feed [] xs) (sym (feed-complete held x c xs a) ∙ e) in
    let (kept, split, decoded, ends) = fresh more r in
    (
      held ++ (x ∷ kept),
      ap (λ l. held ++ (x ∷ l)) split ∙ sym (append_assoc held (x ∷ kept) rest),
      feed-held held (x ∷ kept) start.0
          ∙ (feed-complete held x c kept a
              ∙ (ap (with_char c) decoded ∙ ap (λ t. some (t, [])) onto)),
      ends,
    )
feed-Cut_step held xs x text rest partial start a e fresh longer =
    let one : feed (held ++ (x ∷ [])) [] ≡ some ([], held ++ (x ∷ [])) = unfold feed in refl in
    let (kept, split, decoded, ends) =
      longer
        (
          feed-held held (x ∷ []) start.0 ∙ (feed-partial held x [] a ∙ one),
          accept-partial (held ++ (x ∷ [])) a,
        )
        (sym (feed-partial held x xs a) ∙ e) in
    (kept, sym (append_assoc held (x ∷ []) xs) ∙ split, decoded, ends)
feed-Cut_step held xs x text rest invalid start a e fresh longer =
    let refused : feed held (x ∷ xs) ≡ none = unfold feed in rw (a, feed) refl in
    absurd (cc (e, refused))

feed-Cut :
    (held xs : Bytes) (text : Text) (rest : Bytes)
    → IsHeld held
    → feed held xs ≡ some (text, rest)
    → Cut (held ++ xs) text rest
unfolding feed
feed-Cut held [] text rest start e =
    let same : held ≡ rest = cc in
    let empty : [] ≡ text = cc in
    ([], append-nil held ∙ same, ap (λ t. some (t, [])) empty, subst IsHeld same start)
feed-Cut held (x ∷ xs) text rest start e =
    feed-Cut_step held xs x text rest (accept (held ++ (x ∷ []))) start refl e
      (λ more r. feed-Cut [] xs more rest (refl, omega arith) r)
      (λ start' r. feed-Cut (held ++ (x ∷ [])) xs text rest start' r)

-- One window of bytes that decode: its whole characters, and what decodes behind them.
pub record Window (window behind : Bytes) (text : Text) : Type 0 where
  pub first : Text
  pub later : Text
  pub kept : Bytes
  pub held : Bytes
  pub fed : feed [] window ≡ some (first, held)
  pub joined : text ≡ first ++ later
  pub split : window ≡ kept ++ held
  pub starts : feed [] held ≡ some ([], held)
  pub short : length held ≤ 3
  pub behind_fed : feed [] (held ++ behind) ≡ some (later, [])

prefixed : Text → Decoded → Decoded
prefixed first none = none
prefixed first (some (more, held)) = some (first ++ more, held)

prefixed-elim :
    (first : Text) (d : Decoded)
    → elim d [ none ↦ none | some (more, held') ↦ some (first ++ more, held') ] ≡ prefixed first d
unfolding prefixed
prefixed-elim first none = refl
prefixed-elim first (some (more, held)) = refl

then_feed-some :
    (r : Decoded) (ys : Bytes) {text : Text} {rest : Bytes}
    → then_feed r ys ≡ some (text, rest)
    → (first : Text) × (held : Bytes) × (later : Text) × (r ≡ some (first, held))
      × (feed held ys ≡ some (later, rest))
      × (text ≡ first ++ later)
unfolding prefixed
then_feed-some none ys e = absurd cc
then_feed-some (some (first, held)) ys {text} {rest} e =
    by_rest (feed held ys) refl (sym (prefixed-elim first (feed held ys)) ∙ e)
  where
    by_rest :
        (d : Decoded)
        → feed held ys ≡ d
        → prefixed first d ≡ some (text, rest)
        → (first' : Text) × (held' : Bytes) × (later : Text) × (◌≡◌ {A = Decoded}
            (some (first, held))
            (some (first', held')))
          × (feed held' ys ≡ some (later, rest))
          × (text ≡ first' ++ later)
    by_rest none f e = absurd cc
    by_rest (some (more, held')) f e =
        let whole : (first ++ more, held') ≡ (text, rest) = cc in
        (
          first,
          held,
          more,
          refl,
          f ∙ ap (λ h. some (more, h)) (ap (λ (p : Text × Bytes). p.1) whole),
          sym (ap (λ (p : Text × Bytes). p.0) whole),
        )

pub window_lem :
    (window behind : Bytes) (text : Text)
    → feed [] (window ++ behind) ≡ some (text, [])
    → Window window behind text
window_lem window behind text e =
    let (first, held, later, fed, rest, joined) =
      then_feed-some (feed [] window) behind (sym (feed-append [] window behind) ∙ e) in
    let (kept, split, decoded, start) =
      feed-Cut [] window first held (unfold feed in refl, omega arith) fed in
    record {
      first = first;
      later = later;
      kept = kept;
      held = held;
      fed = fed;
      joined = joined;
      split = split;
      starts = start.0;
      short = start.1;
      behind_fed = feed-held held behind start.0 ∙ rest;
    }
