-- ===== src/Files/Pages/Step.antt =====
-- One page of a text file (app/files.py, read).
use environments_api.Common.{
  ℕ, ◌+◌, ◌-◌, ◌≤◌, ◌<◌, min, ◌≡◌, refl, sym, ap, ◌∙◌, ◌⊎◌, inl, inr, Bool, true, false, not, ◌&&◌,
  some, [], ◌∷◌, ◌++◌, append-nil, append_assoc, arith, ltb, leb, ltb→lt, leb→le, Bool-cases,
  length, take, drop, is_empty, length-append, length-take, length-drop, take-append-drop,
  drop-drop,
}
use mathlib.Core.Path.{subst}
use environments_api.Common.Error.{validation_error}
use environments_api.Common.Result.{Result, ok, ◌>>=◌, ◌>>◌, guard}
use environments_api.Files.Tree.{Text, Bytes, FilePath}
use environments_api.Files.Utf8.{feed, finish_decode}
use environments_api.Files.Utf8.Chunks.{is_text}
use environments_api.Files.Access.{metadata}
use environments_api.Files.Mutations.{Host}
use environments_api.Files.Listing.{FileContent, read_page, window_of, whole_chars, page_of}
use environments_api.Files.Utf8.Windows.{Window, window_lem}

take-length_append : (xs ys : Bytes) → take (length xs) (xs ++ ys) ≡ xs
take-length_append [] ys = refl
take-length_append (x ∷ xs) ys = ap (λ l. x ∷ l) (take-length_append xs ys)

drop-length_append : (xs ys : Bytes) → drop (length xs) (xs ++ ys) ≡ ys
drop-length_append [] ys = refl
drop-length_append (x ∷ xs) ys = drop-length_append xs ys

finish_decode-same :
    (final : Bool) (text : Text) (held : Bytes)
    → (final ≡ true → held ≡ [])
    → finish_decode final (some (text, held)) ≡ some (text, held)
finish_decode-same false text held h = refl
finish_decode-same true text [] h = refl
finish_decode-same true text (b ∷ held) h = absurd (cc (h refl))

-- A page that was read: its text, and what is left to read behind it.
pub record Page (b : Bytes) (offset : ℕ) (text : Text) (page : FileContent) : Type 0 where
  pub later : Text
  pub joined : text ≡ page.content ++ later
  pub left : feed [] (drop page.next_offset b) ≡ some (later, [])
  pub within : page.next_offset ≤ length b
  pub told : page.truncated ≡ ltb page.next_offset (length b)
  pub forward : offset ≤ page.next_offset
  pub onward : offset < length b → offset < page.next_offset

length-nil : (xs : Bytes) → length xs ≡ 0 → xs ≡ []
length-nil [] h = refl
length-nil (x ∷ xs) h = absurd (omega (arith, h))

-- At the end of the text nothing is held back.
held-nil :
    {window behind : Bytes} {text : Text} (w : Window window behind text)
    → behind ≡ []
    → w.held ≡ []
held-nil w none_left =
    let both : some (w.later, []) ≡ some ([], w.held) =
      sym w.behind_fed
      ∙ (ap (λ l. feed [] (w.held ++ l)) none_left
          ∙ (ap (feed []) (append-nil w.held) ∙ w.starts)) in
    sym (cc both)

is_empty-false : (xs : Bytes) → 0 < length xs → is_empty xs ≡ false
is_empty-false [] h = absurd (omega arith)
is_empty-false (x ∷ xs) h = refl

ltb-add : (a b : ℕ) → a + b ≤ a → b ≡ 0
ltb-add a b h = omega arith

module _ (b : Bytes) (limit offset : ℕ) (enough : 4 ≤ limit) (inside : offset ≤ length b)
    (window behind : Bytes) (text : Text) (w : Window window behind text)
    (tail : drop offset b ≡ window ++ behind)
    (sized : length window ≡ min limit (length b - offset)) where
  lengths : length b ≡ offset + length w.kept + length w.held + length behind
  lengths =
      let whole = length-drop offset b in
      let cut = ap length tail ∙ length-append window behind in
      let parts = ap length w.split ∙ length-append w.kept w.held in
      omega (arith, whole, cut, parts)

  sized_parts : length window ≡ length w.kept + length w.held
  sized_parts = ap length w.split ∙ length-append w.kept w.held

  last_window : leb (length b) (offset + length window) ≡ true → w.held ≡ []
  last_window final =
      held-nil w (length-nil behind (omega (arith, leb→le _ _ final, lengths, sized_parts)))

  progress : offset < length b → 0 < length w.kept
  progress more = elim (Bool-cases (leb (length b) (offset + length window))) [
    | inl final ↦
        let nothing : length w.held ≡ 0 = ap length (last_window final) in
        omega (arith, nothing, sized_parts, sized)
    | inr further ↦
        let before_end : offset + length window < length b = ground arith in
        omega (arith, before_end, w.short, sized_parts, sized)
  ]

  kept_window : take (length window - length w.held) window ≡ w.kept
  kept_window =
      let n : length window - length w.held ≡ length w.kept = omega (arith, sized_parts) in
      subst (λ k. take k window ≡ w.kept) (sym n)
        (subst (λ l. take (length w.kept) l ≡ w.kept) (sym w.split)
          (take-length_append w.kept w.held))

  abbrev checked : Bytes → Result (Text × Bytes)
  checked kept =
      guard (not (is_empty kept && ltb offset (length b))) validation_error >> ok (w.first, kept)

  window_read :
      whole_chars window offset
        (length b)
        (finish_decode (leb (length b) (offset + length window)) (feed [] window))
      ≡ ok (w.first, w.kept)
  window_read =
      subst
        (λ d.
          whole_chars window offset (length b)
            (finish_decode (leb (length b) (offset + length window)) d)
          ≡ ok (w.first, w.kept))
        (sym w.fed)
        (subst (λ d. whole_chars window offset (length b) d ≡ ok (w.first, w.kept))
          (sym (
            finish_decode-same (leb (length b) (offset + length window)) w.first w.held
              last_window))
          (subst (λ l. checked l ≡ ok (w.first, w.kept)) (sym kept_window)
            (by_rest (Bool-cases (ltb offset (length b))))))
    where
      by_rest :
          (ltb offset (length b) ≡ true) ⊎ (ltb offset (length b) ≡ false)
          → checked w.kept ≡ ok (w.first, w.kept)
      by_rest (inl more) = rw (is_empty-false w.kept (progress (ltb→lt _ _ more))) refl
      by_rest (inr less) = ground (arith, less)

  left_behind : feed [] (drop (offset + length w.kept) b) ≡ some (w.later, [])
  left_behind =
      let e : drop (offset + length w.kept) b ≡ w.held ++ behind =
        sym (drop-drop (length w.kept) offset (offset + length w.kept) b refl)
        ∙ (ap (drop (length w.kept))
              (tail ∙ (ap (λ l. l ++ behind) w.split ∙ append_assoc w.kept w.held behind))
            ∙ drop-length_append w.kept (w.held ++ behind)) in
      ap (feed []) e ∙ w.behind_fed

module _ (h : Host) (p : FilePath) (b : Bytes) (limit : ℕ) (is_text_file : is_text b ≡ true)
    (enough : 4 ≤ limit) where
  pub read_page-Page :
      (offset : ℕ) (text : Text)
      → offset ≤ length b
      → feed [] (drop offset b) ≡ some (text, [])
      → (page : FileContent) × (read_page h p b offset limit ≡ ok page) × Page b offset text page
  unfolding read_page metadata window_of
  read_page-Page offset text inside e =
      let window : Bytes = take limit (drop offset b) in
      let behind : Bytes = drop limit (drop offset b) in
      let tail : drop offset b ≡ window ++ behind = sym (take-append-drop limit (drop offset b)) in
      let w : Window window behind text =
        window_lem window behind text (ap (feed []) (sym tail) ∙ e) in
      let sized : length window ≡ min limit (length b - offset) =
        length-take limit (drop offset b) ∙ ap (min limit) (length-drop offset b) in
      let chars = window_read b limit offset enough inside window behind text w tail sized in
      let read : window_of h (metadata h.sha256_hex b) window offset ≡ ok (w.first, w.kept) =
        rw is_text_file chars in
      (
        page_of h p (metadata h.sha256_hex b) offset (w.first, w.kept),
        ap (λ r. r >>= λ c. ok (page_of h p (metadata h.sha256_hex b) offset c)) read,
        record {
          later = w.later;
          joined = w.joined;
          left = left_behind b limit offset enough inside window behind text w tail sized;
          within =
              omega (arith, lengths b limit offset enough inside window behind text w tail sized);
          told = refl;
          forward = omega arith;
          onward = λ more.
              omega
                (arith, progress b limit offset enough inside window behind text w tail sized more);
        },
      )
