-- ===== src/Files/Pages.antt =====
-- read of FileService (app/files.py): a client that reads a text file page after page.
mod Step
use environments_api.Common.{
  ℕ, zero, suc, ◌+◌, ◌-◌, ◌*◌, ◌/◌, ◌%◌, ◌^◌, ◌≤◌, ◌<◌, min, max, String, ◌≡◌, refl, sym, ap, ◌∙◌,
  ◌≢◌, ◌↔◌, ◌⊎◌, inl, inr, Bool, true, false, not, ◌&&◌, ◌||◌, Option, none, some, List, [], ◌∷◌,
  ◌++◌, map, append-nil, append_assoc, arith, eq_iff, eq_refl, str_eq, ltb, leb, ◌==◌,
  if◌then◌else◌, ltb→lt, lt→ltb, leb→le, le→leb, lt→leb_false, le→ltb_false, ==_iff, Bool-cases,
  Option-cases, length, take, drop, is_empty, length-append, length-take, length-drop,
  take-append-drop, drop-nil, drop-drop, drop-append, drop_all, take_all, filter, All,
}
use mathlib.Core.Path.{subst}
use environments_api.Common.Error.{Error, validation_error}
use environments_api.Common.Result.{Result, ok, err, ◌>>=◌, ◌>>◌, guard}
use environments_api.Files.Tree.{Text, Bytes, FilePath}
use environments_api.Files.Utf8.{
  Verdict, complete, partial, invalid, accept, Decoded, with_char, feed, finish_decode, decode,
  has_nul, text_of,
}
use environments_api.Files.Utf8.Chunks.{then_feed, feed-append, is_text}
use environments_api.Files.Utf8.Encoded.{feed-partial, feed-complete}
use environments_api.Files.Access.{metadata}
use environments_api.Files.Mutations.{Host}
use environments_api.Files.Listing.{FileContent, read_page, window_of, whole_chars, page_of}
use environments_api.Files.Utf8.Windows.{Window, window_lem}
use environments_api.Files.Pages.Step.{Page, read_page-Page}

-- A client's loop: from an offset to the end, or to a refusal. None is that the rounds ran out.
abbrev pub prepend : Text → Option (Result Text) → Option (Result Text)
prepend text none = none
prepend text (some (err e)) = some (err e)
prepend text (some (ok rest)) = some (ok (text ++ rest))

unfoldable pub read_pages : Host → FilePath → Bytes → ℕ → ℕ → ℕ → Option (Result Text)
unfolding read_page
read_pages h p b limit zero offset = none
read_pages h p b limit (suc fuel) offset = elim (read_page h p b offset limit) [
  | err e ↦ some (err e)
  | ok page ↦ elim page.truncated [
    | true ↦ prepend page.content (read_pages h p b limit fuel page.next_offset)
    | false ↦ some (ok page.content)
  ]
]

module _ (h : Host) (p : FilePath) (b : Bytes) (limit : ℕ) (is_text_file : is_text b ≡ true)
    (enough : 4 ≤ limit) where
  -- Enough rounds read what is left.
  read_pages_lem :
      (fuel offset : ℕ) (text : Text)
      → offset ≤ length b
      → length b - offset < fuel
      → feed [] (drop offset b) ≡ some (text, [])
      → read_pages h p b limit fuel offset ≡ some (ok text)
  unfolding read_pages
  read_pages_lem zero offset text inside rounds e = absurd (omega arith)
  read_pages_lem (suc fuel) offset text inside rounds e =
      let (page, read, r) = read_page-Page h p b limit is_text_file enough offset text inside e in
      let next = λ (more : offset < length b).
        read_pages_lem fuel page.next_offset r.later r.within (omega (arith, r.onward more, rounds))
          r.left in
      rw (read, read_pages) (by_rest page r next (Bool-cases page.truncated))
    where
      outcome : FileContent → Bool → Option (Result Text)
      outcome page true = prepend page.content (read_pages h p b limit fuel page.next_offset)
      outcome page false = some (ok page.content)

      by_rest :
          (page : FileContent) (r : Page b offset text page)
          → (offset < length b → read_pages h p b limit fuel page.next_offset ≡ some (ok r.later))
          → (page.truncated ≡ true) ⊎ (page.truncated ≡ false)
          → outcome page page.truncated ≡ some (ok text)
      by_rest page r next (inl more) =
          let further : page.next_offset < length b = ltb→lt _ _ (sym r.told ∙ more) in
          subst (λ x. outcome page x ≡ some (ok text)) (sym more)
            (ap (prepend page.content) (next (omega (arith, further, r.forward)))
              ∙ ap (λ t. some (ok t)) (sym r.joined))
      by_rest page r next (inr done) =
          let reached : length b ≤ page.next_offset = ground (arith, sym r.told ∙ done) in
          let nothing : some (r.later, []) ≡ some ([], []) =
            sym r.left
            ∙ (ap (feed []) (drop_all page.next_offset b reached) ∙ (unfold feed in refl)) in
          let none_later : r.later ≡ [] = cc nothing in
          subst (λ x. outcome page x ≡ some (ok text)) (sym done)
            (ap (λ t. some (ok t))
              (sym (r.joined ∙ (ap (λ l. page.content ++ l) none_later ∙ append-nil page.content))))

decode-feed : (b : Bytes) (text : Text) → decode b ≡ some text → feed [] b ≡ some (text, [])
unfolding decode
decode-feed b text e = by_fed (feed [] b) e
  where
    by_fed : (d : Decoded) → text_of (finish_decode true d) ≡ some text → d ≡ some (text, [])
    by_fed none e = absurd cc
    by_fed (some (first, [])) e = let same : first ≡ text = cc in ap (λ t. some (t, [])) same
    by_fed (some (first, c ∷ held)) e = absurd cc

-- A client that reads a UTF-8 file without NUL bytes from its start, each page from the offset that
-- the page before gave, with any limit of at least four bytes, is never refused, comes to the end
-- in no more rounds than the file has bytes and one, and has read exactly the text of the file.
pub read_pages-decode :
    (h : Host) (p : FilePath) (b : Bytes) (text : Text) (limit fuel : ℕ)
    → decode b ≡ some text
    → has_nul b ≡ false
    → 4 ≤ limit
    → length b < fuel
    → read_pages h p b limit fuel 0 ≡ some (ok text)
read_pages-decode h p b text limit fuel decoded plain enough rounds =
    let file_is_text : is_text b ≡ true = ground (arith, decoded, plain) in
    read_pages_lem h p b limit file_is_text enough fuel 0 text (omega arith) (omega arith)
      (decode-feed b text decoded)
