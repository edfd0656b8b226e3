-- ===== src/Files/Utf8/Chunks.antt =====
-- The decoder over chunks (app/file_safety.py, metadata; app/files.py, read).
use environments_api.Common.{
  ℕ, ◌≡◌, refl, ap, ◌∙◌, Bool, false, not, ◌||◌, Option, none, some, List, [], ◌∷◌, ◌++◌,
  append-nil, append_assoc, arith, length, length-append,
}
use environments_api.Files.Tree.{Bytes}
use environments_api.Files.Utf8.{
  Verdict, complete, partial, invalid, accept, Decoded, with_char, feed, decode, has_nul, Scan,
  scan, is_binary, classify, scan_chunk, after_chunk,
}

-- What a second chunk gives behind a first.
abbrev pub then_feed : Decoded → Bytes → Decoded
then_feed none ys = none
then_feed (some (text, held)) ys = elim (feed held ys) [
  | none ↦ none
  | some (more, held') ↦ some (text ++ more, held')
]

with_char-then_feed :
    (c : ℕ) (r : Decoded) (ys : Bytes) → with_char c (then_feed r ys) ≡ then_feed (with_char c r) ys
with_char-then_feed c none ys = refl
with_char-then_feed c (some (text, held)) ys = ground arith

feed-append_step :
    (held xs ys : Bytes) (x : ℕ) (v : Verdict)
    → accept (held ++ (x ∷ [])) ≡ v
    → feed [] (xs ++ ys) ≡ then_feed (feed [] xs) ys
    → feed (held ++ (x ∷ [])) (xs ++ ys) ≡ then_feed (feed (held ++ (x ∷ [])) xs) ys
    → feed held (x ∷ (xs ++ ys)) ≡ then_feed (feed held (x ∷ xs)) ys
unfolding feed
feed-append_step held xs ys x (complete c) e fresh longer =
    rw (e, feed) (ap (with_char c) fresh ∙ with_char-then_feed c (feed [] xs) ys)
feed-append_step held xs ys x partial e fresh longer = rw (e, feed) longer
feed-append_step held xs ys x invalid e fresh longer = rw (e, feed) refl

pub feed-append : (held xs ys : Bytes) → feed held (xs ++ ys) ≡ then_feed (feed held xs) ys
unfolding feed
feed-append held [] ys = ground arith
feed-append held (x ∷ xs) ys =
    feed-append_step held xs ys x (accept (held ++ (x ∷ []))) refl (feed-append [] xs ys)
      (feed-append (held ++ (x ∷ [])) xs ys)

pub has_nul-append : (xs ys : Bytes) → has_nul (xs ++ ys) ≡ (has_nul xs || has_nul ys)
unfolding has_nul
has_nul-append [] ys = refl
has_nul-append (x ∷ xs) ys = ground (arith, has_nul-append xs ys)

-- What the scan knows of the bytes that it has seen.
scan_of : Bytes → Option Bytes
scan_of seen = after_chunk seen (feed [] seen)

scan_of-append : (seen chunk : Bytes) → scan_chunk chunk (scan_of seen) ≡ scan_of (seen ++ chunk)
unfolding scan_of
scan_of-append seen chunk = ground (arith, feed-append [] seen chunk, has_nul-append seen chunk)

unfoldable pub concat : List Bytes → Bytes
concat [] = []
concat (chunk ∷ chunks) = chunk ++ concat chunks

scan-concat :
    (chunks : List Bytes) (seen : Bytes)
    → scan chunks (record { decoder = scan_of seen; size = length seen })
      ≡ record { decoder = scan_of (seen ++ concat chunks); size = length (seen ++ concat chunks) }
unfolding scan concat
scan-concat [] seen = rw append-nil refl
scan-concat (chunk ∷ chunks) seen =
    let ih = scan-concat chunks (seen ++ chunk) in
    rw
      (
        scan_of-append seen chunk,
        ← length-append seen chunk,
        ← append_assoc seen chunk (concat chunks),
      )
      ih

-- Text is what decodes as a whole and has no NUL.
abbrev pub is_text : Bytes → Bool
is_text bs = elim (decode bs) [ none ↦ false | some text ↦ not (has_nul bs) ]

-- However the reads cut a file into chunks, inside a character too, its classification and its size
-- are those of the whole: it is binary exactly where it does not decode or has a NUL byte.
pub classify-concat :
    (chunks : List Bytes)
    → classify chunks ≡ (not (is_text (concat chunks)), length (concat chunks))
unfolding classify decode
classify-concat chunks =
    let whole = concat chunks in
    let e : scan chunks (record { decoder = some []; size = 0 })
        ≡ record { decoder = after_chunk whole (feed [] whole); size = length whole } =
      unfold scan_of feed has_nul in scan-concat chunks [] in
    by_scan e
  where
    by_scan :
        {s : Scan}
        → s ≡ record {
          decoder = after_chunk (concat chunks) (feed [] (concat chunks));
          size = length (concat chunks);
        }
        → ◌≡◌ {A = Bool × ℕ}
            (is_binary s.decoder, s.size)
            (not (is_text (concat chunks)), length (concat chunks))
    by_scan e = rw e (ground arith)
