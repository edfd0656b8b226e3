-- ===== src/Files/Utf8.antt =====
-- The incremental UTF-8 decoder that app/files.py and app/file_safety.py read files with
-- (`codecs.getincrementaldecoder("utf-8")()`), and the classification of a file by it.
pub mod Chunks
pub mod Encoded
pub mod Windows
use environments_api.Common.{
  ℕ, zero, suc, ◌+◌, ◌-◌, ◌*◌, ◌/◌, ◌%◌, ◌^◌, ◌≤◌, ◌<◌, min, max, String, ◌≡◌, refl, sym, ap, ◌∙◌,
  ◌≢◌, ◌↔◌, ◌⊎◌, inl, inr, Bool, true, false, not, ◌&&◌, ◌||◌, Option, none, some, List, [], ◌∷◌,
  ◌++◌, map, append-nil, append_assoc, arith, eq_iff, eq_refl, str_eq, ltb, leb, ◌==◌,
  if◌then◌else◌, ltb→lt, lt→ltb, leb→le, le→leb, lt→leb_false, le→ltb_false, ==_iff, Bool-cases,
  Option-cases, length, take, drop, is_empty, length-append, length-take, length-drop,
  take-append-drop, drop-nil, drop-drop, drop-append, drop_all, take_all, filter,
}
use environments_api.Files.Tree.{Bytes}

-- What the bytes that the decoder holds back and one more byte make.
pub data Verdict : Type 0 where
  complete : ℕ → Verdict
  partial invalid : Verdict

abbrev is_continuation : ℕ → Bool
is_continuation b = leb 0x80 b && leb b 0xbf

-- Overlong forms, surrogates and what lies above the last code point show in the second byte.
abbrev second_fits : ℕ → ℕ → Bool
second_fits b c =
    is_continuation c
    && not (b == 0xe0 && ltb c 0xa0)
    && not (b == 0xed && leb 0xa0 c)
    && not (b == 0xf0 && ltb c 0x90)
    && not (b == 0xf4 && leb 0x90 c)

unfoldable pub accept : Bytes → Verdict
accept [] = invalid
accept (b ∷ []) =
    if ltb b 0x80 then complete b else if leb 0xc2 b && leb b 0xf4 then partial else invalid
accept (b ∷ c ∷ []) =
    if ltb b 0xe0
    then if is_continuation c then complete ((b - 0xc0) * 64 + (c - 0x80)) else invalid
    else if second_fits b c
    then partial
    else invalid
accept (b ∷ c ∷ d ∷ []) =
    if is_continuation d
    then if ltb b 0xf0 then complete ((b - 0xe0) * 4096 + (c - 0x80) * 64 + (d - 0x80)) else partial
    else invalid
accept (b ∷ c ∷ d ∷ e ∷ []) =
    if is_continuation e
    then complete ((b - 0xf0) * 262144 + (c - 0x80) * 4096 + (d - 0x80) * 64 + (e - 0x80))
    else invalid
accept (b ∷ c ∷ d ∷ e ∷ f ∷ more) = invalid

abbrev pub Decoded : Type 0
Decoded = Option (List ℕ × Bytes)

abbrev pub with_char : ℕ → Decoded → Decoded
with_char c none = none
with_char c (some (text, held)) = some (c ∷ text, held)

-- `decoder.decode(data)` of a decoder that holds `held` back: the text, and what it then holds back
-- (`decoder.getstate()[0]`). None is a UnicodeDecodeError.
unfoldable pub feed : Bytes → Bytes → Decoded
unfolding accept
feed held [] = some ([], held)
feed held (b ∷ bs) = elim (accept (held ++ (b ∷ []))) [
  | complete c ↦ with_char c (feed [] bs)
  | partial ↦ feed (held ++ (b ∷ [])) bs
  | invalid ↦ none
]

-- `decode(data, final=final)`: at the end nothing may be held back.
abbrev pub finish_decode : Bool → Decoded → Decoded
finish_decode final none = none
finish_decode false (some (text, held)) = some (text, held)
finish_decode true (some (text, [])) = some (text, [])
finish_decode true (some (text, b ∷ held)) = none

abbrev pub text_of : Decoded → Option (List ℕ)
text_of none = none
text_of (some (text, held)) = some text

-- `data.decode("utf-8")`
unfoldable pub decode : Bytes → Option (List ℕ)
unfolding feed
decode bs = text_of (finish_decode true (feed [] bs))

unfoldable pub has_nul : Bytes → Bool
has_nul [] = false
has_nul (b ∷ bs) = b == 0 || has_nul bs

-- The loop of `metadata` over the chunks of a file: the decoder, none once `binary` is set, and the
-- size. The digest is taken over the same chunks.
pub record Scan : Type 0 where
  pub decoder : Option Bytes
  pub size : ℕ

abbrev pub after_chunk : Bytes → Decoded → Option Bytes
after_chunk chunk none = none
after_chunk chunk (some (text, held)) = if has_nul chunk then none else some held

abbrev pub scan_chunk : Bytes → Option Bytes → Option Bytes
scan_chunk chunk none = none
scan_chunk chunk (some held) = after_chunk chunk (feed held chunk)

unfoldable pub scan : List Bytes → Scan → Scan
unfolding has_nul feed
scan [] s = s
scan (chunk ∷ chunks) s =
    scan chunks (record s { decoder = scan_chunk chunk s.decoder; size = s.size + length chunk })

-- `binary` after the last chunk.
abbrev pub is_binary : Option Bytes → Bool
is_binary none = true
is_binary (some held) = not (is_empty held)

-- `binary` and `size` of `metadata`, for the chunks that `handle.read` gives.
unfoldable pub classify : List Bytes → Bool × ℕ
unfolding scan
classify chunks =
    let s = scan chunks (record { decoder = some []; size = 0 }) in (is_binary s.decoder, s.size)
