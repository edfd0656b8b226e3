-- ===== src/Files/Utf8/Encoded.antt =====
-- The round trip of a text through the bytes that app/files.py writes it as and reads it from.
use environments_api.Common.{
  ℕ, ◌+◌, ◌/◌, ◌%◌, ◌≤◌, ◌<◌, ◌≡◌, refl, ap, ◌∙◌, ◌⊎◌, inl, inr, some, List, [], ◌∷◌, ◌++◌, arith,
  ltb, ltb→lt, lt→ltb, Bool-cases, All,
}
use environments_api.Shells.Redact.{encode_char, encode}
use environments_api.Files.Tree.{Bytes}
use environments_api.Files.Utf8.{complete, partial, accept, with_char, feed, decode}

-- A code point that is no surrogate.
abbrev pub IsScalar : ℕ → Type 0
IsScalar c = (c < 0xd800) ⊎ ((0xe000 ≤ c) × (c < 0x110000))

-- One byte that is held back, and one that ends a character.
pub feed-partial :
    (held : Bytes) (b : ℕ) (rest : Bytes)
    → accept (held ++ (b ∷ [])) ≡ partial
    → feed held (b ∷ rest) ≡ feed (held ++ (b ∷ [])) rest
unfolding feed
feed-partial held b rest e = rw (e, feed) refl

pub feed-complete :
    (held : Bytes) (b n : ℕ) (rest : Bytes)
    → accept (held ++ (b ∷ [])) ≡ complete n
    → feed held (b ∷ rest) ≡ with_char n (feed [] rest)
unfolding feed
feed-complete held b n rest e = rw (e, feed) refl

feed-two :
    (b c n : ℕ) (rest : Bytes)
    → accept (b ∷ []) ≡ partial
    → accept (b ∷ c ∷ []) ≡ complete n
    → feed [] (b ∷ c ∷ rest) ≡ with_char n (feed [] rest)
feed-two b c n rest e f = feed-partial [] b _ e ∙ feed-complete (b ∷ []) c n rest f

feed-three :
    (b c d n : ℕ) (rest : Bytes)
    → accept (b ∷ []) ≡ partial
    → accept (b ∷ c ∷ []) ≡ partial
    → accept (b ∷ c ∷ d ∷ []) ≡ complete n
    → feed [] (b ∷ c ∷ d ∷ rest) ≡ with_char n (feed [] rest)
feed-three b c d n rest e f g =
    feed-partial [] b _ e ∙ (feed-partial (b ∷ []) c _ f ∙ feed-complete (b ∷ c ∷ []) d n rest g)

feed-four :
    (b c d a n : ℕ) (rest : Bytes)
    → accept (b ∷ []) ≡ partial
    → accept (b ∷ c ∷ []) ≡ partial
    → accept (b ∷ c ∷ d ∷ []) ≡ partial
    → accept (b ∷ c ∷ d ∷ a ∷ []) ≡ complete n
    → feed [] (b ∷ c ∷ d ∷ a ∷ rest) ≡ with_char n (feed [] rest)
feed-four b c d a n rest e f g h =
    feed-partial [] b _ e
    ∙ (feed-partial (b ∷ []) c _ f
        ∙ (feed-partial (b ∷ c ∷ []) d _ g ∙ feed-complete (b ∷ c ∷ d ∷ []) a n rest h))

feed-one : (c : ℕ) (rest : Bytes) → c < 0x80 → feed [] (c ∷ rest) ≡ with_char c (feed [] rest)
unfolding accept
feed-one c rest h = feed-complete [] c c rest (rw (lt→ltb c 0x80 h) refl)

encode_two :
    (c : ℕ) (rest : Bytes)
    → 0x80 ≤ c
    → c < 0x800
    → feed [] ((0xc0 + c / 64) ∷ (0x80 + c % 64) ∷ rest) ≡ with_char c (feed [] rest)
unfolding accept
encode_two c rest h k =
    feed-two (0xc0 + c / 64) (0x80 + c % 64) c rest (ground arith) (ground arith)

encode_three :
    (c : ℕ) (rest : Bytes)
    → 0x800 ≤ c
    → c < 0x10000
    → IsScalar c
    → feed [] ((0xe0 + c / 4096) ∷ (0x80 + c / 64 % 64) ∷ (0x80 + c % 64) ∷ rest)
      ≡ with_char c (feed [] rest)
unfolding accept
encode_three c rest h k (inl s) =
    feed-three (0xe0 + c / 4096) (0x80 + c / 64 % 64) (0x80 + c % 64) c rest (ground arith)
      (ground arith) (ground arith)
encode_three c rest h k (inr s) =
    feed-three (0xe0 + c / 4096) (0x80 + c / 64 % 64) (0x80 + c % 64) c rest (ground arith)
      (ground arith) (ground arith)

encode_four :
    (c : ℕ) (rest : Bytes)
    → 0x10000 ≤ c
    → c < 0x110000
    → feed [] (
        (0xf0 + c / 262144)
        ∷ (0x80 + c / 4096 % 64)
        ∷ (0x80 + c / 64 % 64)
        ∷ (0x80 + c % 64)
        ∷ rest)
      ≡ with_char c (feed [] rest)
unfolding accept
encode_four c rest h k =
    feed-four (0xf0 + c / 262144) (0x80 + c / 4096 % 64) (0x80 + c / 64 % 64) (0x80 + c % 64) c rest
      (ground arith) (ground arith) (ground arith) (ground arith)

feed-encode_char :
    (c : ℕ) (rest : Bytes)
    → IsScalar c
    → feed [] (encode_char c ++ rest) ≡ with_char c (feed [] rest)
feed-encode_char c rest s = elim (Bool-cases (ltb c 0x80)) [
  | inl e ↦ rw e (feed-one c rest (ltb→lt _ _ e))
  | inr e ↦ rw e (elim (Bool-cases (ltb c 0x800)) [
    | inl f ↦ rw f (encode_two c rest (ground arith) (ltb→lt _ _ f))
    | inr f ↦ rw f (elim (Bool-cases (ltb c 0x10000)) [
      | inl g ↦ rw g (encode_three c rest (ground arith) (ltb→lt _ _ g) s)
      | inr g ↦ rw g (encode_four c rest (ground arith) (ground arith))
    ])
  ])
]

pub feed-encode : (cs : List ℕ) → All IsScalar cs → feed [] (encode cs) ≡ some (cs, [])
unfolding encode feed
feed-encode [] h = refl
feed-encode (c ∷ cs) h = feed-encode_char c (encode cs) h.0 ∙ ap (with_char c) (feed-encode cs h.1)

pub decode-encode : (cs : List ℕ) → All IsScalar cs → decode (encode cs) ≡ some cs
unfolding decode
decode-encode cs h = rw (feed-encode cs h) refl
