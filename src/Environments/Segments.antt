-- ===== src/Environments/Segments.antt =====
-- safe_segment (app/environments/store.py): the path segment of an opaque id.
mod Tests
use environments_api.Common.{
  ℕ, List, String, Bool, leb, true, false, ◌≡◌, ◌||◌, [], ◌&&◌, ◌==◌, ◌∷◌, if◌then◌else◌, is_empty,
  ◌≢◌, arith, not, suc, zero, refl, Bool-cases, inl, inr,
}
use Prim.Native.Char.{code}

abbrev pub codes : String → List ℕ
codes String.[] = []
codes (String.◌∷◌ c s) = code c ∷ codes s

abbrev pub is_alnum : ℕ → Bool
is_alnum c = (leb b'A' c && leb c b'Z') || (leb b'a' c && leb c b'z') || (leb b'0' c && leb c b'9')

abbrev pub is_segment_byte : ℕ → Bool
is_segment_byte c = is_alnum c || c == b'.' || c == b'_' || c == b'-'

-- `[A-Za-z0-9._-]{0,n}$`: `$` also stands before a newline that ends the text.
segment_rest : ℕ → List ℕ → Bool
segment_rest n [] = true
segment_rest zero (c ∷ cs) = c == 10 && is_empty cs
segment_rest (suc n) (c ∷ cs) =
    let rest = segment_rest n cs in if is_segment_byte c then rest else (c == 10 && is_empty cs)

-- `_SAFE_SEGMENT.match`
segment_match : List ℕ → Bool
unfolding segment_rest
segment_match [] = false
segment_match (c ∷ cs) = is_alnum c && segment_rest 127 cs

-- `value in (".", "..")`
is_dots : List ℕ → Bool
is_dots [] = false
is_dots (c ∷ []) = c == b'.'
is_dots (c ∷ d ∷ []) = c == b'.' && d == b'.'
is_dots (c ∷ d ∷ e ∷ r) = false

-- `sha` is `hashlib.sha256(value.encode()).hexdigest()[:32]`; a text is its code points.
unfoldable pub safe_segment : (List ℕ → List ℕ) → List ℕ → List ℕ
unfolding segment_match is_dots
safe_segment sha value =
    if segment_match value && not (is_dots value) then value else (b'h' ∷ b'_' ∷ sha value)

-- `c` stands in the text.
abbrev pub contains : ℕ → List ℕ → Bool
contains c [] = false
contains c (x ∷ xs) = x == c || contains c xs

segment_rest_plain :
    (n : ℕ) (cs : List ℕ)
    → segment_rest n cs ≡ true
    → (contains b'/' cs ≡ false) × (contains 0 cs ≡ false)
unfolding segment_rest
segment_rest_plain n [] h = (refl, refl)
segment_rest_plain zero (c ∷ []) h = ground arith
segment_rest_plain zero (c ∷ d ∷ cs) h = ground arith
segment_rest_plain (suc n) (c ∷ []) h = ground arith
segment_rest_plain (suc n) (c ∷ d ∷ cs) h = ground (arith, segment_rest_plain n (d ∷ cs))

-- A text that can be one folder's name, and no other place.
abbrev pub Contained : List ℕ → Type 0
Contained s =
    (contains b'/' s ≡ false)
    × (contains 0 s ≡ false)
    × (c : ℕ) × (rest : List ℕ) × (s ≡ c ∷ rest)
    × (c ≢ b'.')

hashed-Contained :
    (digest : List ℕ)
    → (contains b'/' digest ≡ false) × (contains 0 digest ≡ false)
    → Contained (b'h' ∷ b'_' ∷ digest)
hashed-Contained digest h = (h.0, h.1, b'h', b'_' ∷ digest, refl, omega arith)

kept-Contained : (c : ℕ) (cs : List ℕ) → segment_match (c ∷ cs) ≡ true → Contained (c ∷ cs)
unfolding segment_match
kept-Contained c cs m = (
  ground (arith, segment_rest_plain 127 cs),
  ground (arith, segment_rest_plain 127 cs),
  c,
  cs,
  refl,
  ground arith,
)

-- Whatever the id, its segment is not empty, does not begin with a dot, and holds no separator and
-- no NUL, if the digest holds none: a folder below the account root, never outside.
pub safe_segment-Contained :
    (sha : List ℕ → List ℕ) (value : List ℕ)
    → (contains b'/' (sha value) ≡ false) × (contains 0 (sha value) ≡ false)
    → Contained (safe_segment sha value)
unfolding safe_segment
safe_segment-Contained sha [] h = hashed-Contained (sha []) h
safe_segment-Contained sha (c ∷ cs) h =
    elim (Bool-cases (segment_match (c ∷ cs) && not (is_dots (c ∷ cs)))) [
      | inl e ↦ rw e (kept-Contained c cs (ground (arith, e)))
      | inr e ↦ rw e (hashed-Contained (sha (c ∷ cs)) h)
    ]
