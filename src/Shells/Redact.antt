-- ===== src/Shells/Redact.antt =====
-- app/shells/redact.py: the streaming replacement of secrets in a command's output. A `str` is its
-- code points, with no lone surrogate.
pub mod Prefixes
pub mod Streaming
mod Tests
use environments_api.Common.{
  ℕ, zero, suc, ◌+◌, ◌-◌, ◌/◌, ◌%◌, min, max, Bool, true, false, not, ◌&&◌, ◌||◌, List, [], ◌∷◌,
  ◌++◌, map, ltb, leb, ◌==◌, if◌then◌else◌, length, take, drop, is_empty, filter,
}

-- `chr(c).encode()`
abbrev pub encode_char : ℕ → List ℕ
encode_char c =
    if ltb c 0x80
    then c ∷ []
    else if ltb c 0x800
    then (0xc0 + c / 64) ∷ (0x80 + c % 64) ∷ []
    else if ltb c 0x10000
    then (0xe0 + c / 4096) ∷ (0x80 + c / 64 % 64) ∷ (0x80 + c % 64) ∷ []
    else (0xf0 + c / 262144) ∷ (0x80 + c / 4096 % 64) ∷ (0x80 + c / 64 % 64) ∷ (0x80 + c % 64) ∷ []

unfoldable pub encode : List ℕ → List ℕ
encode [] = []
encode (c ∷ cs) = encode_char c ++ encode cs

-- An entry of `secrets`: a secret, and the service that it belongs to.
pub record Secret : Type 0 where
  pub text : List ℕ
  pub service : List ℕ

-- A secret's bytes and what stands in for them.
pub record Rule : Type 0 where
  pub secret : List ℕ
  pub marker : List ℕ

pub record Redactor : Type 0 where
  pub secrets : List Rule
  pub max_len : ℕ
  pub pending : List ℕ

-- The bytes of REDACTION_TEMPLATE before the service's name: a double angle quote and `redacted:`.
abbrev pub marker_head : List ℕ
marker_head = 0xc2 ∷ 0xab ∷ b'r' ∷ b'e' ∷ b'd' ∷ b'a' ∷ b'c' ∷ b't' ∷ b'e' ∷ b'd' ∷ b':' ∷ []

-- `REDACTION_TEMPLATE.format(service=service).encode()`
unfoldable pub marker_of : List ℕ → List ℕ
unfolding encode
marker_of service = (marker_head ++ encode service ++ (0xc2 ∷ [])) ++ (0xbb ∷ [])

-- One step of the stable sort by falling length.
unfoldable pub insert_longest : Secret → List Secret → List Secret
insert_longest x [] = x ∷ []
insert_longest x (y ∷ ys) =
    let rest = insert_longest x ys in
    if leb (length y.text) (length x.text) then x ∷ y ∷ ys else y ∷ rest

-- `sorted(..., key=len, reverse=True)`
unfoldable pub longest_first : List Secret → List Secret
longest_first [] = []
longest_first (x ∷ xs) = insert_longest x (longest_first xs)

unfoldable pub rule_of : Secret → Rule
unfolding marker_of
rule_of x = record { secret = encode x.text; marker = marker_of x.service }

unfoldable pub longest : List Rule → ℕ
longest [] = 0
longest (x ∷ xs) = max (length x.secret) (longest xs)

-- `Redactor(secrets)`
unfoldable pub new : List Secret → Redactor
unfolding rule_of longest_first longest
new secrets =
    let rules = map rule_of (filter (λ x. not (is_empty x.text)) (longest_first secrets)) in
    record { secrets = rules; max_len = longest rules; pending = [] }

-- `xs.startswith(prefix)`
unfoldable pub starts_with : List ℕ → List ℕ → Bool
starts_with xs [] = true
starts_with [] (p ∷ ps) = false
starts_with (x ∷ xs) (p ∷ ps) = (x == p) && starts_with xs ps

-- `xs.replace(old, new)` of a non-empty `old`, with the first bytes passed over: those of an
-- occurrence that was replaced.
unfoldable pub replace_from : List ℕ → List ℕ → ℕ → List ℕ → List ℕ
replace_from old new skip [] = []
replace_from old new (suc skip) (x ∷ xs) = replace_from old new skip xs
replace_from old new zero (x ∷ xs) = elim (starts_with (x ∷ xs) old) [
  | true ↦ new ++ replace_from old new (length old - 1) xs
  | false ↦ x ∷ replace_from old new 0 xs
]

unfoldable pub replace : List ℕ → List ℕ → List ℕ → List ℕ
replace old new xs = replace_from old new 0 xs

-- The loop over the secrets in `feed`.
unfoldable pub replace_all : List Rule → List ℕ → List ℕ
unfolding replace
replace_all [] buf = buf
replace_all (x ∷ xs) buf = replace_all xs (replace x.secret x.marker buf)

-- `any(secret.startswith(tail) for secret, _ in self._secrets)`
unfoldable pub could_start : List Rule → List ℕ → Bool
could_start [] tail = false
could_start (x ∷ xs) tail = starts_with x.secret tail || could_start xs tail

-- The loop of `_holdback`, from a length downwards.
unfoldable pub holdback_from : List Rule → List ℕ → ℕ → ℕ
holdback_from secrets buf zero = 0
holdback_from secrets buf (suc n) =
    let rest = holdback_from secrets buf n in
    if could_start secrets (drop (length buf - suc n) buf) then suc n else rest

unfoldable pub holdback : Redactor → List ℕ → ℕ
holdback r buf = holdback_from r.secrets buf (min (length buf) (r.max_len - 1))

-- What `feed` returns, and the redactor after it.
unfoldable pub feed : Redactor → List ℕ → List ℕ × Redactor
unfolding holdback replace_all
feed r data' = elim (is_empty r.secrets) [
  | true ↦ (data', r)
  | false ↦
      let buf = replace_all r.secrets (r.pending ++ data') in
      let shown = length buf - holdback r buf in
      (take shown buf, record r { pending = drop shown buf })
]

unfoldable pub flush : Redactor → List ℕ × Redactor
flush r = (r.pending, record r { pending = [] })
