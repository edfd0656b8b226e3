-- ===== src/Shells/Redact/Streaming.antt =====
-- Redactor (app/shells/redact.py) over a stream: what chunks of any sizes come out as.
use environments_api.Common.{
  ℕ, zero, suc, ◌-◌, ◌≤◌, ◌<◌, min, max, ◌≡◌, refl, sym, ap, ◌⊎◌, inl, inr, Bool, true, false, ◌&&◌,
  List, [], ◌∷◌, ◌++◌, append-nil, append_assoc, arith, ltb, if◌then◌else◌, lt→ltb, Bool-cases,
  length, take, drop, is_empty, filter, All, All-map,
}
use mathlib.Core.Path.{subst}
use environments_api.Shells.Redact.{
  Rule, Redactor, Secret, encode, new, rule_of, marker_of, marker_head, longest_first,
  insert_longest, starts_with, replace_from, replace, replace_all, could_start, holdback_from,
  holdback, feed, flush, longest,
}
use environments_api.Shells.Redact.Prefixes.{
  Avoids, HasByte, starts_with-Avoids, HasByte-append, starts_with-append, starts_with-length,
  starts_with-across,
}

-- A whole stream: what is shown chunk by chunk, and what the flush at the end shows.
unfoldable pub feed_all : Redactor → List (List ℕ) → List ℕ
feed_all r [] = (flush r).0
feed_all r (c ∷ cs) = let step = feed r c in step.0 ++ feed_all step.1 cs

abbrev pub join : List (List ℕ) → List ℕ
join [] = []
join (c ∷ cs) = c ++ join cs

module _ (z : ℕ) (s w : List ℕ) (plain : Avoids z s) (some_byte : 0 < length s) where
  -- The replacement, with the byte that the secret lacks at its end.
  abbrev shown_as : List ℕ
  shown_as = w ++ (z ∷ [])

  -- What could still become the secret.
  abbrev is_tail : List ℕ → Bool
  is_tail xs = starts_with s xs && ltb (length xs) (length s)

  -- The bytes before the longest tail, and the tail.
  abbrev cut : List ℕ → List ℕ × List ℕ
  cut [] = ([], [])
  cut (x ∷ xs) = let c = cut xs in if is_tail (x ∷ xs) then ([], x ∷ xs) else (x ∷ c.0, c.1)

  is_tail-HasByte : (xs : List ℕ) → HasByte z xs → is_tail xs ≡ false
  is_tail-HasByte xs k = rw (starts_with-Avoids z s xs plain k) refl

  cut-marker :
      (v g : List ℕ) → cut ((v ++ (z ∷ [])) ++ g) ≡ ((v ++ (z ∷ [])) ++ (cut g).0, (cut g).1)
  cut-marker [] g = rw (is_tail-HasByte (z ∷ g) (inl refl)) refl
  cut-marker (x ∷ v) g =
      rw (is_tail-HasByte ((x ∷ v ++ (z ∷ [])) ++ g) (HasByte-append z (x ∷ v) g), cut-marker v g)
        refl

  -- A text shorter than the secret is left as it is.
  replace-short : (xs : List ℕ) → length xs < length s → replace_from s shown_as 0 xs ≡ xs
  unfolding replace_from
  replace-short [] h = refl
  replace-short (x ∷ xs) h = elim (Bool-cases (starts_with (x ∷ xs) s)) [
    | inl e ↦ absurd (let d = starts_with-length (x ∷ xs) s e in omega arith)
    | inr e ↦ rw (e, replace_from, replace-short xs (omega arith)) refl
  ]

  -- A replacement leaves its byte behind.
  replace-HasByte :
      (xs : List ℕ) → (replace_from s shown_as 0 xs ≡ xs) ⊎ HasByte z (replace_from s shown_as 0 xs)
  unfolding replace_from
  replace-HasByte [] = inl refl
  replace-HasByte (x ∷ xs) = elim (Bool-cases (starts_with (x ∷ xs) s)) [
    | inl e ↦ inr (
        rw (e, replace_from, HasByte)
          (HasByte-append z w (replace_from s shown_as (length s - 1) xs)))
    | inr e ↦ elim (replace-HasByte xs) [
      | inl d ↦ inl (rw (e, replace_from, d) refl)
      | inr k ↦ inr (rw (e, replace_from, HasByte) (inr k))
    ]
  ]

  -- A byte at which no occurrence begins, and no tail, begins none in a longer text either.
  starts_with-miss :
      (x : ℕ) (u v : List ℕ)
      → starts_with (x ∷ u) s ≡ false
      → is_tail (x ∷ replace_from s shown_as 0 u) ≡ false
      → starts_with ((x ∷ u) ++ v) s ≡ false
  starts_with-miss x u v e t = elim (Bool-cases (starts_with ((x ∷ u) ++ v) s)) [
    | inr f ↦ f
    | inl f ↦ absurd (
        let a = starts_with-across (x ∷ u) v s f e in
        let b : replace_from s shown_as 0 u ≡ u = replace-short u (let c = a.1 in omega arith) in
        let t' : is_tail (x ∷ u) ≡ false = subst (λ l. is_tail (x ∷ l) ≡ false) b t in
        let k : is_tail (x ∷ u) ≡ true = rw (a.0, lt→ltb (length (x ∷ u)) (length s) a.1) refl in
        cc)
  ]

  -- Replacing goes on from the tail as if the bytes before it had not been shown yet.
  replace-cut :
      (n : ℕ) (u v : List ℕ)
      → n ≤ length u
      → replace_from s shown_as n (u ++ v)
        ≡ (cut (replace_from s shown_as n u)).0
          ++ replace_from s shown_as 0 ((cut (replace_from s shown_as n u)).1 ++ v)
  unfolding replace_from
  replace-cut zero [] v h = refl
  replace-cut (suc n) [] v h = absurd (omega arith)
  replace-cut (suc n) (x ∷ u) v h = replace-cut n u v (omega arith)
  replace-cut zero (x ∷ u) v h = elim (Bool-cases (starts_with (x ∷ u) s)) [
    | inl e ↦
        let d = starts_with-length (x ∷ u) s e in
        rw
          (
            e,
            starts_with-append (x ∷ u) v s e,
            replace_from,
            cut-marker w (replace_from s shown_as (length s - 1) u),
            replace-cut (length s - 1) u v (omega arith),
          )
          (sym (append_assoc shown_as _ _))
    | inr e ↦ elim (Bool-cases (is_tail (x ∷ replace_from s shown_as 0 u))) [
      | inl t ↦ elim (replace-HasByte u) [
        | inl d ↦
            rw (e, replace_from, t) (ap (λ l. replace_from s shown_as 0 ((x ∷ l) ++ v)) (sym d))
        | inr k ↦ absurd (let f = is_tail-HasByte (x ∷ replace_from s shown_as 0 u) (inr k) in cc)
      ]
      | inr t ↦
          rw (e, starts_with-miss x u v e t, replace_from, t)
            (ap (λ l. x ∷ l) (replace-cut 0 u v (omega arith)))
    ]
  ]

  module _ (m : List ℕ) where
    abbrev rules : List Rule
    rules = record { secret = s; marker = m } ∷ []

    holdback_from-le : (b : List ℕ) (n : ℕ) → holdback_from rules b n ≤ n
    unfolding holdback_from
    holdback_from-le b zero = omega arith
    holdback_from-le b (suc n) = let ih = holdback_from-le b n in ground (arith, ih)

    -- A length within the rest of the list looks at the rest alone.
    holdback_from-rest :
        (x : ℕ) (b : List ℕ) (n : ℕ)
        → n ≤ length b
        → holdback_from rules (x ∷ b) n ≡ holdback_from rules b n
    unfolding holdback_from
    holdback_from-rest x b zero h = refl
    holdback_from-rest x b (suc n) h =
        let e : suc (length b) - suc n ≡ suc (length b - suc n) = omega arith in
        rw (e, holdback_from-rest x b n (omega arith)) refl

    abbrev Splits : List ℕ → ℕ → Type 0
    Splits b k = (take (length b - k) b, drop (length b - k) b) ≡ cut b

    Splits-rest :
        (x : ℕ) (b : List ℕ) (k : ℕ)
        → k ≤ length b
        → is_tail (x ∷ b) ≡ false
        → Splits b k
        → Splits (x ∷ b) k
    Splits-rest x b k h t ih =
        let e : suc (length b) - k ≡ suc (length b - k) = omega arith in
        rw (e, t) (ap (λ c. (x ∷ c.0, c.1)) ih)

    -- At a list shorter than the secret, the loop looks at the whole of it first.
    Splits-whole :
        (x : ℕ) (b : List ℕ)
        → ltb (suc (length b)) (length s) ≡ true
        → Splits b (holdback_from rules b (length b))
        → Splits (x ∷ b) (holdback_from rules (x ∷ b) (suc (length b)))
    unfolding holdback_from could_start
    Splits-whole x b short ih =
        let z0 : suc (length b) - suc (length b) ≡ 0 = omega arith in
        elim (Bool-cases (starts_with s (x ∷ b))) [
          | inl e ↦ rw (z0, e, z0, short) refl
          | inr e ↦
              let t : is_tail (x ∷ b) ≡ false = rw e refl in
              let k = holdback_from-le b (length b) in
              let d : holdback_from rules (x ∷ b) (suc (length b))
                  ≡ holdback_from rules b (length b) =
                rw (z0, e, holdback_from-rest x b (length b) (omega arith)) refl in
              rw d (Splits-rest x b (holdback_from rules b (length b)) k t ih)
        ]

    -- The loop of `_holdback` finds that tail.
    holdback-cut :
        (b : List ℕ) (n : ℕ)
        → n ≡ min (length b) (length s - 1)
        → Splits b (holdback_from rules b n)
    unfolding holdback_from could_start
    holdback-cut [] zero h = refl
    holdback-cut [] (suc n) h = absurd (omega arith)
    holdback-cut (x ∷ b) n h = elim (Bool-cases (ltb (suc (length b)) (length s))) [
      | inr long ↦
          let t : is_tail (x ∷ b) ≡ false = ground (arith, long) in
          let le : n ≤ length b = ground arith in
          let e : n ≡ min (length b) (length s - 1) = ground arith in
          let k = holdback_from-le b n in
          rw (holdback_from-rest x b n le)
            (Splits-rest x b (holdback_from rules b n) (omega arith) t (holdback-cut b n e))
      | inl short ↦
          let e : n ≡ suc (length b) = ground arith in
          let d : length b ≡ min (length b) (length s - 1) = ground arith in
          subst (λ j. Splits (x ∷ b) (holdback_from rules (x ∷ b) j)) (sym e)
            (Splits-whole x b short (holdback-cut b (length b) d))
    ]

  cut-short : (b : List ℕ) → length (cut b).1 < length s
  cut-short [] = some_byte
  cut-short (x ∷ b) = let ih = cut-short b in ground (arith, ih)

  -- The redactor of the one secret, in any state.
  abbrev holding : List ℕ → Redactor
  holding p = record { secrets = rules shown_as; max_len = max (length s) 0; pending = p }

  feed-holding :
      (p d : List ℕ)
      → let c = cut (replace s shown_as (p ++ d)) in feed (holding p) d ≡ (c.0, holding c.1)
  unfolding feed holdback replace_all replace
  feed-holding p d =
      let b = replace_from s shown_as 0 (p ++ d) in
      let e : min (length b) (max (length s) 0 - 1) ≡ min (length b) (length s - 1) = omega arith in
      ap (λ c. (c.0, holding c.1))
        (holdback-cut shown_as b (min (length b) (max (length s) 0 - 1)) e)

  feed_all-holding :
      (p : List ℕ) (chunks : List (List ℕ))
      → length p < length s
      → feed_all (holding p) chunks ≡ replace s shown_as (p ++ join chunks)
  unfolding feed_all flush replace
  feed_all-holding p [] h = rw (append-nil p, replace-short p h) refl
  feed_all-holding p (c ∷ cs) h =
      let b = replace_from s shown_as 0 (p ++ c) in
      let ih = feed_all-holding (cut b).1 cs (cut-short b) in
      rw
        (
          feed-holding p c,
          sym (append_assoc p c (join cs)),
          replace-cut 0 (p ++ c) (join cs) (omega arith),
        )
        (ap (λ l. (cut b).0 ++ l) ih)

-- A code point below 128 is one byte.
encode-ascii : (cs : List ℕ) → All (λ c. c < 128) cs → encode cs ≡ cs
unfolding encode
encode-ascii [] h = refl
encode-ascii (c ∷ cs) h = rw (lt→ltb c 128 h.0, encode-ascii cs h.1) refl

Avoids-ascii : (cs : List ℕ) → All (λ c. c < 128) cs → Avoids 0xbb cs
Avoids-ascii cs h = All-map _ _ cs (λ c k e. omega (arith, k, e)) h

length-nonempty : (xs : List ℕ) → is_empty xs ≡ false → 0 < length xs
length-nonempty [] h = absurd cc
length-nonempty (x ∷ xs) h = omega arith

-- With one secret, not empty and of code points below 128, whatever pieces the stream is read in,
-- what the redactor shows of them and at its flush is, together, the whole stream with every
-- occurrence of the secret replaced by the marker, as one replacement of the joined stream does it.
pub feed_all-replace :
    (x : Secret) (chunks : List (List ℕ))
    → is_empty x.text ≡ false
    → All (λ c. c < 128) x.text
    → feed_all (new (x ∷ [])) chunks ≡ replace (encode x.text) (marker_of x.service) (join chunks)
unfolding new rule_of marker_of longest longest_first insert_longest filter
feed_all-replace x chunks some_char ascii =
    let w = marker_head ++ encode x.service ++ (0xc2 ∷ []) in
    let same = encode-ascii x.text ascii in
    let plain : Avoids 0xbb (encode x.text) = rw same (Avoids-ascii x.text ascii) in
    let some_byte : 0 < length (encode x.text) = rw same (length-nonempty x.text some_char) in
    let e : new (x ∷ []) ≡ holding 0xbb (encode x.text) w plain some_byte [] = rw some_char refl in
    rw e (feed_all-holding 0xbb (encode x.text) w plain some_byte [] chunks some_byte)
