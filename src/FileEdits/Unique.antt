-- ===== src/FileEdits/Unique.antt =====
-- replace_unique (app/file_edits.py): what a replacement that succeeds has replaced.
use environments_api.Common.{
  ℕ, zero, suc, ◌-◌, ◌≡◌, refl, sym, ap, ◌∙◌, inl, inr, Bool, true, false, not, ◌&&◌, List, [], ◌∷◌,
  ◌++◌, arith, ◌==◌, ==_iff, Bool-cases, length, drop, drop-append, is_empty, ◌≤◌, ◌<◌, ◌+◌,
}
use mathlib.Core.Path.{subst}
use native.Mathlib.Decide.{dec_lt}
use environments_api.Common.Error.{Error, validation_error}
use environments_api.Common.Result.{ok, ◌>>◌, guard, ok-injective}
use environments_api.Shells.Redact.{starts_with}
use environments_api.FileEdits.{occurrences, replace_first, replace_unique}

-- Every place at which a text stands in the other begins within the one behind `front`.
abbrev pub OnlyAt : List ℕ → List ℕ → List ℕ → Type 0
OnlyAt old before front =
    (u v : List ℕ)
    → old ≡ u ++ (before ++ v)
    → (length front ≤ length u) × (length u < length front + length before)

-- The first text has the sought one, which is not empty, in one place, overlaps with that apart; the
-- second is the first with that place replaced.
abbrev pub ReplacesOne : List ℕ → List ℕ → List ℕ → List ℕ → Type 0
ReplacesOne old before after text =
    (is_empty before ≡ false)
    × (front : List ℕ) × (rest : List ℕ) × (old ≡ front ++ (before ++ rest))
    × (text ≡ front ++ (after ++ rest))
    × OnlyAt old before front

and_left : (a b : Bool) → (a && b) ≡ true → a ≡ true
and_left true b h = refl
and_left false b h = h

and_right : (a b : Bool) → (a && b) ≡ true → b ≡ true
and_right true b h = h
and_right false b h = absurd cc

starts_with-drop : (xs p : List ℕ) → starts_with xs p ≡ true → xs ≡ p ++ drop (length p) xs
unfolding starts_with
starts_with-drop xs [] h = refl
starts_with-drop [] (y ∷ p) h = absurd cc
starts_with-drop (x ∷ xs) (y ∷ p) h =
    let e : x ≡ y = (==_iff x y).0 (and_left (x == y) (starts_with xs p) h) in
    let ih = starts_with-drop xs p (and_right (x == y) (starts_with xs p) h) in
    rw e (ap (λ l. y ∷ l) ih)

-- Passing over characters is looking behind them.
occurrences-drop :
    (old : List ℕ) (n : ℕ) (xs : List ℕ) → occurrences old n xs ≡ occurrences old 0 (drop n xs)
unfolding occurrences
occurrences-drop old zero xs = refl
occurrences-drop old (suc n) [] = refl
occurrences-drop old (suc n) (x ∷ xs) = occurrences-drop old n xs

starts_with-append : (p v : List ℕ) → starts_with (p ++ v) p ≡ true
unfolding starts_with
starts_with-append [] v = refl
starts_with-append (x ∷ p) v = rw ((==_iff x x).1 refl) (starts_with-append p v)

-- A text that is found nowhere stands nowhere.
no_occurrence :
    (b : ℕ) (before u v : List ℕ) → occurrences (b ∷ before) 0 (u ++ (b ∷ before ++ v)) ≡ 0 → ⊥
unfolding occurrences
no_occurrence b before [] v h =
    let here : starts_with (b ∷ before ++ v) (b ∷ before) ≡ true =
      starts_with-append (b ∷ before) v in
    let n : suc (occurrences (b ∷ before) (length (b ∷ before) - 1) (before ++ v)) ≡ 0 =
      rw (here, occurrences) at h in
    omega (arith, n)
no_occurrence b before (y ∷ u) v h =
    elim (Bool-cases (starts_with (y ∷ u ++ (b ∷ before ++ v)) (b ∷ before))) [
      | inl e ↦
          let n : suc (occurrences (b ∷ before) (length (b ∷ before) - 1) (u ++ (b ∷ before ++ v)))
              ≡ 0 =
            rw (e, occurrences) at h in
          omega (arith, n)
      | inr e ↦
          let n : occurrences (b ∷ before) 0 (u ++ (b ∷ before ++ v)) ≡ 0 =
            rw (e, occurrences) at h in
          no_occurrence b before u v n
    ]

-- Behind a match that nothing follows, nothing else begins.
OnlyAt-here :
    (b : ℕ) (before xs : List ℕ)
    → occurrences (b ∷ before) 0 (drop (length (b ∷ before)) xs) ≡ 0
    → OnlyAt xs (b ∷ before) []
OnlyAt-here b before xs h u v e = elim (dec_lt (length u) (length (b ∷ before))) [
  | yes near ↦ (omega arith, omega (arith, near))
  | no far ↦
      let beyond : length (b ∷ before) ≤ length u = omega (arith, far) in
      let rest : drop (length (b ∷ before)) xs ≡ drop (length (b ∷ before)) u ++ (b ∷ before ++ v) =
        ap (drop (length (b ∷ before))) e
        ∙ drop-append (length (b ∷ before)) u (b ∷ before ++ v) beyond in
      absurd (
        no_occurrence b before (drop (length (b ∷ before)) u) v
          (subst (λ l. occurrences (b ∷ before) 0 l ≡ 0) rest h))
]

OnlyAt-later :
    (b : ℕ) (before front : List ℕ) (x : ℕ) (xs : List ℕ)
    → starts_with (x ∷ xs) (b ∷ before) ≡ false
    → OnlyAt xs (b ∷ before) front
    → OnlyAt (x ∷ xs) (b ∷ before) (x ∷ front)
OnlyAt-later b before front x xs e h [] v same =
    absurd (cc (ap (λ l. starts_with l (b ∷ before)) same, starts_with-append (b ∷ before) v, e))
OnlyAt-later b before front x xs e h (y ∷ u) v same =
    let tails : xs ≡ u ++ (b ∷ before ++ v) = cc in
    let (low, high) = h u v tails in (omega (arith, low), omega (arith, high))

occurrences-ReplacesOne :
    (before after : List ℕ) (xs : List ℕ)
    → is_empty before ≡ false
    → occurrences before 0 xs ≡ 1
    → ReplacesOne xs before after (replace_first before after xs)
unfolding occurrences replace_first
occurrences-ReplacesOne [] after xs some_text h = absurd cc
occurrences-ReplacesOne (b ∷ before) after [] some_text h = absurd (omega (arith, h))
occurrences-ReplacesOne (b ∷ before) after (x ∷ xs) some_text h =
    elim (Bool-cases (starts_with (x ∷ xs) (b ∷ before))) [
      | inl e ↦
          let n : suc (occurrences (b ∷ before) (length (b ∷ before) - 1) xs) ≡ 1 =
            rw (e, occurrences) at h in
          let m : length (b ∷ before) - 1 ≡ length before = omega arith in
          let z : occurrences (b ∷ before) (length before) xs ≡ 0 =
            subst (λ j. occurrences (b ∷ before) j xs ≡ 0) m (omega (arith, n)) in
          (
            refl,
            [],
            drop (length before) xs,
            starts_with-drop (x ∷ xs) (b ∷ before) e,
            rw (e, replace_first) refl,
            OnlyAt-here b before (x ∷ xs)
                (sym (occurrences-drop (b ∷ before) (length before) xs) ∙ z),
          )
      | inr e ↦
          let n : occurrences (b ∷ before) 0 xs ≡ 1 = rw (e, occurrences) at h in
          let (_, front, rest, whole, text, only) =
            occurrences-ReplacesOne (b ∷ before) after xs some_text n in
          (
            refl,
            x ∷ front,
            rest,
            ap (λ l. x ∷ l) whole,
            rw (e, replace_first) (ap (λ l. x ∷ l) text),
            OnlyAt-later b before front x xs e only,
          )
    ]

guards_lem :
    {A : Type 0} (a b : Bool) (x y : Error) (v w : A)
    → (guard a x >> guard b y >> ok v) ≡ ok w
    → (a ≡ true) × (b ≡ true) × (v ≡ w)
guards_lem true true x y v w h = (refl, refl, ok-injective h)
guards_lem true false x y v w h = absurd cc
guards_lem false true x y v w h = absurd cc
guards_lem false false x y v w h = absurd cc

not-true : (b : Bool) → not b ≡ true → b ≡ false
not-true false h = refl
not-true true h = absurd cc

-- An edit that succeeds was asked to look for a text that is not empty, and the file held it: it
-- replaces that occurrence, and every character before and behind it stays. There is no other, but for
-- one that begins within the replaced characters, as in a text that overlaps with itself.
pub replace_unique-ReplacesOne :
    (old before after text : List ℕ)
    → replace_unique old before after ≡ ok text
    → ReplacesOne old before after text
unfolding replace_unique
replace_unique-ReplacesOne old before after text h =
    let (some_text, once, same) =
      guards_lem (not (is_empty before)) (occurrences before 0 old == 1) validation_error
        validation_error (replace_first before after old) text h in
    subst (ReplacesOne old before after) same (
      occurrences-ReplacesOne before after old (not-true (is_empty before) some_text)
        ((==_iff (occurrences before 0 old) 1).0 once))
