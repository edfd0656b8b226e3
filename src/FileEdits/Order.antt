-- ===== src/FileEdits/Order.antt =====
-- parse_patch (app/file_edits.py) always returns, and what it returns is in order.
use environments_api.Common.{
  ℕ, zero, suc, ◌+◌, ◌≤◌, ◌<◌, ◌≡◌, refl, sym, ap, inl, inr, Bool, true, false, not, Option, some,
  List, [], ◌∷◌, arith, ltb, ◌==◌, Bool-cases, Option-cases, length,
}
use mathlib.Core.Path.{subst}
use environments_api.Common.Error.{Error, validation_error}
use environments_api.Common.Result.{
  Result, ok, err, ◌>>◌, guard, bind-eq-ok, ok-injective, ok-injective_pair, Result-cases,
}
use environments_api.Shells.Redact.{starts_with}
use environments_api.FileEdits.{Line, Hunk}
use environments_api.FileEdits.Parse.{
  Header, Body, header_of, put_line, tail_of, no_newline, body, position_of, hunk_of, one_hunk,
  cons_hunk, hunks, drop_labels, some_hunks, parse_patch,
}

-- Each hunk begins where the one before it ends, or later; the first one not before the line given.
abbrev pub IsOrdered : ℕ → List Hunk → Type 0
IsOrdered at [] = Unit
IsOrdered at (k ∷ ks) = (at ≤ k.start) × IsOrdered (k.start + length k.old) ks

-- What holds of a result: of an error, nothing.
abbrev pub IsOrderedResult : ℕ → Result (List Hunk) → Type 0
IsOrderedResult at (err e) = Unit
IsOrderedResult at (ok ks) = IsOrdered at ks

put_line-rest : (l payload : Line) (b b' : Body) → put_line l payload b ≡ ok b' → b'.rest ≡ b.rest
put_line-rest [] payload b b' h = absurd cc
put_line-rest (c ∷ cs) payload b b' h = elim (Bool-cases (c == b' ')) [
  | inl e ↦ sym (ap (λ t. t.rest) (ok-injective (rw e at h)))
  | inr e ↦ elim (Bool-cases (c == b'-')) [
    | inl f ↦ sym (ap (λ t. t.rest) (ok-injective (rw (e, f) at h)))
    | inr f ↦ elim (Bool-cases (c == b'+')) [
      | inl g ↦ sym (ap (λ t. t.rest) (ok-injective (rw (e, f, g) at h)))
      | inr g ↦ absurd (let no : err validation_error ≡ ok b' = rw (e, f, g) at h in cc)
    ]
  ]
]

body-shorter : (ls : List Line) (b : Body) → body ls ≡ ok b → length b.rest ≤ length ls
unfolding body
body-shorter [] b h = let e = ap (λ t. length t.rest) (ok-injective h) in omega (arith, e)
body-shorter (l ∷ []) b h = elim (Bool-cases (starts_with l (b'@' ∷ b'@' ∷ b' ' ∷ []))) [
  | inl e ↦
      let same : ok (record { old = []; new = []; rest = l ∷ [] }) ≡ ok b = rw (e, body) at h in
      let n = ap (λ t. length t.rest) (ok-injective same) in omega (arith, n)
  | inr e ↦
      let put : put_line l (tail_of l) (record { old = []; new = []; rest = [] }) ≡ ok b =
        rw (e, body) at h in
      let n = ap length (put_line-rest l _ _ b put) in omega (arith, n)
]
body-shorter (l ∷ m ∷ ls) b h = elim (Bool-cases (starts_with l (b'@' ∷ b'@' ∷ b' ' ∷ []))) [
  | inl e ↦
      let same : ok (record { old = []; new = []; rest = l ∷ m ∷ ls }) ≡ ok b = rw (e, body) at h in
      let n = ap (λ t. length t.rest) (ok-injective same) in omega (arith, n)
  | inr e ↦ elim (Bool-cases (starts_with m no_newline)) [
    | inl f ↦
        let (b', first, put) = bind-eq-ok (body ls) _ (rw (e, f, body) at h) in
        let ih = body-shorter ls b' first in
        let n = ap length (put_line-rest l _ b' b put) in omega (arith, ih, n)
    | inr f ↦
        let (b', first, put) = bind-eq-ok (body (m ∷ ls)) _ (rw (e, f, body) at h) in
        let ih = body-shorter (m ∷ ls) b' first in
        let n = ap length (put_line-rest l _ b' b put) in omega (arith, ih, n)
  ]
]

first_guard :
    {A : Type 0} (a b c : Bool) (x y z : Error) {v w : A}
    → (guard a x >> (guard b y >> (guard c z >> ok v))) ≡ ok w
    → (a ≡ true) × (v ≡ w)
first_guard true true true x y z h = (refl, ok-injective h)
first_guard true true false x y z h = absurd cc
first_guard true false c x y z h = absurd cc
first_guard false b c x y z h = absurd cc

hunk_of-le : (at : ℕ) (h : Header) (b : Body) (k : Hunk) → hunk_of at h b ≡ ok k → at ≤ k.start
unfolding hunk_of
hunk_of-le at h b k e =
    let (position, found, rest) = bind-eq-ok (position_of h) _ e in
    let (passed, same) =
      first_guard (not (ltb position at)) (length b.old == h.old_size) (length b.new == h.new_size)
        validation_error validation_error validation_error rest in
    let n : position ≡ k.start = ap (λ t. t.start) same in ground (arith, n, passed)

one_hunk_lem :
    (at : ℕ) (l : Line) (ls : List Line) (k : Hunk) (rest : List Line)
    → one_hunk at l ls ≡ ok (k, rest)
    → (at ≤ k.start) × (length rest ≤ length ls)
unfolding one_hunk
one_hunk_lem at l ls k rest h = elim (Option-cases (header_of l)) [
  | inl e ↦ absurd (let no : err validation_error ≡ ok (k, rest) = rw (e, one_hunk) at h in cc)
  | inr (header, e) ↦
      let (b, lines, more) = bind-eq-ok (body ls) _ (rw (e, one_hunk) at h) in
      let (k', made, last) = bind-eq-ok (hunk_of at header b) _ more in
      let same = ok-injective_pair last in
      let n = ap length same.1 in
      let m = body-shorter ls b lines in
      (subst (λ t. at ≤ t.start) (sym same.0) (hunk_of-le at header b k' made), omega (arith, n, m))
]

cons_hunk-IsOrdered :
    (at : ℕ) (k : Hunk) (o : Option (Result (List Hunk))) (r : Result (List Hunk))
    → at ≤ k.start
    → o ≡ some r
    → IsOrderedResult (k.start + length k.old) r
    → (r' : Result (List Hunk)) × (cons_hunk k o ≡ some r') × IsOrderedResult at r'
cons_hunk-IsOrdered at k o (err e) le same h = (err e, rw same refl, tt)
cons_hunk-IsOrdered at k o (ok ks) le same h = (ok (k ∷ ks), rw same refl, (le, h))

hunks-IsOrdered :
    (fuel at : ℕ) (lines : List Line)
    → length lines < fuel
    → (r : Result (List Hunk)) × (hunks fuel at lines ≡ some r) × IsOrderedResult at r
unfolding hunks
hunks-IsOrdered zero at lines h = absurd (omega arith)
hunks-IsOrdered (suc fuel) at [] h = (ok [], refl, tt)
hunks-IsOrdered (suc fuel) at (l ∷ ls) h = elim (Result-cases (one_hunk at l ls)) [
  | inr (why, e) ↦ (err why, rw (e, hunks) refl, tt)
  | inl ((k, rest), e) ↦
      let (le, short) = one_hunk_lem at l ls k rest e in
      let (r, run, ordered) =
        hunks-IsOrdered fuel (k.start + length k.old) rest (omega (arith, short, h)) in
      let (r', all, whole) = cons_hunk-IsOrdered at k _ r le run ordered in
      (r', rw (e, hunks) all, whole)
]

some_hunks-IsOrdered :
    (o : Option (Result (List Hunk))) (r : Result (List Hunk))
    → o ≡ some r
    → IsOrderedResult 0 r
    → (r' : Result (List Hunk)) × (some_hunks o ≡ some r') × IsOrderedResult 0 r'
some_hunks-IsOrdered o (err e) same h = (err e, rw same refl, tt)
some_hunks-IsOrdered o (ok []) same h = (err validation_error, rw same refl, tt)
some_hunks-IsOrdered o (ok (k ∷ ks)) same h = (ok (k ∷ ks), rw same refl, h)

-- Whatever the lines of a patch, parsing it ends, with an error or with hunks that are in order: each
-- begins where the old lines of the one before it end, or later.
pub parse_patch-IsOrdered :
    (lines : List Line)
    → (r : Result (List Hunk)) × (parse_patch lines ≡ some r) × IsOrderedResult 0 r
unfolding parse_patch
parse_patch-IsOrdered lines =
    let ls = drop_labels lines in
    let (r, run, ordered) = hunks-IsOrdered (length ls + 1) 0 ls (omega arith) in
    some_hunks-IsOrdered (hunks (length ls + 1) 0 ls) r run ordered
