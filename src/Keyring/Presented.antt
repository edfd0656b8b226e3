-- ===== src/Keyring/Presented.antt =====
-- presented_token (app/keyring/auth.py): what a token that is accepted was presented as.
use environments_api.Common.{
  ◌≡◌, refl, sym, ap, ◌∙◌, ◌⊎◌, inl, inr, Bool, true, false, not, ◌&&◌, ◌||◌, Option, none, some,
  [], ◌∷◌, ◌++◌, map, ◌==◌, ==_iff, Bool-cases, is_empty,
}
use environments_api.Common.Error.{unauthorized}
use environments_api.Common.Result.{ok, ◌>>◌, guard}
use environments_api.Files.Tree.{Text, text_eq}
use environments_api.Files.Tree.Laws.{text_eq_iff}
use environments_api.Keyring.{
  partition_space, presented_token, or_empty, lower, bearer_scheme, given, bearer_token,
}

-- With an Authorization header the token is what stands behind the scheme `bearer`, in letters of
-- either case, and one space, and a second header is empty or the same; without one it is the second
-- header. It is never empty.
abbrev pub Presented : Option Text → Option Text → Text → Type 0
Presented none legacy token = (legacy ≡ some token) × (is_empty token ≡ false)
Presented (some authorization) legacy token =
    (scheme : Text) × (authorization ≡ scheme ++ (b' ' ∷ token))
    × (map lower scheme ≡ bearer_scheme)
    × (is_empty token ≡ false)
    × ((is_empty (or_empty legacy) ≡ true) ⊎ (or_empty legacy ≡ token))

-- What is behind the first space, if anything is.
partition_space-append :
    (xs : Text)
    → is_empty (partition_space xs).1 ≡ false
    → xs ≡ (partition_space xs).0 ++ (b' ' ∷ (partition_space xs).1)
unfolding partition_space
partition_space-append [] h = absurd cc
partition_space-append (c ∷ cs) h = elim (Bool-cases (c == b' ')) [
  | inl e ↦ rw e (ap (λ x. x ∷ cs) ((==_iff c b' ').0 e))
  | inr e ↦
      let more : is_empty (partition_space cs).1 ≡ false = rw e at h in
      rw e (ap (λ l. c ∷ l) (partition_space-append cs more))
]

not-true : (b : Bool) → not b ≡ true → b ≡ false
not-true false h = refl
not-true true h = absurd cc

given-ok : (text token : Text) → given text ≡ ok token → (text ≡ token) × (is_empty token ≡ false)
given-ok [] token h = absurd cc
given-ok (x ∷ xs) token h = let same : x ∷ xs ≡ token = cc in (same, ap is_empty (sym same))

bearer_token-ok :
    (legacy scheme bearer token : Text)
    → bearer_token legacy scheme bearer ≡ ok token
    → (bearer ≡ token)
      × (is_empty token ≡ false)
      × (text_eq (map lower scheme) bearer_scheme ≡ true)
      × ((is_empty legacy ≡ true) ⊎ (text_eq legacy bearer ≡ true))
bearer_token-ok legacy scheme bearer token h =
    by_tests (text_eq (map lower scheme) bearer_scheme) (not (is_empty bearer)) (is_empty legacy)
      (text_eq legacy bearer) h
  where
    by_tests :
        (a b c d : Bool)
        → (guard (a && b) unauthorized >> guard (c || d) unauthorized >> given bearer) ≡ ok token
        → (bearer ≡ token) × (is_empty token ≡ false) × (a ≡ true) × ((c ≡ true) ⊎ (d ≡ true))
    by_tests true true true d x = let g = given-ok bearer token x in (g.0, g.1, refl, inl refl)
    by_tests true true false true x = let g = given-ok bearer token x in (g.0, g.1, refl, inr refl)
    by_tests true true false false x = absurd cc
    by_tests true false c d x = absurd cc
    by_tests false b c d x = absurd cc

-- A token that is accepted was presented: with an Authorization header it is what stands in it behind
-- the scheme `bearer`, in letters of either case, and one space, and then the second header is absent,
-- empty, or the same token; without an Authorization header it is the second header. It is not empty.
pub presented_token-Presented :
    (authorization legacy : Option Text) (token : Text)
    → presented_token authorization legacy ≡ ok token
    → Presented authorization legacy token
unfolding presented_token
presented_token-Presented none none token h = absurd cc
presented_token-Presented none (some text) token h =
    let (same, full) = given-ok text token h in (ap some same, full)
presented_token-Presented (some authorization) legacy token h =
    let (front, behind) = partition_space authorization in
    let (same, full, named, second) = bearer_token-ok (or_empty legacy) front behind token h in
    let something : is_empty behind ≡ false = ap is_empty same ∙ full in
    (
      front,
      partition_space-append authorization something ∙ ap (λ b. front ++ (b' ' ∷ b)) same,
      (text_eq_iff (map lower front) bearer_scheme).0 named,
      full,
      agree behind same second,
    )
  where
    agree :
        (behind : Text)
        → behind ≡ token
        → (is_empty (or_empty legacy) ≡ true) ⊎ (text_eq (or_empty legacy) behind ≡ true)
        → (is_empty (or_empty legacy) ≡ true) ⊎ (or_empty legacy ≡ token)
    agree behind same (inl missing) = inl missing
    agree behind same (inr equal) = inr ((text_eq_iff (or_empty legacy) behind).0 equal ∙ same)
