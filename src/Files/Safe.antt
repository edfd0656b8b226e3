-- ===== src/Files/Safe.antt =====
-- Actions that leave the files where they raise (app/files.py): one rule for each way to build one.
use environments_api.Common.{
  ◌≡◌, refl, sym, ap, ◌∙◌, ◌⊎◌, inl, inr, Bool, true, false, Option, none, some, [], ◌∷◌, ◌++◌,
  if◌then◌else◌, Bool-cases,
}
use environments_api.Common.Error.{Error}
use environments_api.Common.Result.{Result, ok, err}
use environments_api.Common.Int.{ℤ}
use environments_api.Files.Tree.{FilePath, Node, directory, Tree, path_eq, node_at, put}
use environments_api.Files.Tree.Laws.{path_eq_iff, node_at-put}
use environments_api.Files.Access.{
  parent, walk, make_directory, make_missing, enter_directory, go_on,
}
use environments_api.Files.Action.{
  World, Action, Admit, with_admit, entered, after_mutation, and_then, pure, raise_if,
}
use environments_api.Files.Mutations.{under_parent}
use environments_api.Files.Written.{append-ne-nil}

-- Every path stands as it did, but that directories may have come into being.
abbrev pub OnlyDirectories : Tree → Tree → Type 0
OnlyDirectories t t' =
    (q : FilePath)
    → (node_at q t' ≡ node_at q t) ⊎ ((node_at q t ≡ none) × (node_at q t' ≡ some directory))

pub OnlyDirectories-refl : (t : Tree) → OnlyDirectories t t
OnlyDirectories-refl t q = inl refl

pub OnlyDirectories-trans :
    (t u v : Tree) → OnlyDirectories t u → OnlyDirectories u v → OnlyDirectories t v
OnlyDirectories-trans t u v h k q = both (h q) (k q)
  where
    both :
        (node_at q u ≡ node_at q t) ⊎ ((node_at q t ≡ none) × (node_at q u ≡ some directory))
        → (node_at q v ≡ node_at q u) ⊎ ((node_at q u ≡ none) × (node_at q v ≡ some directory))
        → (node_at q v ≡ node_at q t) ⊎ ((node_at q t ≡ none) × (node_at q v ≡ some directory))
    both (inl a) (inl b) = inl (b ∙ a)
    both (inl a) (inr b) = inr (sym a ∙ b.0, b.1)
    both (inr a) (inl b) = inr (a.0, b ∙ a.1)
    both (inr a) (inr b) = absurd (cc (a.1, b.0))

put-OnlyDirectories :
    (p : FilePath) (t : Tree)
    → path_eq p [] ≡ false
    → node_at p t ≡ none
    → OnlyDirectories t (put p directory t)
put-OnlyDirectories p t proper e q = by_path (Bool-cases (path_eq p q))
  where
    by_path :
        (path_eq p q ≡ true) ⊎ (path_eq p q ≡ false)
        → (node_at q (put p directory t) ≡ node_at q t)
          ⊎ ((node_at q t ≡ none) × (node_at q (put p directory t) ≡ some directory))
    by_path (inl same) = inr (
      ap (λ r. node_at r t) (sym ((path_eq_iff p q).0 same)) ∙ e,
      node_at-put p q directory t proper ∙ ap (λ c. if c then some directory else node_at q t) same,
    )
    by_path (inr other) = inl (
        node_at-put p q directory t proper
        ∙ ap (λ c. if c then some directory else node_at q t) other)

make_directory-OnlyDirectories :
    (p : FilePath) (t : Tree) → path_eq p [] ≡ false → OnlyDirectories t (make_directory p t)
make_directory-OnlyDirectories p t proper = by_node (node_at p t) refl
  where
    by_node : (o : Option Node) → node_at p t ≡ o → OnlyDirectories t (make_missing p t o)
    by_node none e = put-OnlyDirectories p t proper e
    by_node (some n) e = OnlyDirectories-refl t

-- The walk makes directories and nothing else, also where it ends in an error.
pub walk-OnlyDirectories :
    (create : Bool) (at parts : FilePath) (t : Tree) → OnlyDirectories t (walk create at parts t).1
unfolding walk
walk-OnlyDirectories create at [] t = OnlyDirectories-refl t
walk-OnlyDirectories create at (part ∷ parts) t =
    let here : FilePath = at ++ (part ∷ []) in
    let t' : Tree = if create then make_directory here t else t in
    OnlyDirectories-trans t t' _ (made create) (
      entered_directory t' (walk create here parts) (enter_directory (node_at here t'))
        (walk-OnlyDirectories create here parts t'))
  where
    made : (c : Bool) → OnlyDirectories t (if c then make_directory (at ++ (part ∷ [])) t else t)
    made true = make_directory-OnlyDirectories (at ++ (part ∷ [])) t (append-ne-nil at part)
    made false = OnlyDirectories-refl t

    entered_directory :
        (t' : Tree) (rest : Tree → Result (Unit {0}) × Tree) (r : Result (Unit {0}))
        → OnlyDirectories t' (rest t').1
        → OnlyDirectories t' (go_on t' rest r).1
    entered_directory t' rest (ok done) h = h
    entered_directory t' rest (err e) h = OnlyDirectories-refl t'

module _ {S : Type 0} where
  -- An action that raises leaves the files.
  abbrev pub IsSafe : {A : Type 0} → Result A × World S → Tree → Type 0
  IsSafe (ok a, w) t = Unit
  IsSafe (err e, w) t = OnlyDirectories t w.tree

  pub IsSafe-trans :
      {A : Type 0} (r : Result A × World S) (t u : Tree)
      → OnlyDirectories t u
      → IsSafe r u
      → IsSafe r t
  IsSafe-trans (ok a, w) t u h k = tt
  IsSafe-trans (err e, w) t u h k = OnlyDirectories-trans t u w.tree h k

  pub lift_then-IsSafe :
      {A B : Type 0} (r : Result A) (rest : A → Action S B) (w : World S)
      → ((a : A) → IsSafe (rest a w) w.tree)
      → IsSafe (and_then (r, w) rest) w.tree
  lift_then-IsSafe (ok a) rest w h = h a
  lift_then-IsSafe (err e) rest w h = OnlyDirectories-refl w.tree

  pub raise_if_then-IsSafe :
      {B : Type 0} (c : Bool) (x : Error) (rest : Action S B) (w : World S)
      → IsSafe (rest w) w.tree
      → IsSafe (and_then (raise_if c x w) (λ _. rest)) w.tree
  raise_if_then-IsSafe true x rest w h = OnlyDirectories-refl w.tree
  raise_if_then-IsSafe false x rest w h = h

  -- What follows cannot raise.
  pub then_pure-IsSafe :
      {A B : Type 0} (r : Result A × World S) (f : A → B) (t : Tree)
      → IsSafe r t
      → IsSafe (and_then r (λ a. pure (f a))) t
  then_pure-IsSafe (ok a, w) f t h = tt
  then_pure-IsSafe (err e, w) f t h = h

  pub under_parent-IsSafe :
      {A : Type 0} (create : Bool) (p : FilePath) (body : Action S A) (w : World S)
      → ((v : World S) → OnlyDirectories w.tree v.tree → IsSafe (body v) v.tree)
      → IsSafe (under_parent create p body w) w.tree
  under_parent-IsSafe create p body w h =
      by_walk (walk create [] (parent p) w.tree) (walk-OnlyDirectories create [] (parent p) w.tree)
    where
      by_walk :
          (x : Result (Unit {0}) × Tree)
          → OnlyDirectories w.tree x.1
          → IsSafe (and_then (x.0, record w { tree = x.1 }) (λ _. body)) w.tree
      by_walk (ok done, t) k =
          IsSafe-trans (body (record w { tree = t })) w.tree t k (h (record w { tree = t }) k)
      by_walk (err e, t) k = k

  pub with_admit-IsSafe :
      {A : Type 0} (admit : Admit S) (growth : ℤ) (body : Action S A) (w : World S)
      → ((s : S) → IsSafe (body (record w { service = s })) w.tree)
      → IsSafe (with_admit admit growth body w) w.tree
  unfolding with_admit
  with_admit-IsSafe {A} admit growth body w h = by_entry (admit.enter growth w.service)
    where
      by_body :
          (x : Result A × World S) → IsSafe x w.tree → IsSafe (after_mutation admit growth x) w.tree
      by_body (ok a, v) k = tt
      by_body (err e, v) k = k

      by_entry : (r : Result S) → IsSafe (entered admit growth body w r) w.tree
      by_entry (ok s) = by_body (body (record w { service = s })) (h s)
      by_entry (err e) = OnlyDirectories-refl w.tree
