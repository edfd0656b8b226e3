-- ===== src/Files/Action.antt =====
-- How a file operation runs: it changes the tree of its workspace and the state beside it, and
-- returns or raises. What was changed before a raise stays changed.
use environments_api.Common.{Bool, Option, none, some, if◌then◌else◌}
use environments_api.Common.Error.{Error}
use environments_api.Common.Result.{Result, ok, err}
use environments_api.Common.Int.{ℤ}
use environments_api.Files.Tree.{Tree}

-- `service` is what the context of a mutation changes, such as the bytes counted for the quota.
pub record World (S : Type 0) : Type 0 where
  pub tree : Tree
  pub service : S

-- `Admit` of app/files.py: a context that is entered before anything is created. It refuses the
-- growth, or is told of a mutation that fails.
pub record Admit (S : Type 0) : Type 0 where
  pub enter : ℤ → S → Result S
  pub fail : ℤ → S → S

-- `_admit(None, growth)`, the null context.
abbrev pub no_admit : {S : Type 0} → Admit S
no_admit = record { enter = λ growth s. ok s; fail = λ growth s. s }

abbrev pub Action : Type 0 → Type 0 → Type 0
Action S A = World S → Result A × World S

module _ {S : Type 0} where
  module _ {A : Type 0} where
    abbrev pub pure : A → Action S A
    pure a w = (ok a, w)

    abbrev pub raise : Error → Action S A
    raise e w = (err e, w)

    abbrev pub lift : Result A → Action S A
    lift r w = (r, w)

    abbrev pub or_raise : Option A → Error → Action S A
    or_raise none e = raise e
    or_raise (some a) e = pure a

  -- What reads the tree, and may refuse.
  abbrev pub reads : {A : Type 0} → (Tree → Result A) → Action S A
  reads f w = (f w.tree, w)

  -- What happens to the tree.
  abbrev pub modify : (Tree → Tree) → Action S (Unit {0})
  modify f w = (ok tt, record w { tree = f w.tree })

  abbrev pub and_then : {A B : Type 0} → Result A × World S → (A → Action S B) → Result B × World S
  and_then (ok a, w) rest = rest a w
  and_then (err e, w) rest = (err e, w)

  infixl 5 ◌>>=◌ ◌>>◌
  abbrev pub ◌>>=◌ : {A B : Type 0} → Action S A → (A → Action S B) → Action S B
  ◌>>=◌ m rest w = and_then (m w) rest

  abbrev pub ◌>>◌ : {A B : Type 0} → Action S A → Action S B → Action S B
  m >> rest = m >>= λ _. rest

  abbrev pub raise_if : Bool → Error → Action S (Unit {0})
  raise_if c e w = (if c then err e else ok tt, w)

  -- `try: ... finally: ...`
  abbrev pub finally : {A : Type 0} → (Tree → Tree) → Action S A → Action S A
  finally last m w = let (r, w') = m w in (r, record w' { tree = last w'.tree })

  abbrev pub after_mutation : {A : Type 0} → Admit S → ℤ → Result A × World S → Result A × World S
  after_mutation admit growth (ok a, w) = (ok a, w)
  after_mutation admit growth (err e, w) =
      (err e, record w { service = admit.fail growth w.service })

  abbrev pub entered :
      {A : Type 0} → Admit S → ℤ → Action S A → World S → Result S → Result A × World S
  entered admit growth body w (err e) = (err e, w)
  entered admit growth body w (ok s) = after_mutation admit growth (body (record w { service = s }))

  -- `with _admit(admit, growth): body`
  unfoldable pub with_admit : {A : Type 0} → Admit S → ℤ → Action S A → Action S A
  with_admit admit growth body w = entered admit growth body w (admit.enter growth w.service)
