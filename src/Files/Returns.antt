-- ===== src/Files/Returns.antt =====
-- What a file operation that returned went through (app/files.py).
use environments_api.Common.{
  ◌≡◌, refl, Bool, true, false, not, Option, none, some, [], if◌then◌else◌,
}
use environments_api.Common.Assoc.{is_none}
use environments_api.Common.Error.{Error}
use environments_api.Common.Result.{Result, ok, err}
use environments_api.Common.Int.{ℤ}
use environments_api.Files.Tree.{FilePath, Bytes, Text, Node, file, Tree, node_at, put, erase}
use environments_api.Files.Access.{check_match, current_etag, walk, parent}
use environments_api.Files.Action.{
  World, Action, Admit, and_then, with_admit, entered, after_mutation, raise_if, lift,
}
use environments_api.Files.Mutations.{
  Host, check_current, create_file, rename, rename_node, under_parent,
}

module _ {S : Type 0} where
  pub and_then-ok :
      {A B : Type 0} (r : Result A × World S) (rest : A → Action S B) {b : B} {w' : World S}
      → and_then r rest ≡ (ok b, w')
      → (a : A) × (w : World S) × (r ≡ (ok a, w)) × (rest a w ≡ (ok b, w'))
  and_then-ok (ok a, w) rest e = (a, w, refl, e)
  and_then-ok (err why, w) rest e = absurd cc

  -- The same for a step that only computes.
  pub lift_then-ok :
      {A B : Type 0} (r : Result A) (rest : A → Action S B) (w : World S) {b : B} {w' : World S}
      → and_then (r, w) rest ≡ (ok b, w')
      → (a : A) × (r ≡ ok a) × (rest a w ≡ (ok b, w'))
  lift_then-ok (ok a) rest w e = (a, refl, e)
  lift_then-ok (err why) rest w e = absurd cc

  pub raise_if_then-ok :
      {B : Type 0} (c : Bool) (x : Error) (rest : Action S B) (w : World S) {b : B} {w' : World S}
      → and_then (raise_if c x w) (λ _. rest) ≡ (ok b, w')
      → (c ≡ false) × (rest w ≡ (ok b, w'))
  raise_if_then-ok true x rest w e = absurd cc
  raise_if_then-ok false x rest w e = (refl, e)

  pub raise_if-ok :
      (c : Bool) (e : Error) {w w' : World S} {u : Unit {0}}
      → raise_if c e w ≡ (ok u, w')
      → (c ≡ false) × (w' ≡ w)
  raise_if-ok true e h = absurd cc
  raise_if-ok false e h = (refl, cc)

  pub lift-ok :
      {A : Type 0} (r : Result A) {w w' : World S} {a : A}
      → ◌≡◌ {A = Result A × World S} (r, w) (ok a, w')
      → (r ≡ ok a) × (w' ≡ w)
  lift-ok r h = (cc, cc)

  -- The walk to the directory succeeded, and the body ran behind it.
  pub under_parent-ok :
      {A : Type 0} (create : Bool) (p : FilePath) (body : Action S A) (w : World S) {a : A}
      {w' : World S}
      → under_parent create p body w ≡ (ok a, w')
      → ((walk create [] (parent p) w.tree).0 ≡ ok tt)
        × (body (record w { tree = (walk create [] (parent p) w.tree).1 }) ≡ (ok a, w'))
  under_parent-ok create p body w {a = a} {w' = w'} e = by_walk (walk create [] (parent p) w.tree) e
    where
      by_walk :
          (x : Result (Unit {0}) × Tree)
          → and_then (x.0, record w { tree = x.1 }) (λ _. body) ≡ (ok a, w')
          → (x.0 ≡ ok tt) × (body (record w { tree = x.1 }) ≡ (ok a, w'))
      by_walk (ok tt, t) e = (refl, e)
      by_walk (err why, t) e = absurd cc

  pub with_admit-ok :
      {A : Type 0} (admit : Admit S) (growth : ℤ) (body : Action S A) (w : World S) {a : A}
      {w' : World S}
      → with_admit admit growth body w ≡ (ok a, w')
      → (s : S) × (admit.enter growth w.service ≡ ok s)
        × (body (record w { service = s }) ≡ (ok a, w'))
  unfolding with_admit
  with_admit-ok {A} admit growth body w {a = a} {w' = w'} e =
      by_entry (admit.enter growth w.service) refl e
    where
      by_body :
          (x : Result A × World S) → after_mutation admit growth x ≡ (ok a, w') → x ≡ (ok a, w')
      by_body (ok b, v) e = e
      by_body (err why, v) e = absurd cc

      by_entry :
          (r : Result S)
          → admit.enter growth w.service ≡ r
          → entered admit growth body w r ≡ (ok a, w')
          → (s : S) × (admit.enter growth w.service ≡ ok s)
            × (body (record w { service = s }) ≡ (ok a, w'))
      by_entry (ok s) f e = (s, f, by_body (body (record w { service = s })) e)
      by_entry (err why) f e = absurd cc

module _ (h : Host) {S : Type 0} where
  pub check_current-ok :
      (p : FilePath) (expected : Option Text) {w w' : World S} {u : Unit {0}}
      → check_current h p expected w ≡ (ok u, w')
      → (actual : Option Text) × (current_etag h.sha256_hex p w.tree ≡ ok actual)
        × (check_match expected actual ≡ ok tt)
        × (w' ≡ w)
  check_current-ok p expected {w} {w'} {u} e = by_etag (current_etag h.sha256_hex p w.tree) refl e
    where
      by_etag :
          (r : Result (Option Text))
          → current_etag h.sha256_hex p w.tree ≡ r
          → and_then (r, w) (λ actual. lift (check_match expected actual)) ≡ (ok u, w')
          → (actual : Option Text) × (current_etag h.sha256_hex p w.tree ≡ ok actual)
            × (check_match expected actual ≡ ok tt)
            × (w' ≡ w)
      by_etag (ok actual) f e = (actual, f, cc, cc)
      by_etag (err why) f e = absurd cc

  pub create_file-ok :
      (p : FilePath) (b : Bytes) (taken : Error) (w w' : World S) {u : Unit {0}}
      → create_file h p b taken w ≡ (ok u, w')
      → (node_at p w.tree ≡ none) × (w' ≡ record w { tree = put p (file b) w.tree })
  create_file-ok p b taken w w' {u} e = by_node (node_at p w.tree) refl e
    where
      by_node :
          (o : Option Node)
          → node_at p w.tree ≡ o
          → and_then
              (if not (is_none o) then err taken else ok tt, w)
              (λ _ v. (ok tt, record v { tree = put p (file b) v.tree }))
            ≡ (ok u, w')
          → (node_at p w.tree ≡ none) × (w' ≡ record w { tree = put p (file b) w.tree })
      by_node none f e = (f, cc)
      by_node (some n) f e = absurd cc

  pub rename-ok :
      (from to : FilePath) (w w' : World S) {u : Unit {0}}
      → rename h from to w ≡ (ok u, w')
      → (n : Node) × (node_at from w.tree ≡ some n)
        × (w' ≡ record w { tree = put to n (erase from w.tree) })
  rename-ok from to w w' {u} e = by_node (node_at from w.tree) refl e
    where
      by_node :
          (o : Option Node)
          → node_at from w.tree ≡ o
          → ◌≡◌ {A = Result (Unit {0}) × World S}
              (
                (rename_node h from to o w.tree).0,
                record w { tree = (rename_node h from to o w.tree).1 },
              )
              (ok u, w')
          → (n : Node) × (node_at from w.tree ≡ some n)
            × (w' ≡ record w { tree = put to n (erase from w.tree) })
      by_node none f e = absurd cc
      by_node (some n) f e = (n, f, cc)
