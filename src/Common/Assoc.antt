-- ===== src/Common/Assoc.antt =====
-- Python's `dict` with string keys, as an association list in insertion order.
use environments_api.Common.Tests.{if◌then◌else◌, Bool-cases}
use mathlib.Core.Logic.{inl, inr}
use mathlib.Core.Bool.{Bool, true, false}
use Prim.Native.String.{String}
use mathlib.Core.Path.{◌≡◌, refl}
use mathlib.Core.List.{List, [], ◌∷◌}
use mathlib.Core.Option.{Option, none, some}
use native.Mathlib.Omega.{arith}
use text.Mathlib.Text.{◌==◌ as str_eq}
use text.Mathlib.TextEquality.{eq_iff}

abbrev pub Assoc {ℓ} : Type ℓ → Type ℓ
Assoc V = List (String × V)

module _ {ℓ} {V : Type ℓ} where
  abbrev pub is_none : Option V → Bool
  is_none none = true
  is_none (some v) = false

  -- `x if x is not None else y`
  abbrev pub or_option : Option V → Option V → Option V
  or_option none y = y
  or_option (some v) y = some v

  -- `d.get(key)`
  unfoldable pub lookup : String → Assoc V → Option V
  lookup key [] = none
  lookup key ((name, value) ∷ rest) = if str_eq name key then some value else lookup key rest

  -- `d[key] = value`: a key keeps its place
  unfoldable pub insert : String → V → Assoc V → Assoc V
  insert key value [] = (key, value) ∷ []
  insert key value ((name, old) ∷ rest) =
      let tail = insert key value rest in
      if str_eq name key then (name, value) ∷ rest else (name, old) ∷ tail

  -- `d.pop(key, None)`
  unfoldable pub remove : String → Assoc V → Assoc V
  remove key [] = []
  remove key ((name, value) ∷ rest) =
      let tail = remove key rest in if str_eq name key then tail else (name, value) ∷ tail

  pub lookup-insert :
      (key asked : String) (value : V) (d : Assoc V)
      → lookup asked (insert key value d)
        ≡ (if str_eq key asked then some value else lookup asked d)
  unfolding lookup insert
  lookup-insert key asked value [] = refl
  lookup-insert key asked value ((name, old) ∷ rest) =
      let ih = lookup-insert key asked value rest in
      ground (arith, ih, eq_iff name key, eq_iff name asked, eq_iff key asked)

  pub lookup-remove :
      (key asked : String) (d : Assoc V)
      → lookup asked (remove key d) ≡ (if str_eq key asked then none else lookup asked d)
  unfolding lookup remove
  lookup-remove key asked [] = ground arith
  lookup-remove key asked ((name, old) ∷ rest) =
      let ih = lookup-remove key asked rest in
      ground (arith, ih, eq_iff name key, eq_iff name asked, eq_iff key asked)

  -- No key stands twice, as in any `dict`.
  abbrev pub IsDict : Assoc V → Type 0
  IsDict [] = Unit
  IsDict ((k, v) ∷ m) = (is_none (lookup k m) ≡ true) × IsDict m

  pub insert-IsDict : (k : String) (v : V) (m : Assoc V) → IsDict m → IsDict (insert k v m)
  unfolding insert lookup
  insert-IsDict k v [] h = (refl, tt)
  insert-IsDict k v ((j, w) ∷ m) h = elim (Bool-cases (str_eq j k)) [
    | inl e ↦ rw e h
    | inr e ↦
        rw e
          (rw lookup-insert (ground (arith, eq_iff k j, eq_iff j k, h.0)), insert-IsDict k v m h.1)
  ]

  -- `m.update(c)`
  unfoldable pub update : Assoc V → Assoc V → Assoc V
  update m [] = m
  update m ((k, v) ∷ c) = update (insert k v m) c

  pub lookup-update :
      (j : String) (m c : Assoc V)
      → IsDict c
      → lookup j (update m c) ≡ or_option (lookup j c) (lookup j m)
  unfolding update lookup
  lookup-update j m [] h = refl
  lookup-update j m ((k, v) ∷ c) h =
      ground (arith, eq_iff k j, h.0, lookup-update j (insert k v m) c h.1, lookup-insert k j v m)
