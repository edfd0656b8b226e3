-- ===== src/Shells/Redact/Prefixes.antt =====
-- Prefixes, as `bytes.startswith` tests them (app/shells/redact.py), and what a byte says of them.
use environments_api.Common.{
  ℕ, ◌≤◌, ◌<◌, ◌≡◌, refl, ◌≢◌, ◌⊎◌, inl, inr, true, false, List, [], ◌∷◌, ◌++◌, arith, length, All,
}
use environments_api.Shells.Redact.{starts_with}

-- The byte is none of the list's.
abbrev pub Avoids : ℕ → List ℕ → Type 0
Avoids z xs = All (λ x. x ≢ z) xs

abbrev pub HasByte : ℕ → List ℕ → Type 0
HasByte z [] = ⊥
HasByte z (x ∷ xs) = (x ≡ z) ⊎ HasByte z xs

pub starts_with-Avoids :
    (z : ℕ) (s xs : List ℕ) → Avoids z s → HasByte z xs → starts_with s xs ≡ false
unfolding starts_with
starts_with-Avoids z s [] h k = elim k [ ]
starts_with-Avoids z [] (x ∷ xs) h k = refl
starts_with-Avoids z (y ∷ s) (x ∷ xs) h (inl e) = let d : y ≢ z = h.0 in ground (arith, d, e)
starts_with-Avoids z (y ∷ s) (x ∷ xs) h (inr k) =
    let ih = starts_with-Avoids z s xs h.1 k in ground (arith, ih)

pub HasByte-append : (z : ℕ) (w g : List ℕ) → HasByte z ((w ++ (z ∷ [])) ++ g)
HasByte-append z [] g = inl refl
HasByte-append z (x ∷ w) g = inr (HasByte-append z w g)

pub starts_with-append :
    (xs ys p : List ℕ) → starts_with xs p ≡ true → starts_with (xs ++ ys) p ≡ true
unfolding starts_with
starts_with-append xs ys [] h = refl
starts_with-append [] ys (p ∷ ps) h = absurd cc
starts_with-append (x ∷ xs) ys (p ∷ ps) h =
    let ih = starts_with-append xs ys ps in ground (arith, ih, h)

pub starts_with-length : (xs p : List ℕ) → starts_with xs p ≡ true → length p ≤ length xs
unfolding starts_with
starts_with-length xs [] h = omega arith
starts_with-length [] (p ∷ ps) h = absurd cc
starts_with-length (x ∷ xs) (p ∷ ps) h = let ih = starts_with-length xs ps in ground (arith, ih, h)

-- Where a prefix begins in a list and ends behind it, the list is a prefix of it.
pub starts_with-across :
    (xs ys p : List ℕ)
    → starts_with (xs ++ ys) p ≡ true
    → starts_with xs p ≡ false
    → (starts_with p xs ≡ true) × (length xs < length p)
unfolding starts_with
starts_with-across xs ys [] h k = absurd cc
starts_with-across [] ys (p ∷ ps) h k = (refl, omega arith)
starts_with-across (x ∷ xs) ys (p ∷ ps) h k =
    let ih = starts_with-across xs ys ps in ground (arith, ih, h, k)
