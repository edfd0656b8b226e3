-- ===== src/Files/Tree/Laws.antt =====
-- What reading a path gives after a change of the tree.
use environments_api.Common.{
  ◌≡◌, refl, ◌↔◌, true, false, none, some, [], ◌∷◌, arith, if◌then◌else◌, ==_iff,
}
use environments_api.Files.Tree.{
  Text, FilePath, Node, Tree, text_eq, path_eq, find, node_at, put, erase,
}

pub text_eq_iff : (p q : Text) → (text_eq p q ≡ true) ↔ (p ≡ q)
unfolding text_eq
text_eq_iff [] [] = (λ _. refl, λ _. refl)
text_eq_iff [] (q ∷ qs) = (λ h. absurd cc, λ h. absurd cc)
text_eq_iff (p ∷ ps) [] = (λ h. absurd cc, λ h. absurd cc)
text_eq_iff (p ∷ ps) (q ∷ qs) = let ih = text_eq_iff ps qs in ground (arith, ==_iff p q, ih)

pub path_eq_iff : (p q : FilePath) → (path_eq p q ≡ true) ↔ (p ≡ q)
unfolding path_eq
path_eq_iff [] [] = (λ _. refl, λ _. refl)
path_eq_iff [] (q ∷ qs) = (λ h. absurd cc, λ h. absurd cc)
path_eq_iff (p ∷ ps) [] = (λ h. absurd cc, λ h. absurd cc)
path_eq_iff (p ∷ ps) (q ∷ qs) = let ih = path_eq_iff ps qs in ground (arith, text_eq_iff p q, ih)

pub path_eq_refl : (p : FilePath) → path_eq p p ≡ true
path_eq_refl p = (path_eq_iff p p).1 refl

pub find-put :
    (p q : FilePath) (n : Node) (t : Tree)
    → find q (put p n t) ≡ (if path_eq p q then some n else find q t)
unfolding find put
find-put p q n [] = refl
find-put p q n ((r, m) ∷ t) =
    ground (arith, find-put p q n t, path_eq_iff r p, path_eq_iff r q, path_eq_iff p q)

pub find-erase :
    (p q : FilePath) (t : Tree) → find q (erase p t) ≡ (if path_eq p q then none else find q t)
unfolding find erase
find-erase p q [] = ground arith
find-erase p q ((r, m) ∷ t) =
    ground (arith, find-erase p q t, path_eq_iff r p, path_eq_iff r q, path_eq_iff p q)

-- No change reaches the root.
pub node_at-put :
    (p q : FilePath) (n : Node) (t : Tree)
    → path_eq p [] ≡ false
    → node_at q (put p n t) ≡ (if path_eq p q then some n else node_at q t)
unfolding node_at path_eq
node_at-put p [] n t h = rw h
node_at-put p (q ∷ qs) n t h = find-put p (q ∷ qs) n t

pub node_at-erase :
    (p q : FilePath) (t : Tree)
    → path_eq p [] ≡ false
    → node_at q (erase p t) ≡ (if path_eq p q then none else node_at q t)
unfolding node_at path_eq
node_at-erase p [] t h = rw h
node_at-erase p (q ∷ qs) t h = find-erase p (q ∷ qs) t
