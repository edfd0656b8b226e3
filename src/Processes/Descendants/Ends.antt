-- ===== src/Processes/Descendants/Ends.antt =====
-- descendants (app/procfs.py): on a snapshot without a cycle the search ends with what it is to find.
use environments_api.Common.{
  ℕ, zero, suc, ◌+◌, ◌<◌, ◌≡◌, refl, sym, ap, ◌∙◌, ◌↔◌, ◌⊎◌, inl, inr, true, false, some, List, [],
  ◌∷◌, ◌++◌, append-nil, append_assoc, arith, ◌==◌, if◌then◌else◌, ==_iff, Bool-cases, All,
}
use mathlib.Core.Path.{subst}
use environments_api.Processes.{ProcStat}
use environments_api.Processes.Descendants.{
  children, push_all, push_all-Has, below, descendants, Has,
}

-- One is below another: its child, or below a child of it.
pub data Below (snap : List ProcStat) : ℕ → ℕ → Type 0 where
  child : {p x : ℕ} → Has x (children snap p) → Below snap p x
  through : {p q x : ℕ} → Has q (children snap p) → Below snap q x → Below snap p x

push_all-append : (cs frontier : List ℕ) → push_all cs frontier ≡ push_all cs [] ++ frontier
unfolding push_all
push_all-append [] frontier = refl
push_all-append (c ∷ cs) frontier =
    push_all-append cs (c ∷ frontier)
    ∙ (sym (append_assoc (push_all cs []) (c ∷ []) frontier)
        ∙ ap (λ l. l ++ frontier) (sym (push_all-append cs (c ∷ []))))

Has-push_all :
    (x : ℕ) (cs frontier : List ℕ) → Has x (push_all cs frontier) → Has x cs ⊎ Has x frontier
unfolding push_all
Has-push_all x [] frontier h = inr h
Has-push_all x (c ∷ cs) frontier h = sort (Has-push_all x cs (c ∷ frontier) h)
  where
    sort : Has x cs ⊎ ((x ≡ c) ⊎ Has x frontier) → ((x ≡ c) ⊎ Has x cs) ⊎ Has x frontier
    sort (inl h) = inl (inr h)
    sort (inr (inl e)) = inl (inl e)
    sort (inr (inr h)) = inr h

pub Has-append : (x : ℕ) (xs ys : List ℕ) → Has x (xs ++ ys) → Has x xs ⊎ Has x ys
Has-append x [] ys h = inr h
Has-append x (y ∷ xs) ys (inl e) = inl (inl e)
Has-append x (y ∷ xs) ys (inr h) = sort (Has-append x xs ys h)
  where
    sort : Has x xs ⊎ Has x ys → ((x ≡ y) ⊎ Has x xs) ⊎ Has x ys
    sort (inl h) = inl (inr h)
    sort (inr h) = inr h

append-Has : (x : ℕ) (xs ys : List ℕ) → Has x xs ⊎ Has x ys → Has x (xs ++ ys)
append-Has x [] ys (inl h) = absurd h
append-Has x [] ys (inr h) = h
append-Has x (y ∷ xs) ys (inl (inl e)) = inl e
append-Has x (y ∷ xs) ys (inl (inr h)) = inr (append-Has x xs ys (inl h))
append-Has x (y ∷ xs) ys (inr h) = inr (append-Has x xs ys (inr h))

-- The part of the search that a frontier stands for: its rounds, and what it finds.
record Part (snap : List ProcStat) (frontier : List ℕ) : Type 0 where
  rounds : ℕ
  out : List ℕ
  runs :
      (all left : ℕ) (rest found : List ℕ)
      → all ≡ rounds + left
      → below all snap (frontier ++ rest) found ≡ below left snap rest (found ++ out)
  only : (x : ℕ) → Has x out → (p : ℕ) × Has p frontier × Below snap p x
  every : (p x : ℕ) → Has p frontier → Below snap p x → Has x out

module _ (snap : List ProcStat) where
  Part-nil : Part snap []
  Part-nil = record {
    rounds = 0;
    out = [];
    runs = λ all left rest found e.
        ap (λ n. below n snap rest found) (omega (arith, e))
        ∙ ap (below left snap rest) (sym (append-nil found));
    only = λ x h. absurd h;
    every = λ p x h b. absurd h;
  }

  Part-cons :
      (p : ℕ) (ps : List ℕ)
      → Part snap (push_all (children snap p) [])
      → Part snap ps
      → Part snap (p ∷ ps)
  unfolding below
  Part-cons p ps first later = record {
    rounds = suc (first.rounds + later.rounds);
    out = (children snap p ++ first.out) ++ later.out;
    runs = step;
    only = sound;
    every = complete;
  }
    where
      cs : List ℕ
      cs = children snap p

      step :
          (all left : ℕ) (rest found : List ℕ)
          → all ≡ suc (first.rounds + later.rounds) + left
          → below all snap ((p ∷ ps) ++ rest) found
            ≡ below left snap rest (found ++ ((children snap p ++ first.out) ++ later.out))
      step zero left rest found e = absurd (omega arith)
      step (suc n) left rest found e =
          ap (λ l. below n snap l (found ++ cs)) (push_all-append cs (ps ++ rest))
          ∙ (first.runs n (later.rounds + left) (ps ++ rest) (found ++ cs) (omega (arith, e))
              ∙ (later.runs (later.rounds + left) left rest ((found ++ cs) ++ first.out) refl
                  ∙ ap (below left snap rest) (
                      ap (λ l. l ++ later.out) (append_assoc found cs first.out)
                      ∙ append_assoc found (cs ++ first.out) later.out)))

      from_child :
          (x : ℕ)
          → (q : ℕ) × Has q (push_all cs []) × Below snap q x
          → (q : ℕ) × Has q (p ∷ ps) × Below snap q x
      from_child x (q, h, b) = by_push (Has-push_all q cs [] h)
        where
          by_push : Has q cs ⊎ ⊥ → (r : ℕ) × Has r (p ∷ ps) × Below snap r x
          by_push (inl c) = (p, inl refl, through c b)
          by_push (inr nothing) = absurd nothing

      by_first_part :
          (x : ℕ) → Has x cs ⊎ Has x first.out → (q : ℕ) × Has q (p ∷ ps) × Below snap q x
      by_first_part x (inl c) = (p, inl refl, child c)
      by_first_part x (inr o) = from_child x (first.only x o)

      by_part :
          {x : ℕ}
          → Has x (cs ++ first.out) ⊎ Has x later.out
          → (q : ℕ) × Has q (p ∷ ps) × Below snap q x
      by_part {x} (inl h) = by_first_part x (Has-append x cs first.out h)
      by_part {x} (inr h) = let (q, there, b) = later.only x h in (q, inr there, b)

      by_first : {x : ℕ} → Below snap p x → Has x (cs ++ first.out)
      by_first {x} (child c) = append-Has x cs first.out (inl c)
      by_first {x} (through {q = q} c b) =
          append-Has x cs first.out (inr (first.every q x (push_all-Has q cs [] (inl c)) b))

      sound :
          (x : ℕ)
          → Has x ((children snap p ++ first.out) ++ later.out)
          → (q : ℕ) × Has q (p ∷ ps) × Below snap q x
      sound x h = by_part (Has-append x (children snap p ++ first.out) later.out h)

      complete :
          (q x : ℕ)
          → Has q (p ∷ ps)
          → Below snap q x
          → Has x ((children snap p ++ first.out) ++ later.out)
      complete q x (inl same) b =
          append-Has x (cs ++ first.out) later.out
            (inl (by_first (subst (λ r. Below snap r x) same b)))
      complete q x (inr h) b = append-Has x (cs ++ first.out) later.out (inr (later.every q x h b))

-- A snapshot without a cycle: some rank falls from each process to its children.
abbrev pub IsRanked : List ProcStat → (ℕ → ℕ) → Type 0
IsRanked snap rank = (p c : ℕ) → Has c (children snap p) → rank c < rank p

pub All-IsRanked :
    (snap : List ProcStat) (rank : ℕ → ℕ)
    → All (λ s. rank s.pid < rank s.ppid) snap
    → IsRanked snap rank
unfolding children
All-IsRanked [] rank h p c there = absurd there
All-IsRanked (s ∷ snap) rank h p c there =
    by_parent (Bool-cases (s.ppid == p)) (λ later. All-IsRanked snap rank h.1 p c later)
  where
    here :
        s.ppid ≡ p
        → (c ≡ s.pid) ⊎ Has c (children snap p)
        → (Has c (children snap p) → rank c < rank p)
        → rank c < rank p
    here same (inl e) k =
        let up : rank s.ppid ≡ rank p = ap rank same in
        let own : rank c ≡ rank s.pid = ap rank e in omega (arith, up, own, h.0)
    here same (inr later) k = k later

    by_parent :
        ((s.ppid == p) ≡ true) ⊎ ((s.ppid == p) ≡ false)
        → (Has c (children snap p) → rank c < rank p)
        → rank c < rank p
    by_parent (inl e) k =
        here ((==_iff s.ppid p).0 e)
          (subst (λ b. Has c (if b then s.pid ∷ children snap p else children snap p)) e there) k
    by_parent (inr e) k =
        k (subst (λ b. Has c (if b then s.pid ∷ children snap p else children snap p)) e there)

module _ (snap : List ProcStat) (rank : ℕ → ℕ) (ranked : IsRanked snap rank) where
  find-Part :
      (n : ℕ) (frontier : List ℕ) → ((p : ℕ) → Has p frontier → rank p < n) → Part snap frontier
  find-Part n [] small = Part-nil snap
  find-Part zero (p ∷ ps) small = absurd (omega (arith, small p (inl refl)))
  find-Part (suc n) (p ∷ ps) small =
      Part-cons snap p ps
        (find-Part n (push_all (children snap p) [])
          (λ c h. by_push c (Has-push_all c (children snap p) [] h)))
        (find-Part (suc n) ps (λ q h. small q (inr h)))
    where
      by_push : (c : ℕ) → Has c (children snap p) ⊎ ⊥ → rank c < n
      by_push c (inl h) = omega (arith, ranked p c h, small p (inl refl))
      by_push c (inr nothing) = absurd nothing

-- On a snapshot without a cycle the search ends, after finitely many rounds, and has found exactly
-- the processes below the root: its children, and theirs in turn.
pub descendants-Below :
    (snap : List ProcStat) (rank : ℕ → ℕ) (root : ℕ)
    → IsRanked snap rank
    → (fuel : ℕ) × (found : List ℕ) × (descendants fuel root snap ≡ some found)
      × ((x : ℕ) → Has x found ↔ Below snap root x)
unfolding descendants below
descendants-Below snap rank root ranked =
    let small : (p : ℕ) → Has p (root ∷ []) → rank p < suc (rank root) = λ p h. by_root p h in
    let part = find-Part snap rank ranked (suc (rank root)) (root ∷ []) small in
    (
      part.rounds,
      part.out,
      part.runs part.rounds 0 [] [] (omega arith),
      λ x. (λ h. from_root x (part.only x h), λ b. part.every root x (inl refl) b),
    )
  where
    by_root : (p : ℕ) → (p ≡ root) ⊎ ⊥ → rank p < suc (rank root)
    by_root p (inl same) = let e : rank p ≡ rank root = ap rank same in omega (arith, e)
    by_root p (inr nothing) = absurd nothing

    from_root : (x : ℕ) → (p : ℕ) × Has p (root ∷ []) × Below snap p x → Below snap root x
    from_root x (p, inl same, b) = subst (λ r. Below snap r x) same b
    from_root x (p, inr nothing, b) = absurd nothing

-- What a search that ended has found, in whatever number of rounds: what it had, and what is below
-- its frontier.
below-Below :
    (snap : List ProcStat) (fuel : ℕ) (frontier found out : List ℕ)
    → below fuel snap frontier found ≡ some out
    → (x : ℕ) → Has x out
    → Has x found ⊎ ((p : ℕ) × Has p frontier × Below snap p x)
unfolding below
below-Below snap fuel [] found out e x h =
    let same : found ≡ out = cc in inl (subst (λ l. Has x l) (sym same) h)
below-Below snap zero (p ∷ ps) found out e x h = absurd cc
below-Below snap (suc fuel) (p ∷ ps) found out e x h =
    by_part
      (below-Below snap fuel (push_all (children snap p) ps) (found ++ children snap p) out e x h)
  where
    by_found :
        Has x found ⊎ Has x (children snap p)
        → Has x found ⊎ ((q : ℕ) × Has q (p ∷ ps) × Below snap q x)
    by_found (inl old) = inl old
    by_found (inr c) = inr (p, inl refl, child c)

    by_frontier :
        (q : ℕ)
        → Below snap q x
        → Has q (children snap p) ⊎ Has q ps
        → Has x found ⊎ ((q : ℕ) × Has q (p ∷ ps) × Below snap q x)
    by_frontier q b (inl c) = inr (p, inl refl, through c b)
    by_frontier q b (inr there) = inr (q, inr there, b)

    by_part :
        Has x (found ++ children snap p)
          ⊎ ((q : ℕ) × Has q (push_all (children snap p) ps) × Below snap q x)
        → Has x found ⊎ ((q : ℕ) × Has q (p ∷ ps) × Below snap q x)
    by_part (inl old) = by_found (Has-append x found (children snap p) old)
    by_part (inr (q, there, b)) = by_frontier q b (Has-push_all q (children snap p) ps there)

pub descendants-only :
    (snap : List ProcStat) (fuel root : ℕ) (found : List ℕ)
    → descendants fuel root snap ≡ some found
    → (x : ℕ) → Has x found
    → Below snap root x
unfolding descendants
descendants-only snap fuel root found e x h =
    by_part (below-Below snap fuel (root ∷ []) [] found e x h)
  where
    by_part : ⊥ ⊎ ((p : ℕ) × Has p (root ∷ []) × Below snap p x) → Below snap root x
    by_part (inl nothing) = absurd nothing
    by_part (inr (p, inl same, b)) = subst (λ r. Below snap r x) same b
    by_part (inr (p, inr nothing, b)) = absurd nothing
