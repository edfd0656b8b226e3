-- ===== src/Shells/Log.antt =====
-- _LogWriter (app/shells/shell.py): a command's log file, up to a cap.
use environments_api.Common.{
  ℕ, zero, suc, ◌+◌, ◌-◌, ◌≤◌, ◌<◌, min, ◌≡◌, refl, sym, ap, ◌∙◌, inl, inr, Bool, true, false, not,
  ◌||◌, List, [], ◌∷◌, ◌++◌, append-nil, append_assoc, arith, ltb, leb, if◌then◌else◌, ltb→lt,
  lt→ltb, le→ltb_false, Bool-cases, length, take, is_empty, length-append, length-take, take_all,
}
use environments_api.Shells.Redact.Streaming.{join}

-- `contents` is what the file holds.
pub record LogWriter : Type 0 where
  pub cap : ℕ
  pub contents : List ℕ
  pub written : ℕ
  pub truncated : Bool
  pub closed : Bool

unfoldable pub open_log : ℕ → LogWriter
open_log limit = record {
  cap = limit;
  contents = [];
  written = 0;
  truncated = false;
  closed = false;
}

-- `self._handle.write(data)` and the count
abbrev put : LogWriter → List ℕ → Bool → LogWriter
put w d truncated = record w {
  contents = w.contents ++ d;
  written = w.written + length d;
  truncated = truncated;
}

unfoldable pub write : LogWriter → List ℕ → LogWriter
write w d =
    let room = w.cap - w.written in
    if leb w.cap w.written
    then record w { truncated = w.truncated || not (is_empty d) }
    else if ltb room (length d)
    then put w (take room d) true
    else put w d w.truncated

unfoldable pub close : LogWriter → LogWriter
close w = record w { closed = true }

unfoldable pub write_all : LogWriter → List (List ℕ) → LogWriter
write_all w [] = w
write_all w (d ∷ ds) = write_all (write w d) ds

-- The log holds the first `cap` bytes of a text, and knows whether there were more.
abbrev pub IsLogOf : LogWriter → List ℕ → Type 0
IsLogOf w text =
    (w.contents ≡ take w.cap text)
    × (w.written ≡ length w.contents)
    × (w.truncated ≡ ltb w.cap (length text))

take-append_short :
    {A : Type 0} (n : ℕ) (xs ys : List A)
    → length xs ≤ n
    → take n (xs ++ ys) ≡ xs ++ take (n - length xs) ys
take-append_short n [] ys h = let e : n - 0 ≡ n = omega arith in rw e refl
take-append_short zero (x ∷ xs) ys h = absurd (omega arith)
take-append_short (suc n) (x ∷ xs) ys h =
    let e : suc n - suc (length xs) ≡ n - length xs = omega arith in
    rw e (ap (λ l. x ∷ l) (take-append_short n xs ys (omega arith)))

take-append_full :
    {A : Type 0} (n : ℕ) (xs ys : List A) → n ≤ length xs → take n (xs ++ ys) ≡ take n xs
take-append_full zero xs ys h = refl
take-append_full (suc n) [] ys h = absurd (omega arith)
take-append_full (suc n) (x ∷ xs) ys h = ap (λ l. x ∷ l) (take-append_full n xs ys (omega arith))

-- A full log only learns whether more came.
write-full :
    (w : LogWriter) (text d : List ℕ)
    → leb w.cap w.written ≡ true
    → IsLogOf w text
    → IsLogOf (write w d) (text ++ d)
unfolding write
write-full w text d full h =
    let n : length w.contents ≡ min w.cap (length text) = rw h.0 (length-take w.cap text) in
    let le : w.cap ≤ length text = ground (arith, n, h.1, full) in
    let a = length-append text d in
    rw (full, take-append_full w.cap text d le)
      (h.0, h.1, more d (length text) w.cap (length (text ++ d)) h.2 a le)
  where
    more :
        (d : List ℕ) (n limit m : ℕ)
        → w.truncated ≡ ltb limit n
        → m ≡ n + length d
        → limit ≤ n
        → (w.truncated || not (is_empty d)) ≡ ltb limit m
    more [] n limit m t a le = ground (arith, t, a)
    more (x ∷ d) n limit m t a le = ground (arith, t, a, le)

-- A log with room holds the whole text so far, and takes what fits.
write-room :
    (w : LogWriter) (text d : List ℕ)
    → leb w.cap w.written ≡ false
    → IsLogOf w text
    → IsLogOf (write w d) (text ++ d)
unfolding write
write-room w text d room h =
    let n : length w.contents ≡ min w.cap (length text) = rw h.0 (length-take w.cap text) in
    let e : w.written ≡ length text = ground (arith, n, h.1, room) in
    let lt : length text < w.cap = ground (arith, room, e) in
    let c : w.contents ≡ text = h.0 ∙ take_all w.cap text (omega arith) in
    let a = length-append text d in
    let s = take-append_short w.cap text d (omega arith) in
    let t : w.truncated ≡ false = h.2 ∙ le→ltb_false w.cap (length text) (omega arith) in
    elim (Bool-cases (ltb (w.cap - w.written) (length d))) [
      | inl f ↦
          let b = length-append w.contents (take (w.cap - w.written) d) in
          let k = ltb→lt _ _ f in
          rw (room, f)
            (
              rw (c, e) (sym s),
              omega (arith, b, h.1),
              sym (lt→ltb w.cap (length (text ++ d)) (omega arith)),
            )
      | inr f ↦
          let b = length-append w.contents d in
          let k : length d ≤ w.cap - length text = ground (arith, f, e) in
          rw (room, f)
            (
              rw c (sym (s ∙ ap (λ l. text ++ l) (take_all (w.cap - length text) d k))),
              omega (arith, b, h.1),
              t ∙ sym (le→ltb_false w.cap (length (text ++ d)) (omega arith)),
            )
    ]

write-IsLogOf : (w : LogWriter) (text d : List ℕ) → IsLogOf w text → IsLogOf (write w d) (text ++ d)
write-IsLogOf w text d h = elim (Bool-cases (leb w.cap w.written)) [
  | inl e ↦ write-full w text d e h
  | inr e ↦ write-room w text d e h
]

write_all-onto :
    (w : LogWriter) (text : List ℕ) (ds : List (List ℕ))
    → IsLogOf w text
    → IsLogOf (write_all w ds) (text ++ join ds)
unfolding write_all
write_all-onto w text [] h = let e = append-nil text in rw e h
write_all-onto w text (d ∷ ds) h =
    let e = sym (append_assoc text d (join ds)) in
    rw e (write_all-onto (write w d) (text ++ d) ds (write-IsLogOf w text d h))

write-cap : (w : LogWriter) (d : List ℕ) → (write w d).cap ≡ w.cap
unfolding write
write-cap w d = elim (Bool-cases (leb w.cap w.written)) [
  | inl e ↦ rw e refl
  | inr e ↦ elim (Bool-cases (ltb (w.cap - w.written) (length d))) [
    | inl f ↦ rw (e, f) refl
    | inr f ↦ rw (e, f) refl
  ]
]

write_all-cap : (w : LogWriter) (ds : List (List ℕ)) → (write_all w ds).cap ≡ w.cap
unfolding write_all
write_all-cap w [] = refl
write_all-cap w (d ∷ ds) = write_all-cap (write w d) ds ∙ write-cap w d

open_log-cap : (limit : ℕ) → (open_log limit).cap ≡ limit
unfolding open_log
open_log-cap limit = refl

open_log-IsLogOf : (limit : ℕ) → IsLogOf (open_log limit) []
unfolding open_log
open_log-IsLogOf zero = (refl, refl, sym (le→ltb_false 0 0 (omega arith)))
open_log-IsLogOf (suc n) = (refl, refl, sym (le→ltb_false (suc n) 0 (omega arith)))

-- A new log that was written to any number of times holds the first `limit` bytes of all that it
-- was given, counts exactly those, and is marked as truncated just where it was given more.
pub write_all_lem :
    (limit : ℕ) (ds : List (List ℕ))
    → let w = write_all (open_log limit) ds in
      (w.contents ≡ take limit (join ds))
      × (w.written ≡ min limit (length (join ds)))
      × (w.truncated ≡ ltb limit (length (join ds)))
write_all_lem limit ds =
    let w = write_all (open_log limit) ds in
    let c : w.cap ≡ limit = write_all-cap (open_log limit) ds ∙ open_log-cap limit in
    let h : IsLogOf w (join ds) = write_all-onto (open_log limit) [] ds (open_log-IsLogOf limit) in
    let t : w.contents ≡ take limit (join ds) = h.0 ∙ ap (λ n. take n (join ds)) c in
    (t, h.1 ∙ ap length t ∙ length-take limit (join ds), h.2 ∙ ap (λ n. ltb n (length (join ds))) c)
