-- ===== src/Shells/Framing/Stream.antt =====
-- FrameParser.feed (app/shells/framing.py) against a reading of the whole stream: the loop ends,
-- and how the stream is cut into chunks does not change what comes out.
use environments_api.Common.{
  ℕ, List, length, ◌∷◌, ◌++◌, ◌≡◌, [], ap, Bool-cases, sym, ◌≤◌, ◌==◌, append_assoc, refl, inl,
  arith, append-nil, false, inr, some, none, true, Option, ◌<◌, Option-cases, suc, ◌∙◌, ◌+◌, zero,
}
use environments_api.Shells.Framing.{
  Frame, Event, output, framed, frame_byte, match_frame, match_partial, before_mark, from_mark,
  emit, feed_mark, feed_loop, feed,
}
use mathlib.Core.Path.{ap₂, subst, subst₂}
use environments_api.Shells.Framing.Prefixes.{
  match_frame-append, settled-append, match_frame_shorter,
}

-- What a reader of the events sees, byte by byte: output and frames in stream order.
pub data Item : Type 0 where
  byte : ℕ → Item
  frame : Frame → Item

abbrev pub bytes : List ℕ → List Item
bytes [] = []
bytes (x ∷ xs) = byte x ∷ bytes xs

abbrev pub items : List Event → List Item
items [] = []
items (output d ∷ es) = bytes d ++ items es
items (framed f ∷ es) = frame f ∷ items es

-- `Reads buf is rest`: from the left, `buf` is read as the items `is`, and `rest` is held back
-- because it may be a frame that is still arriving.
pub data Reads : List ℕ → List Item → List ℕ → Type 0 where
  stop : Reads [] [] []
  marker :
      {buf xs : List ℕ} {f : Frame} {is : List Item} {rest : List ℕ}
      → match_frame buf ≡ some (f, xs)
      → Reads xs is rest
      → Reads buf (frame f ∷ is) rest
  stray :
      {x : ℕ} {xs : List ℕ} {is : List Item} {rest : List ℕ}
      → match_frame (x ∷ xs) ≡ none
      → match_partial (x ∷ xs) ≡ false
      → Reads xs is rest
      → Reads (x ∷ xs) (byte x ∷ is) rest
  held : {buf : List ℕ} → match_frame buf ≡ none → match_partial buf ≡ true → Reads buf [] buf

bytes-append : (xs ys : List ℕ) → bytes (xs ++ ys) ≡ bytes xs ++ bytes ys
bytes-append [] ys = refl
bytes-append (x ∷ xs) ys = ap (λ l. byte x ∷ l) (bytes-append xs ys)

items-append : (es fs : List Event) → items (es ++ fs) ≡ items es ++ items fs
items-append [] fs = refl
items-append (output d ∷ es) fs = simp (items-append es fs, append_assoc)
items-append (framed f ∷ es) fs = ap (λ l. frame f ∷ l) (items-append es fs)

items-emit : (es : List Event) (d : List ℕ) → items (emit es d) ≡ items es ++ bytes d
unfolding emit
items-emit [] [] = refl
items-emit (e ∷ es) [] = sym (append-nil (items (e ∷ es)))
items-emit [] (x ∷ d) = append-nil (bytes (x ∷ d))
items-emit (output b ∷ []) (x ∷ d) = simp (append-nil, bytes-append)
items-emit (framed f ∷ []) (x ∷ d) = simp append-nil
items-emit (output b ∷ e' ∷ es) (x ∷ d) = simp (items-emit (e' ∷ es) (x ∷ d), append_assoc)
items-emit (framed f ∷ e' ∷ es) (x ∷ d) = ap (λ l. frame f ∷ l) (items-emit (e' ∷ es) (x ∷ d))

Reads-before_mark :
    (buf : List ℕ) {is : List Item} {rest : List ℕ}
    → Reads (from_mark buf) is rest
    → Reads buf (bytes (before_mark buf) ++ is) rest
unfolding before_mark from_mark match_frame match_partial
Reads-before_mark [] r = r
Reads-before_mark (x ∷ xs) r = elim (Bool-cases (x == frame_byte)) [
  | inl e ↦ rw e (rw e at r)
  | inr e ↦ rw e (stray (rw e) (rw e) (Reads-before_mark xs (rw e at r)))
]

length-from_mark : (buf : List ℕ) → length (from_mark buf) ≤ length buf
unfolding from_mark
length-from_mark [] = omega arith
length-from_mark (x ∷ xs) = ground (arith, length-from_mark xs)

-- What a run from `buf` and `events` comes to: it ends, and what it adds reads `buf`.
abbrev Outcome : Option (List Event × List ℕ) → List ℕ → List Event → Type 0
Outcome o buf events =
    (es : List Event) × (rest : List ℕ) × (is : List Item) × (o ≡ some (es, rest))
    × (items es ≡ items events ++ is)
    × Reads buf is rest

module _ (again : List ℕ → List Event → Option (List Event × List ℕ)) where
  feed_mark-Outcome :
      (buf : List ℕ) (events : List Event)
      → ((b : List ℕ) (es : List Event) → length b < length buf → Outcome (again b es) b es)
      → Outcome (feed_mark buf events again) buf events
  unfolding feed_mark
  feed_mark-Outcome [] events ih = (events, [], [], refl, sym (append-nil (items events)), stop)
  feed_mark-Outcome (x ∷ xs) events ih = elim (Option-cases (match_frame (x ∷ xs))) [
    | inr ((f, rest), e) ↦
        let (es, held', is, run, same, r) =
          ih rest (events ++ (framed f ∷ [])) (match_frame_shorter (x ∷ xs) f rest e) in
        (
          es,
          held',
          frame f ∷ is,
          rw (e, feed_mark) run,
          same ∙ simp (items-append, append_assoc),
          marker e r,
        )
    | inl e ↦ elim (Bool-cases (match_partial (x ∷ xs))) [
      | inl q ↦
          (events, x ∷ xs, [], rw (e, q, feed_mark), sym (append-nil (items events)), held e q)
      | inr q ↦
          let (es, held', is, run, same, r) = ih xs (emit events (x ∷ [])) (omega arith) in
          (
            es,
            held',
            byte x ∷ is,
            rw (e, q, feed_mark) run,
            same ∙ simp (items-emit, append_assoc),
            stray e q r,
          )
    ]
  ]

feed_loop-Outcome :
    (fuel : ℕ) (buf : List ℕ) (events : List Event)
    → length buf < fuel
    → Outcome (feed_loop fuel buf events) buf events
unfolding feed_loop
feed_loop-Outcome zero buf events h = absurd (omega arith)
feed_loop-Outcome (suc fuel) buf events h =
    let (es, held', is, run, same, r) =
      feed_mark-Outcome (feed_loop fuel) (from_mark buf) (emit events (before_mark buf))
        (λ b es lt. feed_loop-Outcome fuel b es (omega (arith, length-from_mark buf))) in
    (
      es,
      held',
      bytes (before_mark buf) ++ is,
      run,
      same ∙ simp (items-emit, append_assoc),
      Reads-before_mark buf r,
    )

-- `feed` always returns: its events, read byte by byte, and what it holds back are the reading of
-- the pending bytes followed by the new ones.
pub feed-Reads :
    (pending d : List ℕ)
    → (es : List Event) × (rest : List ℕ) × (feed pending d ≡ some (es, rest))
      × Reads (pending ++ d) (items es) rest
unfolding feed
feed-Reads pending d =
    let buf = pending ++ d in
    let (es, rest, is, run, same, r) = feed_loop-Outcome (length buf + 1) buf [] (omega arith) in
    (es, rest, run, rw same r)

-- A buffer has one reading.
pub Reads-unique :
    {buf : List ℕ} {is js : List Item} {rest rest' : List ℕ}
    → Reads buf is rest
    → Reads buf js rest'
    → (is ≡ js) × (rest ≡ rest')
unfolding match_frame match_partial
Reads-unique stop stop = (refl, refl)
Reads-unique stop (marker e r) = cc
Reads-unique stop (held e q) = cc
Reads-unique (marker e r) stop = cc
Reads-unique (marker {xs = xs} {f = f} e r)
      (marker {xs = ys} {f = g} {is = js} {rest = left} e' r') =
    let same : (f ≡ g) × (ys ≡ xs) = ground (arith, e, e') in
    let ih = Reads-unique r (subst (λ b. Reads b js left) same.1 r') in
    (ap₂ (λ h l. frame h ∷ l) same.0 ih.0, ih.1)
Reads-unique (marker e r) (stray e' q' r') = cc (e, e')
Reads-unique (marker e r) (held e' q') = cc (e, e')
Reads-unique (stray e q r) (marker e' r') = cc (e, e')
Reads-unique (stray {x = x} e q r) (stray e' q' r') =
    let ih = Reads-unique r r' in (ap (λ l. byte x ∷ l) ih.0, ih.1)
Reads-unique (stray e q r) (held e' q') = cc (q, q')
Reads-unique (held e q) stop = cc
Reads-unique (held e q) (marker e' r') = cc (e, e')
Reads-unique (held e q) (stray e' q' r') = cc (q, q')
Reads-unique (held e q) (held e' q') = (refl, refl)

-- Reading on from what was held back is reading the whole.
pub Reads-append :
    {xs : List ℕ} {is : List Item} {rest : List ℕ}
    → Reads xs is rest
    → (ys : List ℕ) {js : List Item} {rest' : List ℕ} → Reads (rest ++ ys) js rest'
    → Reads (xs ++ ys) (is ++ js) rest'
Reads-append stop ys s = s
Reads-append (marker {buf = b} {xs = xs'} {f = f} e r) ys s =
    marker (match_frame-append b ys f xs' e) (Reads-append r ys s)
Reads-append (stray {x = x} {xs = xs'} e q r) ys s =
    let same = settled-append x xs' ys e q in stray same.0 same.1 (Reads-append r ys s)
Reads-append (held e q) ys s = s

Reads-of_feed :
    (pending d : List ℕ) {es : List Event} {rest : List ℕ}
    → feed pending d ≡ some (es, rest)
    → Reads (pending ++ d) (items es) rest
Reads-of_feed pending d {es} {rest} e =
    let (es', rest', e', r) = feed-Reads pending d in
    let same : (es' ≡ es) × (rest' ≡ rest) = ground (arith, e, e') in
    subst₂ (λ l k. Reads (pending ++ d) (items l) k) same.0 same.1 r

-- However a stream is cut in two, feeding the pieces gives the items, in order, that feeding it
-- whole gives, and leaves the same bytes pending.
pub feed_chunks :
    (pending d d' : List ℕ) {es es' all : List Event} {p p' rest : List ℕ}
    → feed pending d ≡ some (es, p)
    → feed p d' ≡ some (es', p')
    → feed pending (d ++ d') ≡ some (all, rest)
    → (items all ≡ items es ++ items es') × (rest ≡ p')
feed_chunks pending d d' {es} {es'} first second whole =
    Reads-unique (Reads-of_feed pending (d ++ d') whole) (
      rw (← append_assoc pending d d')
        (Reads-append (Reads-of_feed pending d first) d' (Reads-of_feed _ d' second)))
