-- ===== src/Shells/Framing/Prefixes.antt =====
-- What the frame patterns decide on a buffer stays decided when more bytes arrive.
use environments_api.Common.{
  ℕ, Bool, List, [], ◌≢◌, ◌∷◌, ◌≡◌, ◌⊎◌, some, ◌++◌, none, length, refl, arith, inl, suc,
  Bool-cases, ◌==◌, inr, false, zero, true, ◌<◌, ◌≤◌,
}
use environments_api.Shells.Framing.{
  Frame, span_upto, match_code, match_close, match_frame, match_colon, match_nonce, strip_minus,
  match_digits, is_digit, match_partial, partial_code, at_end, partial_nonce, partial_colon,
  frame_byte, is_hex,
}

module _ (p : ℕ → Bool) where
  -- A greedy run that was stopped, by a byte outside its class or by its bound, is stopped there
  -- whatever comes after.
  span_upto-append :
      (n : ℕ) (xs ys : List ℕ)
      → ((span_upto p n xs).1 ≢ []) ⊎ (length (span_upto p n xs).0 ≡ n)
      → span_upto p n (xs ++ ys) ≡ ((span_upto p n xs).0, (span_upto p n xs).1 ++ ys)
  unfolding span_upto
  span_upto-append zero xs ys h = refl
  span_upto-append (suc n) [] ys (inl h) = absurd (h refl)
  span_upto-append (suc n) [] ys (inr h) = absurd (omega arith)
  span_upto-append (suc n) (x ∷ xs) ys h = ground (arith, span_upto-append n xs ys)

match_close-append :
    (f : Frame) (r ys : List ℕ) (g : Frame) (rest : List ℕ)
    → match_close f r ≡ some (g, rest)
    → match_close f (r ++ ys) ≡ some (g, rest ++ ys)
unfolding match_close
match_close-append f [] ys g rest h = cc
match_close-append f (x ∷ r) ys g rest h = ground arith

match_digits-append :
    (nonce : List ℕ) (minus : Bool) (ds r ys : List ℕ) (g : Frame) (rest : List ℕ)
    → match_digits nonce minus (ds, r) ≡ some (g, rest)
    → match_digits nonce minus (ds, r ++ ys) ≡ some (g, rest ++ ys)
unfolding match_digits
match_digits-append nonce minus [] r ys g rest h = cc
match_digits-append nonce minus (d ∷ ds) r ys g rest h = match_close-append _ r ys g rest h

match_digits-rest :
    (nonce : List ℕ) (minus : Bool) (ds r : List ℕ) (g : Frame) (rest : List ℕ)
    → match_digits nonce minus (ds, r) ≡ some (g, rest)
    → r ≢ []
unfolding match_digits match_close
match_digits-rest nonce minus [] r g rest h = cc
match_digits-rest nonce minus (d ∷ ds) [] g rest h = cc
match_digits-rest nonce minus (d ∷ ds) (x ∷ r) g rest h = λ e. cc

match_code-append :
    (nonce : List ℕ) (minus : Bool) (r ys : List ℕ) (g : Frame) (rest : List ℕ)
    → match_code nonce (minus, r) ≡ some (g, rest)
    → match_code nonce (minus, r ++ ys) ≡ some (g, rest ++ ys)
unfolding match_code
match_code-append nonce minus r ys g rest h =
    rw (span_upto-append is_digit 5 r ys (inl (match_digits-rest nonce minus _ _ g rest h)))
      (match_digits-append nonce minus _ _ ys g rest h)

strip_minus-append :
    (x : ℕ) (xs ys : List ℕ)
    → strip_minus (x ∷ xs ++ ys) ≡ ((strip_minus (x ∷ xs)).0, (strip_minus (x ∷ xs)).1 ++ ys)
unfolding strip_minus
strip_minus-append x xs ys = ground arith

match_code_of_nil : (nonce : List ℕ) → match_code nonce (strip_minus []) ≡ none
unfolding match_code strip_minus match_digits span_upto
match_code_of_nil nonce = refl

match_colon-append :
    (nonce r ys : List ℕ) (g : Frame) (rest : List ℕ)
    → match_colon nonce r ≡ some (g, rest)
    → match_colon nonce (r ++ ys) ≡ some (g, rest ++ ys)
unfolding match_colon
match_colon-append nonce [] ys g rest h = cc
match_colon-append nonce (x ∷ []) ys g rest h = ground (arith, match_code_of_nil nonce)
match_colon-append nonce (x ∷ y ∷ r) ys g rest h = elim (Bool-cases (x == b':')) [
  | inl e ↦ rw (e, strip_minus-append y r ys) (match_code-append nonce _ _ ys g rest (rw e at h))
  | inr e ↦ ground arith
]

match_nonce-append :
    (h r ys : List ℕ) (g : Frame) (rest : List ℕ)
    → match_nonce (h, r) ≡ some (g, rest)
    → (match_nonce (h, r ++ ys) ≡ some (g, rest ++ ys)) × (length h ≡ 32)
unfolding match_nonce
match_nonce-append h r ys g rest m = ground (arith, match_colon-append h r ys g rest)

-- A frame that a buffer begins with is the frame that any longer buffer begins with.
pub match_frame-append :
    (xs ys : List ℕ) (g : Frame) (rest : List ℕ)
    → match_frame xs ≡ some (g, rest)
    → match_frame (xs ++ ys) ≡ some (g, rest ++ ys)
unfolding match_frame
match_frame-append [] ys g rest h = cc
match_frame-append (x ∷ xs) ys g rest h = elim (Bool-cases (x == frame_byte)) [
  | inl e ↦
      let m =
        match_nonce-append (span_upto is_hex 32 xs).0 (span_upto is_hex 32 xs).1 ys g rest
          (rw e at h) in
      rw (e, span_upto-append is_hex 32 xs ys (inr m.1)) m.0
  | inr e ↦ ground arith
]

at_end-append : (r ys : List ℕ) → at_end r ≡ false → at_end (r ++ ys) ≡ false
unfolding at_end
at_end-append [] ys h = cc
at_end-append (x ∷ []) [] h = h
at_end-append (x ∷ []) (y ∷ ys) h = refl
at_end-append (x ∷ x' ∷ r) ys h = refl

at_end-rest : (r : List ℕ) → at_end r ≡ false → r ≢ []
unfolding at_end
at_end-rest [] h = cc
at_end-rest (x ∷ r) h = λ e. cc

close_none-append :
    (f : Frame) (r ys : List ℕ) → r ≢ [] → match_close f r ≡ none → match_close f (r ++ ys) ≡ none
unfolding match_close
close_none-append f [] ys ne h = absurd (ne refl)
close_none-append f (x ∷ r) ys ne h = ground arith

digits_none-append :
    (nonce : List ℕ) (minus : Bool) (ds r ys : List ℕ)
    → r ≢ []
    → match_digits nonce minus (ds, r) ≡ none
    → match_digits nonce minus (ds, r ++ ys) ≡ none
unfolding match_digits
digits_none-append nonce minus [] r ys ne h = refl
digits_none-append nonce minus (d ∷ ds) r ys ne h = close_none-append _ r ys ne h

code_settled-append :
    (nonce : List ℕ) (minus : Bool) (r ys : List ℕ)
    → match_code nonce (minus, r) ≡ none
    → partial_code (minus, r) ≡ false
    → (match_code nonce (minus, r ++ ys) ≡ none) × (partial_code (minus, r ++ ys) ≡ false)
unfolding match_code partial_code
code_settled-append nonce minus r ys h q = (
  rw stable (digits_none-append nonce minus _ _ ys (at_end-rest _ q) h),
  rw stable (at_end-append _ ys q),
)
  where
    stable :
        span_upto is_digit 5 (r ++ ys)
        ≡ ((span_upto is_digit 5 r).0, (span_upto is_digit 5 r).1 ++ ys)
    stable = span_upto-append is_digit 5 r ys (inl (at_end-rest _ q))

partial_code_of_nil : partial_code (strip_minus []) ≡ true
unfolding partial_code strip_minus span_upto at_end
partial_code_of_nil = refl

colon_settled-append :
    (nonce r ys : List ℕ)
    → match_colon nonce r ≡ none
    → partial_colon r ≡ false
    → (match_colon nonce (r ++ ys) ≡ none) × (partial_colon (r ++ ys) ≡ false)
unfolding match_colon partial_colon
colon_settled-append nonce [] ys h q = cc
colon_settled-append nonce (x ∷ []) ys h q =
    ground (arith, partial_code_of_nil, at_end-append (x ∷ []) ys)
colon_settled-append nonce (x ∷ y ∷ r) ys h q = ground (
  arith,
  strip_minus-append y r ys,
  code_settled-append nonce (strip_minus (y ∷ r)).0 (strip_minus (y ∷ r)).1 ys,
  at_end-append (x ∷ y ∷ r) ys,
)

nonce_settled-append :
    (h r ys : List ℕ)
    → match_nonce (h, r) ≡ none
    → partial_nonce (h, r) ≡ false
    → (match_nonce (h, r ++ ys) ≡ none) × (partial_nonce (h, r ++ ys) ≡ false)
unfolding match_nonce partial_nonce
nonce_settled-append h r ys m q = ground (arith, colon_settled-append h r ys, at_end-append r ys)

nonce_stops : (h r : List ℕ) → partial_nonce (h, r) ≡ false → (r ≢ []) ⊎ (length h ≡ 32)
unfolding partial_nonce
nonce_stops h r q = ground (arith, at_end-rest r)

-- What is no frame and cannot become one stays so.
pub settled-append :
    (x : ℕ) (xs ys : List ℕ)
    → match_frame (x ∷ xs) ≡ none
    → match_partial (x ∷ xs) ≡ false
    → (match_frame (x ∷ xs ++ ys) ≡ none) × (match_partial (x ∷ xs ++ ys) ≡ false)
unfolding match_frame match_partial
settled-append x xs ys h q = elim (Bool-cases (x == frame_byte)) [
  | inl e ↦
      rw (e, span_upto-append is_hex 32 xs ys (nonce_stops _ _ (rw e at q)))
        (nonce_settled-append (span_upto is_hex 32 xs).0 (span_upto is_hex 32 xs).1 ys (rw e at h)
          (rw e at q))
  | inr e ↦ ground arith
]

module _ (p : ℕ → Bool) where
  length-span_upto : (n : ℕ) (xs : List ℕ) → length (span_upto p n xs).1 ≤ length xs
  unfolding span_upto
  length-span_upto zero xs = omega arith
  length-span_upto (suc n) [] = omega arith
  length-span_upto (suc n) (x ∷ xs) = ground (arith, length-span_upto n xs)

match_code_shorter :
    (nonce : List ℕ) (minus : Bool) (r : List ℕ) (g : Frame) (rest : List ℕ)
    → match_code nonce (minus, r) ≡ some (g, rest)
    → length rest < length r
unfolding match_code match_digits match_close
match_code_shorter nonce minus r g rest h = ground (arith, length-span_upto is_digit 5 r)

length-strip_minus : (r : List ℕ) → length (strip_minus r).1 ≤ length r
unfolding strip_minus
length-strip_minus [] = omega arith
length-strip_minus (x ∷ r) = ground arith

match_colon_shorter :
    (nonce r : List ℕ) (g : Frame) (rest : List ℕ)
    → match_colon nonce r ≡ some (g, rest)
    → length rest < length r
unfolding match_colon
match_colon_shorter nonce [] g rest h = cc
match_colon_shorter nonce (x ∷ r) g rest h = ground (
  arith,
  match_code_shorter nonce (strip_minus r).0 (strip_minus r).1 g rest,
  length-strip_minus r,
)

-- A match takes bytes away, so the loop ends.
pub match_frame_shorter :
    (buf : List ℕ) (g : Frame) (rest : List ℕ)
    → match_frame buf ≡ some (g, rest)
    → length rest < length buf
unfolding match_frame match_nonce
match_frame_shorter [] g rest h = cc
match_frame_shorter (x ∷ xs) g rest h = ground (
  arith,
  match_colon_shorter (span_upto is_hex 32 xs).0 (span_upto is_hex 32 xs).1 g rest,
  length-span_upto is_hex 32 xs,
)
