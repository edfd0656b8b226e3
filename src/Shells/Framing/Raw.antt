-- ===== src/Shells/Framing/Raw.antt =====
-- Frame.raw (app/shells/framing.py): the marker that a frame prints as, and what a parse makes of it.
use mathlib.Core.Path.{subst}
use native.Mathlib.Nat.{pow-suc, mul_assoc, mul_comm}
use environments_api.Common.{
  ℕ, List, Bool, ◌∷◌, [], suc, ◌≡◌, ◌++◌, true, ◌+◌, ◌/◌, if◌then◌else◌, ltb, ◌%◌, zero, ◌<◌,
  length, ◌^◌, ◌*◌, arith, ◌-◌, ◌≤◌, false, refl, Bool-cases, some, inl, ltb→lt, inr, append_assoc,
  length-append, ◌∙◌, ap, ==_iff, lt→ltb, sym,
}
use environments_api.Shells.Framing.{
  Frame, ℤ, pos, frame_byte, negsuc, digits_value, match_frame, match_code, span_upto, strip_minus,
  match_nonce, is_digit, match_colon, match_digits, is_hex, match_close, code_value,
}
use environments_api.Common.Int.{pos_part, neg_part}

-- `f"{n}"` of a number below `10 ^ fuel`: its decimal digits.
unfoldable pub decimal : ℕ → ℕ → List ℕ
decimal zero n = []
decimal (suc fuel) n =
    let rest = decimal fuel (n / 10) in
    if ltb n 10 then (b'0' + n) ∷ [] else rest ++ ((b'0' + n % 10) ∷ [])

-- `f"{exit_code}"`. What a frame holds has at most five digits.
unfoldable pub print_code : ℤ → List ℕ
print_code (pos n) = decimal 5 n
print_code (negsuc n) = b'-' ∷ decimal 5 (n + 1)

unfoldable pub raw : Frame → List ℕ
unfolding print_code
raw f = frame_byte ∷ f.nonce ++ (b':' ∷ print_code f.exit_code ++ (frame_byte ∷ []))

abbrev pub AllOf : (ℕ → Bool) → List ℕ → Type 0
AllOf p [] = Unit
AllOf p (x ∷ xs) = (p x ≡ true) × AllOf p xs

digits_value-append :
    (acc : ℕ) (ds : List ℕ) (d : ℕ)
    → digits_value acc (ds ++ (d ∷ [])) ≡ digits_value acc ds * 10 + (d - b'0')
unfolding digits_value
digits_value-append acc [] d = refl
digits_value-append acc (x ∷ ds) d = digits_value-append (acc * 10 + (x - b'0')) ds d

AllOf-append :
    (p : ℕ → Bool) (xs : List ℕ) (y : ℕ) → AllOf p xs → p y ≡ true → AllOf p (xs ++ (y ∷ []))
AllOf-append p [] y h e = (e, tt)
AllOf-append p (x ∷ xs) y h e = (h.0, AllOf-append p xs y h.1 e)

is_digit-mod : (k : ℕ) → k < 10 → is_digit (b'0' + k) ≡ true
is_digit-mod k h = ground arith

-- The digits of a number stand for it, and are digits; there is one at least.
decimal_lem :
    (fuel n : ℕ)
    → n < 10 ^ fuel
    → (digits_value 0 (decimal fuel n) ≡ n)
      × AllOf is_digit (decimal fuel n)
      × (length (decimal fuel n) ≤ fuel)
unfolding decimal digits_value
decimal_lem zero n h = (omega arith, tt, omega arith)
decimal_lem (suc fuel) n h = elim (Bool-cases (ltb n 10)) [
  | inl e ↦ rw e (omega arith, (is_digit-mod n (ltb→lt n 10 e), tt), omega arith)
  | inr e ↦
      let ih = decimal_lem fuel (n / 10) (omega (arith, pow-suc 10 fuel)) in
      rw e (
        omega (arith, digits_value-append 0 (decimal fuel (n / 10)) (b'0' + n % 10), ih.0),
        AllOf-append is_digit (decimal fuel (n / 10)) (b'0' + n % 10) ih.1
            (is_digit-mod (n % 10) (omega arith)),
        omega (arith, length-append (decimal fuel (n / 10)) ((b'0' + n % 10) ∷ []), ih.2),
      )
]

append-ne-nil : (ds : List ℕ) (d : ℕ) → (x : ℕ) × (xs : List ℕ) × (ds ++ (d ∷ []) ≡ x ∷ xs)
append-ne-nil [] d = (d, [], refl)
append-ne-nil (x ∷ ds) d = (x, ds ++ (d ∷ []), refl)

decimal-ne-nil : (fuel n : ℕ) → (x : ℕ) × (xs : List ℕ) × (decimal (suc fuel) n ≡ x ∷ xs)
unfolding decimal
decimal-ne-nil fuel n = elim (Bool-cases (ltb n 10)) [
  | inl e ↦ (b'0' + n, [], rw e)
  | inr e ↦
      let (x, xs, same) = append-ne-nil (decimal fuel (n / 10)) (b'0' + n % 10) in
      (x, xs, rw e same)
]

span_upto_all :
    (p : ℕ → Bool) (n : ℕ) (xs : List ℕ) (y : ℕ) (r : List ℕ)
    → AllOf p xs
    → length xs ≤ n
    → p y ≡ false
    → span_upto p n (xs ++ (y ∷ r)) ≡ (xs, y ∷ r)
unfolding span_upto
span_upto_all p zero [] y r h le e = refl
span_upto_all p zero (x ∷ xs) y r h le e = absurd (omega arith)
span_upto_all p (suc n) [] y r h le e = rw e
span_upto_all p (suc n) (x ∷ xs) y r h le e = rw (h.0, span_upto_all p n xs y r h.1 (omega arith) e)

abbrev magnitude : ℤ → ℕ
magnitude c = pos_part c + neg_part c

match_code_digits :
    (nonce : List ℕ) (minus : Bool) (d : ℕ) (ds rest : List ℕ)
    → AllOf is_digit (d ∷ ds)
    → length (d ∷ ds) ≤ 5
    → match_code nonce (minus, d ∷ ds ++ (frame_byte ∷ rest))
      ≡ some (record { nonce = nonce; exit_code = code_value minus (d ∷ ds) }, rest)
unfolding match_code match_digits match_close
match_code_digits nonce minus d ds rest h le =
    rw (span_upto_all is_digit 5 (d ∷ ds) frame_byte rest h le refl)

strip_minus_digit : (d : ℕ) (r : List ℕ) → is_digit d ≡ true → strip_minus (d ∷ r) ≡ (false, d ∷ r)
unfolding strip_minus
strip_minus_digit d r h = ground arith

strip_minus_minus : (r : List ℕ) → strip_minus (b'-' ∷ r) ≡ (true, r)
unfolding strip_minus
strip_minus_minus r = refl

code_value_pos : (n : ℕ) (ds : List ℕ) → digits_value 0 ds ≡ n → code_value false ds ≡ pos n
unfolding code_value
code_value_pos n ds e = ap pos e

code_value_neg :
    (n v : ℕ) (ds : List ℕ) → digits_value 0 ds ≡ v → v ≡ n + 1 → code_value true ds ≡ negsuc n
unfolding code_value
code_value_neg n v ds e h = ground arith

match_code-print :
    (nonce : List ℕ) (c : ℤ) (rest : List ℕ)
    → magnitude c < 100000
    → match_code nonce (strip_minus (print_code c ++ (frame_byte ∷ rest)))
      ≡ some (record { nonce = nonce; exit_code = c }, rest)
unfolding print_code
match_code-print nonce (pos n) rest h =
    let lem = decimal_lem 5 n (omega arith) in
    let (x, xs, e) = decimal-ne-nil 4 n in
    let good : AllOf is_digit (x ∷ xs) = rw e at lem.1 in
    let fits : length (x ∷ xs) ≤ 5 = rw e at lem.2 in
    let value : digits_value 0 (x ∷ xs) ≡ n = rw e at lem.0 in
    rw (e, strip_minus_digit x (xs ++ (frame_byte ∷ rest)) good.0)
      (match_code_digits nonce false x xs rest good fits
        ∙ ap (λ v. some (record { nonce = nonce; exit_code = v }, rest))
            (code_value_pos n (x ∷ xs) value))
match_code-print nonce (negsuc n) rest h =
    let lem = decimal_lem 5 (n + 1) (omega arith) in
    let (x, xs, e) = decimal-ne-nil 4 (n + 1) in
    let good : AllOf is_digit (x ∷ xs) = rw e at lem.1 in
    let fits : length (x ∷ xs) ≤ 5 = rw e at lem.2 in
    let value : digits_value 0 (x ∷ xs) ≡ n + 1 = rw e at lem.0 in
    rw (e, strip_minus_minus (x ∷ xs ++ (frame_byte ∷ rest)))
      (match_code_digits nonce true x xs rest good fits
        ∙ ap (λ v. some (record { nonce = nonce; exit_code = v }, rest))
            (code_value_neg n (n + 1) (x ∷ xs) value refl))

-- Printed and read again, a marker with a well-formed nonce and an exit code of at most five
-- digits gives the frame back, whatever follows it.
pub match_frame-raw :
    (f : Frame) (rest : List ℕ)
    → AllOf is_hex f.nonce
    → length f.nonce ≡ 32
    → magnitude f.exit_code < 100000
    → match_frame (raw f ++ rest) ≡ some (f, rest)
unfolding match_frame raw match_nonce match_colon
match_frame-raw f rest hex size small =
    rw
      (
        append_assoc f.nonce (b':' ∷ print_code f.exit_code ++ (frame_byte ∷ [])) rest,
        append_assoc (print_code f.exit_code) (frame_byte ∷ []) rest,
        span_upto_all is_hex 32 f.nonce b':' (print_code f.exit_code ++ (frame_byte ∷ rest)) hex
            (omega arith) refl,
        (==_iff (length f.nonce) 32).1 size,
      )
      (match_code-print f.nonce f.exit_code rest small)

-- A marker as a program may print it, with its digits as they are.
abbrev pub marker_of : List ℕ → List ℕ → List ℕ
marker_of nonce ds = frame_byte ∷ nonce ++ (b':' ∷ ds ++ (frame_byte ∷ []))

length-marker_of : (nonce ds : List ℕ) → length (marker_of nonce ds) ≡ length nonce + length ds + 3
length-marker_of nonce ds = omega (
  arith,
  length-append nonce (b':' ∷ ds ++ (frame_byte ∷ [])),
  length-append ds (frame_byte ∷ []),
)

-- A number of at most k + 1 digits prints as no more.
length-decimal : (fuel k n : ℕ) → n < 10 ^ suc k → length (decimal fuel n) ≤ suc k
unfolding decimal
length-decimal zero k n h = omega arith
length-decimal (suc fuel) zero n h =
    let small : n < 10 = omega (arith, pow-suc 10 0, h) in rw (lt→ltb n 10 small) (omega arith)
length-decimal (suc fuel) (suc k) n h = elim (Bool-cases (ltb n 10)) [
  | inl e ↦ rw e (omega arith)
  | inr e ↦
      let shorter : length (decimal fuel (n / 10)) ≤ suc k =
        length-decimal fuel k (n / 10) (omega (arith, pow-suc 10 (suc k), h)) in
      rw e (omega (arith, length-append (decimal fuel (n / 10)) ((b'0' + n % 10) ∷ []), shorter))
]

digits_value-bound :
    (c acc : ℕ) (ds : List ℕ)
    → acc < c
    → AllOf is_digit ds
    → digits_value acc ds < c * 10 ^ length ds
unfolding digits_value
digits_value-bound c acc [] h all = omega (arith, h)
digits_value-bound c acc (d ∷ ds) h all =
    let digit : d < 58 = ground (arith, all.0) in
    let ih =
      digits_value-bound (c * 10) (acc * 10 + (d - b'0')) ds (omega (arith, h, digit)) all.1 in
    let power : c * 10 * 10 ^ length ds ≡ c * 10 ^ length (d ∷ ds) =
      mul_assoc c 10 (10 ^ length ds)
      ∙ ap (λ m. c * m) (mul_comm 10 (10 ^ length ds) ∙ sym (pow-suc 10 (length ds))) in
    omega (arith, ih, power)

match_code_zero :
    (nonce ds : List ℕ)
    → AllOf is_digit ds
    → length ds ≤ 4
    → match_code nonce (strip_minus (b'0' ∷ ds ++ (frame_byte ∷ [])))
      ≡ some (record { nonce = nonce; exit_code = pos (digits_value 0 ds) }, [])
match_code_zero nonce ds digits size = rw (strip_minus_digit b'0' (ds ++ (frame_byte ∷ [])) refl) (
    match_code_digits nonce false b'0' ds [] (refl, digits) (omega (arith, size))
    ∙ ap (λ v. some (record { nonce = nonce; exit_code = v }, []))
        (code_value_pos (digits_value 0 ds) (b'0' ∷ ds) (unfold digits_value in refl)))

raw-shorter :
    (nonce ds : List ℕ) (k : ℕ)
    → AllOf is_digit ds
    → length ds ≡ suc k
    → length (decimal 5 (digits_value 0 ds)) < length (b'0' ∷ ds)
raw-shorter nonce ds k digits size =
    let small : digits_value 0 ds < 1 * 10 ^ length ds =
      digits_value-bound 1 0 ds (omega arith) digits in
    let fits : digits_value 0 ds < 10 ^ suc k =
      subst (λ n. digits_value 0 ds < 10 ^ n) size (omega (arith, small)) in
    omega (arith, length-decimal 5 k (digits_value 0 ds) fits, size)

-- A marker whose exit code has no sign, at least one digit behind a leading zero, and at most five
-- digits, is taken for a frame, and `raw` of that frame is shorter than the marker: re-emitting a
-- marker that is not ours does not give its bytes back.
pub raw_drops_zero :
    (nonce ds : List ℕ) (k : ℕ)
    → AllOf is_hex nonce
    → length nonce ≡ 32
    → AllOf is_digit ds
    → length ds ≡ suc k
    → k < 4
    → let m = marker_of nonce (b'0' ∷ ds) in
      (f : Frame) × (match_frame m ≡ some (f, [])) × (length (raw f) < length m)
unfolding match_frame match_nonce match_colon raw print_code
raw_drops_zero nonce ds k hex size digits some_digits few = (
  record { nonce = nonce; exit_code = pos (digits_value 0 ds) },
  rw
      (
        span_upto_all is_hex 32 nonce b':' (b'0' ∷ ds ++ (frame_byte ∷ [])) hex (omega arith) refl,
        (==_iff (length nonce) 32).1 size,
      )
      (match_code_zero nonce ds digits (omega (arith, some_digits, few))),
  omega (
    arith,
    raw-shorter nonce ds k digits some_digits,
    length-marker_of nonce (decimal 5 (digits_value 0 ds)),
    length-marker_of nonce (b'0' ∷ ds),
  ),
)
