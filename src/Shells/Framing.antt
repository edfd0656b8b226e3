-- ===== src/Shells/Framing.antt =====
-- app/shells/framing.py and the two frame patterns of app/constants.py, over byte lists. The
-- patterns are written out as the matches that Python's `re` makes of them.
pub mod Prefixes
pub mod Stream
pub mod Raw
mod Tests
use environments_api.Common.{
  ℕ, Bool, List, [], leb, if◌then◌else◌, Option, ◌∷◌, true, false, ◌++◌, ◌*◌, suc, ◌==◌, length,
  none, ◌||◌, ◌&&◌, ◌+◌, zero, some, ◌-◌,
}
use environments_api.Common.Int.{ℤ, pos, negsuc, sub_ℕ}

abbrev pub frame_byte : ℕ
frame_byte = 0x1e

abbrev pub is_hex : ℕ → Bool
is_hex c = (leb b'0' c && leb c b'9') || (leb b'a' c && leb c b'f')

abbrev pub is_digit : ℕ → Bool
is_digit c = leb b'0' c && leb c b'9'

-- `nonce` and `exit_code` of a completed marker.
pub record Frame : Type 0 where
  pub nonce : List ℕ
  pub exit_code : ℤ

pub data Event : Type 0 where
  output : List ℕ → Event
  framed : Frame → Event

-- A greedy `{0,n}` over one class of bytes: what it takes, and what it leaves.
unfoldable pub span_upto : (ℕ → Bool) → ℕ → List ℕ → List ℕ × List ℕ
span_upto p zero xs = ([], xs)
span_upto p (suc n) [] = ([], [])
span_upto p (suc n) (x ∷ xs) =
    let r = span_upto p n xs in if p x then (x ∷ r.0, r.1) else ([], x ∷ xs)

-- `int(...)` of decimal digits.
unfoldable pub digits_value : ℕ → List ℕ → ℕ
digits_value acc [] = acc
digits_value acc (d ∷ ds) = digits_value (acc * 10 + (d - b'0')) ds

-- `int` of an optional minus and digits; "-0" is 0.
unfoldable pub code_value : Bool → List ℕ → ℤ
code_value minus ds = if minus then sub_ℕ 0 (digits_value 0 ds) else pos (digits_value 0 ds)

-- `-?`
unfoldable pub strip_minus : List ℕ → Bool × List ℕ
strip_minus [] = (false, [])
strip_minus (x ∷ xs) = if x == b'-' then (true, xs) else (false, x ∷ xs)

match_close : Frame → List ℕ → Option (Frame × List ℕ)
match_close f [] = none
match_close f (x ∷ xs) = if x == frame_byte then some (f, xs) else none

match_digits : List ℕ → Bool → List ℕ × List ℕ → Option (Frame × List ℕ)
match_digits nonce minus ([], r) = none
match_digits nonce minus (d ∷ ds, r) =
    match_close (record { nonce = nonce; exit_code = code_value minus (d ∷ ds) }) r

match_code : List ℕ → Bool × List ℕ → Option (Frame × List ℕ)
match_code nonce (minus, r) = match_digits nonce minus (span_upto is_digit 5 r)

match_colon : List ℕ → List ℕ → Option (Frame × List ℕ)
match_colon nonce [] = none
match_colon nonce (x ∷ xs) = if x == b':' then match_code nonce (strip_minus xs) else none

match_nonce : List ℕ × List ℕ → Option (Frame × List ℕ)
match_nonce (nonce, r) = if length nonce == 32 then match_colon nonce r else none

-- `FRAME_PATTERN.match` at the head of the list, with the bytes behind the match.
unfoldable pub match_frame : List ℕ → Option (Frame × List ℕ)
unfolding match_nonce match_colon match_code match_digits match_close strip_minus code_value
match_frame [] = none
match_frame (x ∷ xs) = if x == frame_byte then match_nonce (span_upto is_hex 32 xs) else none

-- `$`: the end, or a newline that ends the buffer.
at_end : List ℕ → Bool
at_end [] = true
at_end (x ∷ []) = x == 10
at_end (x ∷ y ∷ r) = false

partial_code : Bool × List ℕ → Bool
partial_code (minus, r) = at_end (span_upto is_digit 5 r).1

partial_colon : List ℕ → Bool
partial_colon [] = true
partial_colon (x ∷ xs) = at_end (x ∷ xs) || (x == b':' && partial_code (strip_minus xs))

partial_nonce : List ℕ × List ℕ → Bool
partial_nonce (h, r) = if length h == 32 then partial_colon r else at_end r

-- `PARTIAL_FRAME_PATTERN.match` at the head of the list.
unfoldable pub match_partial : List ℕ → Bool
unfolding partial_nonce partial_colon partial_code at_end strip_minus
match_partial [] = false
match_partial (x ∷ xs) = x == frame_byte && partial_nonce (span_upto is_hex 32 xs)

-- `_emit`: joined to the last event where that is output.
unfoldable pub emit : List Event → List ℕ → List Event
emit events [] = events
emit [] (x ∷ d) = output (x ∷ d) ∷ []
emit (output b ∷ []) (x ∷ d) = output (b ++ (x ∷ d)) ∷ []
emit (framed f ∷ []) (x ∷ d) = framed f ∷ output (x ∷ d) ∷ []
emit (e ∷ e' ∷ es) (x ∷ d) = e ∷ emit (e' ∷ es) (x ∷ d)

-- `buf.find(FRAME_BYTE, pos)`: the bytes before the next marker byte, and those from it on.
unfoldable pub before_mark : List ℕ → List ℕ
before_mark [] = []
before_mark (x ∷ xs) = let r = before_mark xs in if x == frame_byte then [] else x ∷ r

unfoldable pub from_mark : List ℕ → List ℕ
from_mark [] = []
from_mark (x ∷ xs) = let r = from_mark xs in if x == frame_byte then x ∷ xs else r

-- One round of the loop of `feed`, from the marker byte that `find` met; `again` is the next round.
feed_mark :
    List ℕ
    → List Event
    → (List ℕ → List Event → Option (List Event × List ℕ))
    → Option (List Event × List ℕ)
feed_mark [] events again = some (events, [])
feed_mark (x ∷ xs) events again = elim (match_frame (x ∷ xs)) [
  | some (f, rest) ↦ again rest (events ++ (framed f ∷ []))
  | none ↦ elim (match_partial (x ∷ xs)) [
    | true ↦ some (events, x ∷ xs)
    | false ↦ again xs (emit events (x ∷ []))
  ]
]

-- The loop of `feed` on the bytes from `pos` on: the events, and what is pending. `none` stands for
-- rounds that never end; `feed` gives one round more than there are bytes.
unfoldable pub feed_loop : ℕ → List ℕ → List Event → Option (List Event × List ℕ)
unfolding feed_mark
feed_loop zero buf events = none
feed_loop (suc fuel) buf events =
    feed_mark (from_mark buf) (emit events (before_mark buf)) (feed_loop fuel)

-- The parser's state is what it holds back.
unfoldable pub feed : List ℕ → List ℕ → Option (List Event × List ℕ)
unfolding feed_loop
feed pending d = let buf = pending ++ d in feed_loop (length buf + 1) buf []

unfoldable pub flush : List ℕ → List ℕ × List ℕ
flush pending = (pending, [])
