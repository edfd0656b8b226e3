-- ===== src/Shells/Framing/Tests.antt =====
-- Runs of the frame parser, and its theorems at concrete inputs.
use environments_api.Common.{◌<◌, ℕ, ◌∷◌, List, [], ◌≡◌, some, refl, ◌++◌, arith, length}
use environments_api.Shells.Framing.{
  Frame, Event, output, framed, feed, flush, negsuc, match_frame, match_partial, span_upto,
  digits_value, from_mark, before_mark, emit, is_hex,
}
use environments_api.Shells.Framing.Raw.{
  raw, match_frame-raw, raw_drops_zero, marker_of, decimal, AllOf,
}
use environments_api.Shells.Framing.Stream.{feed_chunks, feed-Reads, items, Reads}

abbrev nonce0 : List ℕ
nonce0 =
    48 ∷ 49 ∷ 50 ∷ 51 ∷ 52 ∷ 53 ∷ 54 ∷ 55 ∷ 48 ∷ 49 ∷ 50 ∷ 51 ∷ 52 ∷ 53 ∷ 54 ∷ 55 ∷ 97 ∷ 98 ∷ 99
    ∷ 100 ∷ 101 ∷ 102 ∷ 97 ∷ 98 ∷ 97 ∷ 98 ∷ 99 ∷ 100 ∷ 101 ∷ 102 ∷ 97 ∷ 98 ∷ []

abbrev failed : Frame
failed = record { nonce = nonce0; exit_code = negsuc 0 }

-- "hi", the marker, and a byte behind it
feed_run :
    feed [] (104 ∷ 105 ∷ raw failed ++ (33 ∷ []))
    ≡ some (output (104 ∷ 105 ∷ []) ∷ framed failed ∷ output (33 ∷ []) ∷ [], [])
unfolding feed raw match_frame match_partial span_upto digits_value decimal from_mark before_mark
    emit
feed_run = refl

-- A marker byte with nothing behind it is held, also before a newline that ends the chunk.
feed_holds : feed [] (104 ∷ 30 ∷ 10 ∷ []) ≡ some (output (104 ∷ []) ∷ [], 30 ∷ 10 ∷ [])
unfolding feed match_frame match_partial span_upto from_mark before_mark emit
feed_holds = refl

feed_releases : feed (30 ∷ 10 ∷ []) (104 ∷ []) ≡ some (output (30 ∷ 10 ∷ 104 ∷ []) ∷ [], [])
unfolding feed match_frame match_partial span_upto from_mark before_mark emit
feed_releases = refl

flush_run : flush (30 ∷ []) ≡ (30 ∷ [], [])
unfolding flush
flush_run = refl

feed-Reads_example :
    (es : List Event) × (rest : List ℕ) × (feed (30 ∷ []) (104 ∷ []) ≡ some (es, rest))
    × Reads (30 ∷ 104 ∷ []) (items es) rest
feed-Reads_example = feed-Reads (30 ∷ []) (104 ∷ [])

feed_chunks_example :
    (items (output (104 ∷ 30 ∷ 10 ∷ 104 ∷ []) ∷ [])
      ≡ items (output (104 ∷ []) ∷ []) ++ items (output (30 ∷ 10 ∷ 104 ∷ []) ∷ []))
    × (◌≡◌ {A = List ℕ} [] [])
unfolding feed match_frame match_partial span_upto from_mark before_mark emit
feed_chunks_example =
    feed_chunks [] (104 ∷ 30 ∷ 10 ∷ []) (104 ∷ []) {p = 30 ∷ 10 ∷ []} refl refl refl

nonce0_hex : AllOf is_hex nonce0
nonce0_hex = ground arith

match_frame-raw_example : match_frame (raw failed ++ (10 ∷ [])) ≡ some (failed, 10 ∷ [])
match_frame-raw_example = match_frame-raw failed (10 ∷ []) nonce0_hex refl (omega arith)

raw_drops_zero_example :
    let m = marker_of nonce0 (48 ∷ 48 ∷ 55 ∷ []) in
    (f : Frame) × (match_frame m ≡ some (f, [])) × (length (raw f) < length m)
raw_drops_zero_example =
    raw_drops_zero nonce0 (48 ∷ 55 ∷ []) 1 nonce0_hex refl (refl, (refl, tt)) refl (omega arith)
