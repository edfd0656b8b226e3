-- ===== src/Shells/Redact/Tests.antt =====
-- Tests of app/shells/redact.py, and the stream theorem at a secret read in two pieces.
use environments_api.Common.{ℕ, ◌≡◌, refl, List, [], ◌∷◌, ◌++◌, arith}
use environments_api.Common.{filter}
use environments_api.Shells.Redact.{
  feed, insert_longest, replace_from, starts_with, holdback_from, could_start, flush, Secret, new,
  marker_of, replace, encode,
}
use environments_api.Shells.Redact.Streaming.{feed_all, join, feed_all-replace}

-- The secret `ab1` of a service `s`.
abbrev token : Secret
token = record { text = b'a' ∷ b'b' ∷ b'1' ∷ []; service = b's' ∷ [] }

abbrev pieces : List (List ℕ)
pieces = (b'x' ∷ b'a' ∷ []) ∷ (b'b' ∷ []) ∷ (b'1' ∷ b'y' ∷ b'a' ∷ []) ∷ []

feed_all-replace_example :
    feed_all (new (token ∷ [])) pieces
    ≡ replace (encode token.text) (marker_of token.service) (join pieces)
feed_all-replace_example =
    feed_all-replace token pieces refl (omega arith, (omega arith, (omega arith, tt)))

replaced : feed_all (new (token ∷ [])) pieces ≡ b'x' ∷ marker_of token.service ++ (b'y' ∷ b'a' ∷ [])
unfolding feed_all new feed filter insert_longest replace_from starts_with holdback_from could_start
    flush
replaced = refl

-- A secret that begins with another one, read in two pieces: the shorter one is replaced at once,
-- and the rest of the longer one comes through.
abbrev longer : Secret
longer = record { text = b'a' ∷ b'b' ∷ b'1' ∷ b'2' ∷ b'3' ∷ []; service = b't' ∷ [] }

leaks :
    feed_all (new (token ∷ longer ∷ [])) ((b'a' ∷ b'b' ∷ b'1' ∷ []) ∷ (b'2' ∷ b'3' ∷ []) ∷ [])
    ≡ marker_of token.service ++ (b'2' ∷ b'3' ∷ [])
unfolding feed_all new feed filter insert_longest replace_from starts_with holdback_from could_start
    flush
leaks = refl
