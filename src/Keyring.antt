-- ===== src/Keyring.antt =====
-- app/keyring/auth.py: the token that a request presents, and what the verifier's answer becomes. A
-- text is its code points. What the shared verifier of keyring_client says of a token is an argument.
mod Tests
pub mod Credentials
pub mod Presented
use environments_api.Common.{
  ℕ, ◌+◌, String, not, ◌&&◌, ◌||◌, Option, none, some, [], ◌∷◌, map, leb, ◌==◌, if◌then◌else◌,
  is_empty,
}
use environments_api.Common.Error.{unauthorized, keyring_unavailable}
use environments_api.Common.Result.{Result, ok, err, ◌>>=◌, ◌>>◌, guard}
use environments_api.Files.Tree.{Text, text_eq}

-- `scheme.lower()`; no letter outside ASCII becomes one of the scheme's.
abbrev pub lower : ℕ → ℕ
lower c = if leb b'A' c && leb c b'Z' then c + 32 else c

abbrev pub bearer_scheme : Text
bearer_scheme = b'b' ∷ b'e' ∷ b'a' ∷ b'r' ∷ b'e' ∷ b'r' ∷ []

-- `authorization.partition(" ")`: what is before the first space, and what is behind it.
unfoldable pub partition_space : Text → Text × Text
partition_space [] = ([], [])
partition_space (c ∷ cs) =
    let (front, behind) = partition_space cs in if c == b' ' then ([], cs) else (c ∷ front, behind)

abbrev pub or_empty : Option Text → Text
or_empty none = []
or_empty (some text) = text

-- `_refuse("missing")` where there is no token.
abbrev pub given : Text → Result Text
given token = guard (not (is_empty token)) unauthorized >> ok token

abbrev pub bearer_token : Text → Text → Text → Result Text
bearer_token legacy scheme bearer =
    guard (text_eq (map lower scheme) bearer_scheme && not (is_empty bearer)) unauthorized
    >> guard (is_empty legacy || text_eq legacy bearer) unauthorized
    >> given bearer

unfoldable pub presented_token : Option Text → Option Text → Result Text
unfolding partition_space text_eq
presented_token none legacy = given (or_empty legacy)
presented_token (some authorization) legacy =
    let (scheme, bearer) = partition_space authorization in
    bearer_token (or_empty legacy) scheme bearer

-- What keyring_client's verifier answers, or raises.
pub data Verdict : Type 0 where
  identity : String → Verdict
  authentication_error keyring_unreachable_error : Verdict

-- `TokenVerifier.verify`
unfoldable pub verify : Verdict → Result String
verify (identity account_id) = ok account_id
verify authentication_error = err unauthorized
verify keyring_unreachable_error = err keyring_unavailable
