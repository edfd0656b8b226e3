-- ===== src/Keyring/Credentials.antt =====
-- The credentials of app/keyring/client.py: parse_credential's rules from credential_env on, and
-- CredentialClient.resolve over what keyring_client answers or raises. A text is its code points. Python's
-- tables of characters (isalnum, upper, lower, and the pattern's `\s`) are parameters.
use environments_api.Common.{
  ℕ, Bool, false, not, ◌&&◌, ◌||◌, Option, none, some, List, [], ◌∷◌, ◌++◌, map, leb, ◌==◌,
  if◌then◌else◌, is_empty,
}
use environments_api.Common.Error.{unauthorized, keyring_unavailable}
use environments_api.Common.Result.{Result, ok, err}
use environments_api.Files.Tree.{Text, text_eq}
use environments_api.Shells.Shell.Commands.{ResolvedCredential, set_variable, set_all}

abbrev token_suffix : Text
token_suffix = b'T' ∷ b'O' ∷ b'K' ∷ b'E' ∷ b'N' ∷ []

abbrev authorization_name : Text
authorization_name =
    b'a' ∷ b'u' ∷ b't' ∷ b'h' ∷ b'o' ∷ b'r' ∷ b'i' ∷ b'z' ∷ b'a' ∷ b't' ∷ b'i' ∷ b'o' ∷ b'n' ∷ []

abbrev pub Fields : Type 0
Fields = List (Text × Text)

-- What keyring_client's client answers, or raises.
pub data Answer : Type 0 where
  resolved : Fields → Fields → Answer
  not_found rejected unavailable unreachable : Answer

abbrev is_letter : ℕ → Bool
is_letter c = (leb b'a' c && leb c b'z') || (leb b'A' c && leb c b'Z')

-- `[A-Za-z0-9._~+/-]`
abbrev is_scheme_char : ℕ → Bool
is_scheme_char c =
    is_letter c
    || (leb b'0' c && leb c b'9')
    || (c == b'.')
    || (c == b'_')
    || (c == b'~')
    || (c == b'+')
    || (c == b'/')
    || (c == b'-')

module _ (is_alnum is_space : ℕ → Bool) (upper lower : Text → Text) where
  unfoldable pub env_name : Text → Text → Text
  env_name service name = upper (map (λ c. if is_alnum c then c else b'_') (service ++ b'_' ∷ name))

  -- The text up to the first space, and from there on.
  unfoldable pub word_of : Text → Text × Text
  word_of [] = ([], [])
  word_of (c ∷ cs) =
      let (word, behind) = word_of cs in if is_space c then ([], c ∷ cs) else (c ∷ word, behind)

  unfoldable pub skip_spaces : Text → Text
  skip_spaces [] = []
  skip_spaces (c ∷ cs) = let rest = skip_spaces cs in if is_space c then rest else c ∷ cs

  -- `(\S+)$`: the end is also before a last newline.
  unfoldable pub credential_of : Text → Option Text
  unfolding word_of text_eq
  credential_of text =
      let (word, behind) = word_of text in
      if not (is_empty word) && (is_empty behind || text_eq behind (10 ∷ []))
      then some word
      else none

  -- What follows the scheme's first letter in _SCHEME_AND_CREDENTIAL.
  unfoldable pub after_scheme : Text → Option Text
  unfolding skip_spaces credential_of
  after_scheme [] = none
  after_scheme (c ∷ cs) =
      let rest = after_scheme cs in
      if is_scheme_char c
      then rest
      else (if is_space c then credential_of (skip_spaces cs) else none)

  unfoldable pub scheme_and_credential : Text → Option Text
  unfolding after_scheme
  scheme_and_credential [] = none
  scheme_and_credential (c ∷ cs) = if is_letter c then after_scheme cs else none

  abbrev match_or : Text → Option Text → Text
  match_or value none = value
  match_or value (some group) = group

  unfoldable pub authorization_of : Fields → Option Text
  unfolding scheme_and_credential text_eq
  authorization_of [] = none
  authorization_of ((name, value) ∷ rest) =
      let later = authorization_of rest in
      if text_eq (lower name) authorization_name
      then some (match_or value (scheme_and_credential value))
      else later

  abbrev the_only : Fields → Option Text
  the_only ((name, value) ∷ []) = some value
  the_only _ = none

  abbrev or_only : Fields → Option Text → Option Text
  or_only fields (some token) = some token
  or_only fields none = the_only fields

  unfoldable pub bare_token : Fields → Fields → Option Text
  unfolding authorization_of
  bare_token headers params = or_only (headers ++ params) (authorization_of headers)

  abbrev named : Text → Fields → Fields
  named service fields = map (λ f. (env_name service f.0, f.1)) fields

  unfoldable pub has_variable : Text → Fields → Bool
  unfolding text_eq
  has_variable key [] = false
  has_variable key ((name, value) ∷ rest) = text_eq name key || has_variable key rest

  -- `env.setdefault(key, token)` where there is a token.
  abbrev set_default : Text → Option Text → Fields → Fields
  set_default key none env = env
  set_default key (some token) env =
      if has_variable key env then env else set_variable key token env

  unfoldable pub credential_env : Text → Fields → Fields → ResolvedCredential
  unfolding env_name bare_token has_variable set_variable set_all
  credential_env service headers params = record {
    service = service;
    env =
        set_default (env_name service token_suffix) (bare_token headers params)
          (set_all (set_all [] (named service headers)) (named service params));
  }

  -- `CredentialClient.resolve`
  unfoldable pub resolve_credential : Text → Answer → Result (Option ResolvedCredential)
  unfolding credential_env
  resolve_credential service (resolved headers params) =
      ok (some (credential_env service headers params))
  resolve_credential service not_found = ok none
  resolve_credential service rejected = err unauthorized
  resolve_credential service unavailable = err keyring_unavailable
  resolve_credential service unreachable = err keyring_unavailable
