-- ===== src/Keyring/Tests.antt =====
-- Tests of app/keyring/auth.py and app/keyring/client.py.
use environments_api.Common.{
  ℕ, ◌+◌, ◌-◌, ◌≡◌, refl, Bool, ◌&&◌, ◌||◌, none, some, [], ◌∷◌, map, leb, ◌==◌, if◌then◌else◌,
}
use environments_api.Common.Error.{unauthorized}
use environments_api.Common.Result.{ok, err}
use environments_api.Files.Tree.{Text}
use environments_api.Keyring.{presented_token}
use environments_api.Keyring.Presented.{Presented, presented_token-Presented}
use environments_api.Keyring.Credentials.{credential_env}
use environments_api.Shells.Shell.{bytes_eq}

abbrev bearer_header : Text
bearer_header = b'B' ∷ b'E' ∷ b'a' ∷ b'r' ∷ b'e' ∷ b'r' ∷ b' ' ∷ b't' ∷ []

-- `Bearer t`, with the scheme in either case, and the same token in the second header.
bearer : presented_token (some bearer_header) (some (b't' ∷ [])) ≡ ok (b't' ∷ [])
unfolding presented_token
bearer = refl

presented_token-Presented_example : Presented (some bearer_header) (some (b't' ∷ [])) (b't' ∷ [])
presented_token-Presented_example =
    presented_token-Presented (some bearer_header) (some (b't' ∷ [])) (b't' ∷ []) bearer

disagree :
    presented_token
      (some (b'b' ∷ b'e' ∷ b'a' ∷ b'r' ∷ b'e' ∷ b'r' ∷ b' ' ∷ b't' ∷ []))
      (some (b'u' ∷ []))
    ≡ err unauthorized
unfolding presented_token
disagree = refl

missing : presented_token none none ≡ err unauthorized
unfolding presented_token
missing = refl

abbrev is_ascii_letter : ℕ → Bool
is_ascii_letter c = (leb b'a' c && leb c b'z') || (leb b'A' c && leb c b'Z')

abbrev ascii_upper : ℕ → ℕ
ascii_upper c = if leb b'a' c && leb c b'z' then c - 32 else c

abbrev ascii_lower : ℕ → ℕ
ascii_lower c = if leb b'A' c && leb c b'Z' then c + 32 else c

-- The header `a: t` of a service `s`: one variable for it, and the bare token's.
only_value :
    (credential_env is_ascii_letter
      (λ c. c == b' ')
      (map ascii_upper)
      (map ascii_lower)
      (b's' ∷ [])
      (((b'a' ∷ []), (b't' ∷ [])) ∷ [])
      []).env
    ≡ ((b'S' ∷ b'_' ∷ b'A' ∷ []), (b't' ∷ []))
      ∷ ((b'S' ∷ b'_' ∷ b'T' ∷ b'O' ∷ b'K' ∷ b'E' ∷ b'N' ∷ []), (b't' ∷ []))
      ∷ []
unfolding credential_env bytes_eq
only_value = refl

-- `Authorization: B t` gives the part behind the scheme.
bare :
    (credential_env is_ascii_letter
      (λ c. c == b' ')
      (map ascii_upper)
      (map ascii_lower)
      (b's' ∷ [])
      ((
        (b'A' ∷ b'u' ∷ b't' ∷ b'h' ∷ b'o' ∷ b'r' ∷ b'i' ∷ b'z' ∷ b'a' ∷ b't' ∷ b'i' ∷ b'o' ∷ b'n'
            ∷ []),
        (b'B' ∷ b' ' ∷ b't' ∷ []),
      )
        ∷ ((b'x' ∷ []), (b'y' ∷ []))
        ∷ [])
      []).env
    ≡ (
      (b'S' ∷ b'_' ∷ b'A' ∷ b'U' ∷ b'T' ∷ b'H' ∷ b'O' ∷ b'R' ∷ b'I' ∷ b'Z' ∷ b'A' ∷ b'T' ∷ b'I'
          ∷ b'O' ∷ b'N' ∷ []),
      (b'B' ∷ b' ' ∷ b't' ∷ []),
    )
      ∷ ((b'S' ∷ b'_' ∷ b'X' ∷ []), (b'y' ∷ []))
      ∷ ((b'S' ∷ b'_' ∷ b'T' ∷ b'O' ∷ b'K' ∷ b'E' ∷ b'N' ∷ []), (b't' ∷ []))
      ∷ []
unfolding credential_env bytes_eq
bare = refl
