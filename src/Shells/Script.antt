-- ===== src/Shells/Script.antt =====
-- exec_script (app/shells/framing.py), with `shlex.quote` of the standard library. A `str` is its code
-- points.
pub mod Words
use environments_api.Common.{
  ℕ, ◌+◌, ◌-◌, ◌/◌, ◌%◌, Bool, true, ◌&&◌, ◌||◌, List, [], ◌∷◌, ◌++◌, leb, ◌==◌, if◌then◌else◌,
}
use environments_api.Shells.Framing.{is_digit}

-- `[a-zA-Z0-9_@%+=:,./-]`
abbrev pub is_safe : ℕ → Bool
is_safe c =
    (leb b'a' c && leb c b'z')
    || (leb b'A' c && leb c b'Z')
    || is_digit c
    || (c == b'_')
    || (c == b'@')
    || (c == b'%')
    || (c == b'+')
    || (c == b'=')
    || (c == b':')
    || (c == b',')
    || (c == b'.')
    || (c == b'/')
    || (c == b'-')

unfoldable pub all_safe : List ℕ → Bool
all_safe [] = true
all_safe (c ∷ cs) = is_safe c && all_safe cs

abbrev pub quote_mark : ℕ
quote_mark = 39

abbrev pub double_quote : ℕ
double_quote = 34

-- `s.replace("'", "'\"'\"'")`
unfoldable pub escape_quotes : List ℕ → List ℕ
escape_quotes [] = []
escape_quotes (c ∷ cs) =
    let rest = escape_quotes cs in
    if c == quote_mark
    then quote_mark ∷ double_quote ∷ quote_mark ∷ double_quote ∷ quote_mark ∷ rest
    else c ∷ rest

-- `shlex.quote`
unfoldable pub quote : List ℕ → List ℕ
quote [] = quote_mark ∷ quote_mark ∷ []
quote (c ∷ cs) =
    if all_safe (c ∷ cs) then c ∷ cs else quote_mark ∷ escape_quotes (c ∷ cs) ++ (quote_mark ∷ [])

-- `" ".join(...) + " "` of the assignments before the command; nothing where there is none.
unfoldable pub assignments : List (List ℕ × List ℕ) → List ℕ
assignments [] = []
assignments ((key, value) ∷ rest) = key ++ (b'=' ∷ quote value ++ (b' ' ∷ assignments rest))

abbrev pub eval_words : List ℕ
eval_words =
    b'c' ∷ b'o' ∷ b'm' ∷ b'm' ∷ b'a' ∷ b'n' ∷ b'd' ∷ b' ' ∷ b'e' ∷ b'v' ∷ b'a' ∷ b'l' ∷ b' ' ∷ []

abbrev pub printf_words : List ℕ
printf_words =
    b'p' ∷ b'r' ∷ b'i' ∷ b'n' ∷ b't' ∷ b'f' ∷ b' ' ∷ 39 ∷ 92 ∷ b'0' ∷ b'3' ∷ b'6' ∷ b'%' ∷ b's'
    ∷ b':' ∷ b'%' ∷ b'd' ∷ 92 ∷ b'0' ∷ b'3' ∷ b'6' ∷ 39 ∷ b' ' ∷ []

-- The printf of the frame, and what stands before it.
abbrev pub frame_printf : List ℕ → List ℕ
frame_printf nonce = b';' ∷ b' ' ∷ printf_words ++ nonce ++ (b' ' ∷ b'$' ∷ b'?' ∷ 10 ∷ [])

-- `exec_script`, before it is encoded.
unfoldable pub exec_script : List ℕ → List ℕ → List (List ℕ × List ℕ) → List ℕ
unfolding assignments quote
exec_script command nonce env = assignments env ++ eval_words ++ quote command ++ frame_printf nonce
