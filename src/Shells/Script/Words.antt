-- ===== src/Shells/Script/Words.antt =====
-- How a POSIX shell reads what exec_script (app/shells/framing.py) quotes: the rules of one word with
-- single and double quotes, without expansion.
use environments_api.Common.{
  ℕ, ◌≡◌, refl, sym, ap, inl, inr, Bool, true, false, ◌&&◌, ◌||◌, Option, none, some, List, [], ◌∷◌,
  ◌++◌, append_assoc, arith, ◌==◌, if◌then◌else◌, ==_iff, Bool-cases, length, drop,
}
use environments_api.Shells.Script.{
  is_safe, all_safe, quote_mark, double_quote, escape_quotes, quote, exec_script, assignments,
  eval_words, frame_printf,
}

-- How the shell reads the next character: outside quotes, in single or in double quotes.
pub data Mode : Type 0 where
  plain single double : Mode

-- What a character outside quotes or in double quotes stands for by itself: neither a quote nor a
-- character that the shell expands, ends the word at or reads a command by.
abbrev pub push : ℕ → Option (List ℕ × List ℕ) → Option (List ℕ × List ℕ)
push c none = none
push c (some (word, rest)) = some (c ∷ word, rest)

-- The word that the text begins with, and what follows it: a space, a semicolon or the end closes a
-- word outside quotes. `none` is a text that is not one such word: an open quote, or a character
-- that has a meaning of its own there.
unfoldable pub read_word : Mode → List ℕ → Option (List ℕ × List ℕ)
read_word plain [] = some ([], [])
read_word single [] = none
read_word double [] = none
read_word plain (c ∷ cs) =
    if (c == b' ') || (c == b';')
    then some ([], c ∷ cs)
    else if c == quote_mark
    then read_word single cs
    else if c == double_quote
    then read_word double cs
    else if is_safe c
    then push c (read_word plain cs)
    else none
read_word single (c ∷ cs) =
    if c == quote_mark then read_word plain cs else push c (read_word single cs)
read_word double (c ∷ cs) =
    if c == double_quote
    then read_word plain cs
    else if c == quote_mark || is_safe c
    then push c (read_word double cs)
    else none

-- What may follow a word.
abbrev pub EndsWord : List ℕ → Type 0
EndsWord [] = Unit
EndsWord (c ∷ cs) = ((c == b' ') || (c == b';')) ≡ true

read_word-end : (rest : List ℕ) → EndsWord rest → read_word plain rest ≡ some ([], rest)
unfolding read_word
read_word-end [] h = refl
read_word-end (c ∷ cs) h = rw h refl

-- Behind the opening quote, the escaped text is read to the closing quote.
read_word-escape_quotes :
    (cs rest : List ℕ)
    → EndsWord rest
    → read_word single (escape_quotes cs ++ (quote_mark ∷ rest)) ≡ some (cs, rest)
unfolding read_word escape_quotes
read_word-escape_quotes [] rest h = read_word-end rest h
read_word-escape_quotes (c ∷ cs) rest h = elim (Bool-cases (c == quote_mark)) [
  | inl e ↦
      let d : quote_mark ≡ c = sym ((==_iff c quote_mark).0 e) in
      rw (e, read_word-escape_quotes cs rest h) (ap (λ x. some (x ∷ cs, rest)) d)
  | inr e ↦ rw (e, e, read_word-escape_quotes cs rest h) refl
]

is_safe-plain :
    (c : ℕ)
    → is_safe c ≡ true
    → (((c == b' ') || (c == b';')) ≡ false)
      × ((c == quote_mark) ≡ false)
      × ((c == double_quote) ≡ false)
is_safe-plain c h = (ground (arith, h), ground (arith, h), ground (arith, h))

and_true : (a b : Bool) → (a && b) ≡ true → (a ≡ true) × (b ≡ true)
and_true true b h = (refl, h)
and_true false b h = absurd cc

read_word-all_safe :
    (cs rest : List ℕ)
    → EndsWord rest
    → all_safe cs ≡ true
    → read_word plain (cs ++ rest) ≡ some (cs, rest)
unfolding read_word all_safe
read_word-all_safe [] rest h k = read_word-end rest h
read_word-all_safe (c ∷ cs) rest h k =
    let safe = and_true (is_safe c) (all_safe cs) k in
    let p = is_safe-plain c safe.0 in
    rw (p.0, p.1, p.2, safe.0, read_word-all_safe cs rest h safe.1) refl

-- Whatever the text, the shell reads what `shlex.quote` makes of it as one word, which is the text:
-- nothing in a command or in a credential's value ends the word or is expanded, where a space, a
-- semicolon or the end follows.
pub read_word-quote :
    (text rest : List ℕ) → EndsWord rest → read_word plain (quote text ++ rest) ≡ some (text, rest)
unfolding quote read_word
read_word-quote [] rest h = read_word-end rest h
read_word-quote (c ∷ cs) rest h = elim (Bool-cases (all_safe (c ∷ cs))) [
  | inl e ↦ rw e (read_word-all_safe (c ∷ cs) rest h e)
  | inr e ↦
      rw (e, append_assoc (escape_quotes (c ∷ cs)) (quote_mark ∷ []) rest)
        (read_word-escape_quotes (c ∷ cs) rest h)
]

drop-append-length : (xs ys : List ℕ) → drop (length xs) (xs ++ ys) ≡ ys
drop-append-length [] ys = refl
drop-append-length (x ∷ xs) ys = drop-append-length xs ys

-- In the text written to a shell, the word behind `command eval`, whatever assignments stand before
-- it, reads as exactly the command, and what follows that word is the printf of the nonce and `$?`.
pub exec_script-command :
    (command nonce : List ℕ) (env : List (List ℕ × List ℕ))
    → read_word plain
        (drop (length (assignments env ++ eval_words)) (exec_script command nonce env))
      ≡ some (command, frame_printf nonce)
unfolding exec_script
exec_script-command command nonce env =
    let rest = quote command ++ frame_printf nonce in
    let e : exec_script command nonce env ≡ (assignments env ++ eval_words) ++ rest =
      append_assoc (assignments env ++ eval_words) (quote command) (frame_printf nonce) in
    rw (e, drop-append-length (assignments env ++ eval_words) rest)
      (read_word-quote command (frame_printf nonce) refl)
