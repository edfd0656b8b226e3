-- ===== src/Shells/Shell/Output.antt =====
-- What output and a command's end change of a shell (app/shells/shell.py), and what they leave alone.
use environments_api.Common.{
  ℕ, ◌-◌, ◌≡◌, refl, ap, ◌∙◌, inl, inr, Bool, true, Option, none, some, List, [], ◌∷◌, ◌++◌, ltb,
  leb, Bool-cases, Option-cases, length,
}
use mathlib.Core.Path.{subst}
use environments_api.Common.Int.{ℤ}
use environments_api.Common.Assoc.{is_none}
use environments_api.Shells.Buffer.{RingBuffer, end_of, append}
use environments_api.Shells.Redact.{Redactor}
use environments_api.Shells.Redact
use environments_api.Shells.Log.{LogWriter, write}
use environments_api.Shells.Shell.{
  Shell, CommandRecord, log_to, redacted, emit, release, finish, finish_current, finish_if, ended,
}

write-closed : (w : LogWriter) (d : List ℕ) → (write w d).closed ≡ w.closed
unfolding write
write-closed w d = elim (Bool-cases (leb w.cap w.written)) [
  | inl e ↦ rw e refl
  | inr e ↦ elim (Bool-cases (ltb (w.cap - w.written) (length d))) [
    | inl f ↦ rw (e, f) refl
    | inr f ↦ rw (e, f) refl
  ]
]

-- The same command, with more in its log, which is open where it was.
abbrev pub Logged : Option CommandRecord → Option CommandRecord → Type 0
Logged none o = o ≡ none
Logged (some c) o = (w : LogWriter) × (o ≡ some (record c { log = w })) × (w.closed ≡ c.log.closed)

-- What showing output changes.
pub record Shown : Type 0 where
  pub buffer : RingBuffer
  pub redactor : Option Redactor
  pub current : Option CommandRecord
  pub last_activity : ℕ

abbrev pub with_shown : Shown → Shell → Shell
with_shown v s = record s {
  buffer = v.buffer;
  redactor = v.redactor;
  current = v.current;
  last_activity = v.last_activity;
}

Logged-refl : (o : Option CommandRecord) → Logged o o
Logged-refl none = refl
Logged-refl (some c) = (c.log, refl, refl)

Logged-log_to : (d : List ℕ) (o : Option CommandRecord) → Logged o (log_to d o)
Logged-log_to d none = refl
Logged-log_to d (some c) = (write c.log d, refl, write-closed c.log d)

redacted-is_none : (r : Option Redactor) (d : List ℕ) → is_none (redacted r d).1 ≡ is_none r
unfolding redacted
redacted-is_none none d = refl
redacted-is_none (some r) d = refl

pub emit_lem :
    (now : ℕ) (d : List ℕ) (s : Shell)
    → (v : Shown) × (emit now d s ≡ with_shown v s)
      × Logged s.current v.current
      × (is_none v.redactor ≡ is_none s.redactor)
unfolding emit
emit_lem now [] s = (
  record {
    buffer = s.buffer;
    redactor = s.redactor;
    current = s.current;
    last_activity = s.last_activity;
  },
  refl,
  Logged-refl s.current,
  refl,
)
emit_lem now (x ∷ d) s =
    let shown = redacted s.redactor (x ∷ d) in
    (
      record {
        buffer = append s.buffer shown.0;
        redactor = shown.1;
        current = log_to shown.0 s.current;
        last_activity = now;
      },
      refl,
      Logged-log_to shown.0 s.current,
      redacted-is_none s.redactor (x ∷ d),
    )

pub release_lem :
    (now : ℕ) (s : Shell)
    → (v : Shown) × (release now s ≡ with_shown v s)
      × Logged s.current v.current
      × (is_none v.redactor ≡ true)
unfolding release
release_lem now s = elim (Option-cases s.redactor) [
  | inl e ↦ (
    record {
      buffer = s.buffer;
      redactor = s.redactor;
      current = s.current;
      last_activity = s.last_activity;
    },
    rw e refl,
    Logged-refl s.current,
    rw e refl,
  )
  | inr (r, e) ↦
      let m = emit_lem now (Redact.flush r).0 (record s { redactor = none }) in
      (m.0, rw e m.1, m.2, m.3)
]

pub is_none-none : {A : Type 0} (o : Option A) → is_none o ≡ true → o ≡ none
is_none-none none h = refl
is_none-none (some a) h = absurd cc

-- What ending a command changes: it joins the history, closed as it is then, and nothing runs.
pub finish-some :
    (now : ℕ) (code : Option ℤ) (died : Bool) (s : Shell) (c : CommandRecord)
    → s.current ≡ some c
    → (b : RingBuffer) × (w : LogWriter) × (finish now code died s ≡ record s {
      buffer = b;
      redactor = none;
      current = none;
      last_activity = now;
      past = s.past ++ (ended now code died (end_of b) (record c { log = w }) ∷ []);
    })
unfolding finish finish_if finish_current
finish-some now code died s c e =
    let (v, same, logged, flushed) = release_lem now s in
    let lg : Logged (some c) v.current = subst (λ o. Logged o v.current) e logged in
    let r : v.redactor ≡ none = is_none-none v.redactor flushed in
    (
      v.buffer,
      lg.0,
      ap (λ o. finish_if now code died s o) e
          ∙ ap (λ t. finish_current now code died t t.current) same
          ∙ ap (λ o. finish_current now code died (with_shown v s) o) lg.1
          ∙ ap
              (λ r'. record s {
                buffer = v.buffer;
                redactor = r';
                current = none;
                last_activity = now;
                past =
                    s.past
                    ++ (ended now code died (end_of v.buffer) (record c { log = lg.0 }) ∷ []);
              })
              r,
    )

-- With nothing running, there is nothing to end.
pub finish-none :
    (now : ℕ) (code : Option ℤ) (died : Bool) (s : Shell)
    → s.current ≡ none
    → finish now code died s ≡ s
unfolding finish finish_if
finish-none now code died s e = ap (λ o. finish_if now code died s o) e
