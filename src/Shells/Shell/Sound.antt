-- ===== src/Shells/Shell/Sound.antt =====
-- What holds of a shell between its critical sections (app/shells/shell.py), and that output and the
-- end of the process keep it.
use environments_api.Common.{
  ℕ, ◌+◌, ◌≤◌, ◌≡◌, refl, sym, ◌∙◌, inl, inr, Bool, true, false, not, ◌||◌, Option, none, some,
  List, [], ◌∷◌, ◌++◌, arith, Bool-cases, Option-cases, length, length-append,
}
use mathlib.Core.Path.{subst}
use environments_api.Common.{All}
use environments_api.Common.Int.{ℤ}
use environments_api.Common.Assoc.{is_none}
use environments_api.Environments.Records.{CommandState, exited, timed_out, shell_died, is_running}
use environments_api.Shells.Framing.{Frame, Event, output, framed}
use environments_api.Shells.Framing.Raw.{raw}
use environments_api.Shells.Framing
use environments_api.Shells.Framing.Stream.{feed-Reads}
use environments_api.Shells.Buffer.{end_of}
use environments_api.Shells.Log.{close}
use environments_api.Shells.Shell.{
  Shell, CommandRecord, emit, finish, ended, handle_event, handle, is_ours, read_chunk, on_exit,
  end_of_stream, history_limit, code_of, final_state,
}
use environments_api.Shells.Shell.Output.{Logged, emit_lem, finish-some, finish-none}
use environments_api.Shells.Shell.Commands.{as_list, is_idle}

abbrev pub is_over : CommandState → Bool
is_over CommandState.running = false
is_over exited = true
is_over timed_out = true
is_over shell_died = true

-- A command of the history: over, with its log closed, and its record agrees with the log.
abbrev pub IsOver : CommandRecord → Type 0
IsOver c =
    (is_over c.state ≡ true)
    × (c.log.closed ≡ true)
    × (c.log_bytes ≡ c.log.written)
    × (c.log_truncated ≡ c.log.truncated)

-- The command that runs: no result yet, and an open log.
abbrev pub RunsOpen : Option CommandRecord → Type 0
RunsOpen none = Unit
RunsOpen (some c) = (is_over c.state ≡ false) × (c.log.closed ≡ false) × (c.exit_code ≡ none)

-- What holds in the middle of a critical section also.
abbrev pub IsSound : Shell → Type 0
IsSound s =
    (length s.past + length (as_list s.current) ≤ history_limit)
    × All IsOver s.past
    × RunsOpen s.current
    × ((is_none s.redactor || not (is_idle s.current)) ≡ true)

-- And between them: nothing runs in a shell that is gone.
abbrev pub IsWellFormed : Shell → Type 0
IsWellFormed s = IsSound s × ((is_running s.state || is_idle s.current) ≡ true)

-- The same command runs, if one does, in a shell of the same state.
abbrev Alike : Shell → Shell → Type 0
Alike s t = (is_idle t.current ≡ is_idle s.current) × (t.state ≡ s.state)

RunsOpen-Logged : (o o' : Option CommandRecord) → Logged o o' → RunsOpen o → RunsOpen o'
RunsOpen-Logged none o' l h = rw l tt
RunsOpen-Logged (some c) o' (w, e, same) h = rw e (h.0, same ∙ h.1, h.2)

is_idle-Logged : (o o' : Option CommandRecord) → Logged o o' → is_idle o' ≡ is_idle o
is_idle-Logged none o' l = rw l refl
is_idle-Logged (some c) o' (w, e, same) = rw e refl

length-Logged :
    (o o' : Option CommandRecord) → Logged o o' → length (as_list o') ≡ length (as_list o)
length-Logged none o' l = rw l refl
length-Logged (some c) o' (w, e, same) = rw e refl

emit-IsSound :
    (now : ℕ) (d : List ℕ) (s : Shell) → IsSound s → IsSound (emit now d s) × Alike s (emit now d s)
emit-IsSound now d s h =
    let (v, same, logged, held) = emit_lem now d s in
    let idle = is_idle-Logged s.current v.current logged in
    let n = length-Logged s.current v.current logged in
    subst (λ t. IsSound t × Alike s t) (sym same)
      (
        (
          omega (arith, n, h.0),
          h.1,
          RunsOpen-Logged s.current v.current logged h.2,
          rw (held, idle) h.3,
        ),
        (idle, refl),
      )

All-append :
    (P : CommandRecord → Type 0) (xs : List CommandRecord) (x : CommandRecord)
    → All P xs
    → P x
    → All P (xs ++ (x ∷ []))
All-append P [] x h k = (k, tt)
All-append P (y ∷ xs) x h k = (h.0, All-append P xs x h.1 k)

final_state-is_over : (late died : Bool) → is_over (final_state late died) ≡ true
final_state-is_over true died = refl
final_state-is_over false true = refl
final_state-is_over false false = refl

ended-IsOver :
    (now : ℕ) (code : Option ℤ) (died : Bool) (stop : ℕ) (c : CommandRecord)
    → IsOver (ended now code died stop c)
unfolding ended close
ended-IsOver now code died stop c = (final_state-is_over c.timed_out died, refl, refl, refl)

or_false : (b : Bool) → (b || false) ≡ true → b ≡ true
or_false true h = refl
or_false false h = h

pub or_true : (b : Bool) → (b || true) ≡ true
or_true true = refl
or_true false = refl

-- Ending what runs leaves nothing running, and all as it should be.
pub finish-IsSound :
    (now : ℕ) (code : Option ℤ) (died : Bool) (s : Shell)
    → IsSound s
    → let t = finish now code died s in IsSound t × (t.current ≡ none) × (t.state ≡ s.state)
finish-IsSound now code died s h = elim (Option-cases s.current) [
  | inl e ↦
      subst (λ t. IsSound t × (t.current ≡ none) × (t.state ≡ s.state))
        (sym (finish-none now code died s e)) (h, e, refl)
  | inr (c, e) ↦
      let (b, w, same) = finish-some now code died s c e in
      let c' = ended now code died (end_of b) (record c { log = w }) in
      let one : length (as_list s.current) ≡ 1 = rw e refl in
      let n = length-append s.past (c' ∷ []) in
      subst (λ t. IsSound t × (t.current ≡ none) × (t.state ≡ s.state)) (sym same)
        (
          (
            omega (arith, n, one, h.0),
            All-append IsOver s.past c' h.1
                (ended-IsOver now code died (end_of b) (record c { log = w })),
            tt,
            refl,
          ),
          refl,
          refl,
        )
]

Alike-IsWellFormed : (s t : Shell) → IsWellFormed s → IsSound t × Alike s t → IsWellFormed t
Alike-IsWellFormed s t h (sound, (idle, state)) = (sound, rw (idle, state) h.1)

pub idle-IsWellFormed : (t : Shell) → IsSound t → t.current ≡ none → IsWellFormed t
idle-IsWellFormed t h e = (h, rw e (or_true (is_running t.state)))

emit-IsWellFormed :
    (now : ℕ) (d : List ℕ) (s : Shell) → IsWellFormed s → IsWellFormed (emit now d s)
emit-IsWellFormed now d s h = Alike-IsWellFormed s (emit now d s) h (emit-IsSound now d s h.0)

pub finish-IsWellFormed :
    (now : ℕ) (code : Option ℤ) (died : Bool) (s : Shell)
    → IsSound s
    → IsWellFormed (finish now code died s)
finish-IsWellFormed now code died s h =
    let (sound, idle, state) = finish-IsSound now code died s h in
    idle-IsWellFormed (finish now code died s) sound idle

handle_event-IsWellFormed :
    (now : ℕ) (x : Event) (s : Shell) → IsWellFormed s → IsWellFormed (handle_event now s x)
unfolding handle_event
handle_event-IsWellFormed now (output d) s h = emit-IsWellFormed now d s h
handle_event-IsWellFormed now (framed f) s h = elim (Bool-cases (is_ours f s.current)) [
  | inl e ↦ rw (e, handle_event) (finish-IsWellFormed now (some f.exit_code) false s h.0)
  | inr e ↦ rw (e, handle_event) (emit-IsWellFormed now (raw f) s h)
]

handle-IsWellFormed :
    (now : ℕ) (es : List Event) (s : Shell) → IsWellFormed s → IsWellFormed (handle now es s)
unfolding handle
handle-IsWellFormed now [] s h = h
handle-IsWellFormed now (x ∷ es) s h =
    handle-IsWellFormed now es (handle_event now s x) (handle_event-IsWellFormed now x s h)

-- A chunk that is read gives a state, and keeps it well formed.
pub read_chunk-IsWellFormed :
    (now : ℕ) (chunk : List ℕ) (s : Shell)
    → IsWellFormed s
    → (t : Shell) × (read_chunk now chunk s ≡ some t) × IsWellFormed t
unfolding read_chunk
read_chunk-IsWellFormed now chunk s h =
    let (es, rest, e, reads) = feed-Reads s.parser chunk in
    let from = record s { parser = rest } in
    (handle now es from, rw (e, read_chunk) refl, handle-IsWellFormed now es from h)

pub end_of_stream-IsWellFormed :
    (now : ℕ) (status : ℤ) (s : Shell) → IsWellFormed s → IsWellFormed (end_of_stream now status s)
unfolding end_of_stream on_exit
end_of_stream-IsWellFormed now status s h =
    let t = emit now (Framing.flush s.parser).0 (record s { parser = [] }) in
    let k = emit-IsWellFormed now (Framing.flush s.parser).0 (record s { parser = [] }) h in
    let (sound, idle, state) = finish-IsSound now (code_of status) true t k.0 in
    idle-IsWellFormed (on_exit now status t) sound idle
