-- ===== src/Shells/Shell/Exits.antt =====
-- How a command's exit code comes back (app/shells/shell.py): the frame with the command's nonce
-- ends it, and no other output does.
use environments_api.Common.{
  ℕ, ◌≡◌, refl, sym, ap, ◌∙◌, true, false, none, some, List, [], ◌∷◌, ◌++◌, if◌then◌else◌,
}
use mathlib.Core.Path.{subst}
use environments_api.Common.Int.{ℤ}
use environments_api.Environments.Records.{exited, timed_out}
use environments_api.Shells.Buffer.{end_of}
use environments_api.Shells.Framing.{Frame, Event, output, framed}
use environments_api.Shells.Framing.Raw.{raw}
use environments_api.Shells.Log.{LogWriter}
use environments_api.Shells.Shell.{
  Shell, CommandRecord, emit, finish, ended, handle_event, handle, bytes_eq, is_ours,
}
use environments_api.Shells.Shell.Output.{Logged, emit_lem, finish-some}

-- None of the events is a frame with this nonce.
abbrev pub NotOurs : List ℕ → List Event → Type 0
NotOurs nonce [] = Unit
NotOurs nonce (output d ∷ es) = NotOurs nonce es
NotOurs nonce (framed f ∷ es) = (bytes_eq f.nonce nonce ≡ false) × NotOurs nonce es

-- The command still runs, with its log alone changed, and the history is as it was.
abbrev pub StillRuns : CommandRecord → Shell → Shell → Type 0
StillRuns c s s' =
    ((w : LogWriter) × (s'.current ≡ some (record c { log = w })))
    × (s'.past ≡ s.past)
    × (s'.state ≡ s.state)

emit-StillRuns :
    (now : ℕ) (d : List ℕ) (s : Shell) (c : CommandRecord)
    → s.current ≡ some c
    → StillRuns c s (emit now d s)
emit-StillRuns now d s c e =
    let (v, same, logged, held) = emit_lem now d s in
    let lg : Logged (some c) v.current = subst (λ o. Logged o v.current) e logged in
    subst (StillRuns c s) (sym same) ((lg.0, lg.1), refl, refl)

handle_event-StillRuns :
    (now : ℕ) (x : Event) (s : Shell) (c : CommandRecord)
    → s.current ≡ some c
    → NotOurs c.nonce (x ∷ [])
    → StillRuns c s (handle_event now s x)
unfolding handle_event
handle_event-StillRuns now (output d) s c e h = emit-StillRuns now d s c e
handle_event-StillRuns now (framed f) s c e h =
    let k : is_ours f s.current ≡ false = rw e h.0 in rw k (emit-StillRuns now (raw f) s c e)

NotOurs-cons :
    (nonce : List ℕ) (x : Event) (es : List Event)
    → NotOurs nonce (x ∷ es)
    → NotOurs nonce (x ∷ []) × NotOurs nonce es
NotOurs-cons nonce (output d) es h = (tt, h)
NotOurs-cons nonce (framed f) es h = ((h.0, tt), h.1)

-- While no frame with the running command's nonce arrives, whatever else the output holds, markers
-- of other nonces among it, the command runs on: its record changes in nothing but its log, and no
-- finished command is added.
pub handle-StillRuns :
    (now : ℕ) (es : List Event) (s : Shell) (c : CommandRecord)
    → s.current ≡ some c
    → NotOurs c.nonce es
    → StillRuns c s (handle now es s)
unfolding handle
handle-StillRuns now [] s c e h = ((c.log, e), refl, refl)
handle-StillRuns now (x ∷ es) s c e h =
    let k = NotOurs-cons c.nonce x es h in
    let (run, past, state) = handle_event-StillRuns now x s c e k.0 in
    let (run', past', state') =
      handle-StillRuns now es (handle_event now s x) (record c { log = run.0 }) run.1 k.1 in
    (run', past' ∙ past, state' ∙ state)

-- Nothing runs, and the history is as it was.
abbrev StaysIdle : Shell → Shell → Type 0
StaysIdle s s' = (s'.current ≡ none) × (s'.past ≡ s.past)

emit-StaysIdle : (now : ℕ) (d : List ℕ) (s : Shell) → s.current ≡ none → StaysIdle s (emit now d s)
emit-StaysIdle now d s e =
    let (v, same, logged, held) = emit_lem now d s in
    let lg : Logged none v.current = subst (λ o. Logged o v.current) e logged in
    subst (StaysIdle s) (sym same) (lg, refl)

handle_event-StaysIdle :
    (now : ℕ) (x : Event) (s : Shell) → s.current ≡ none → StaysIdle s (handle_event now s x)
unfolding handle_event
handle_event-StaysIdle now (output d) s e = emit-StaysIdle now d s e
handle_event-StaysIdle now (framed f) s e =
    let k : is_ours f s.current ≡ false = rw e refl in rw k (emit-StaysIdle now (raw f) s e)

handle-StaysIdle :
    (now : ℕ) (es : List Event) (s : Shell) → s.current ≡ none → StaysIdle s (handle now es s)
unfolding handle
handle-StaysIdle now [] s e = (e, refl)
handle-StaysIdle now (x ∷ es) s e =
    let step = handle_event-StaysIdle now x s e in
    let rest = handle-StaysIdle now es (handle_event now s x) step.0 in (rest.0, rest.1 ∙ step.1)

handle-append :
    (now : ℕ) (es fs : List Event) (s : Shell)
    → handle now (es ++ fs) s ≡ handle now fs (handle now es s)
unfolding handle
handle-append now [] fs s = refl
handle-append now (x ∷ es) fs s = handle-append now es fs (handle_event now s x)

-- The history has one command more: this one, with the code, and as it ended.
abbrev pub EndsWith : CommandRecord → ℤ → Shell → Shell → Type 0
EndsWith c code s s' =
    (c' : CommandRecord) × (s'.past ≡ s.past ++ (c' ∷ []))
    × (c'.id ≡ c.id)
    × (c'.exit_code ≡ some code)
    × (c'.state ≡ (if c.timed_out then timed_out else exited))
    × (s'.current ≡ none)

frame-EndsWith :
    (now : ℕ) (f : Frame) (rest : List Event) (s : Shell) (c : CommandRecord)
    → s.current ≡ some c
    → bytes_eq f.nonce c.nonce ≡ true
    → EndsWith c f.exit_code s (handle now (framed f ∷ rest) s)
unfolding handle handle_event ended
frame-EndsWith now f rest s c e ours =
    let k : is_ours f s.current ≡ true = rw e ours in
    let (b, w, same) = finish-some now (some f.exit_code) false s c e in
    let done = finish now (some f.exit_code) false s in
    let idle = handle-StaysIdle now rest done (ap (λ t. t.current) same) in
    let c' = ended now (some f.exit_code) false (end_of b) (record c { log = w }) in
    let hit : handle_event now s (framed f) ≡ done = rw (k, handle_event) refl in
    subst (EndsWith c f.exit_code s) (ap (handle now rest) (sym hit))
      (c', idle.1 ∙ ap (λ t. t.past) same, refl, refl, refl, idle.0)

-- The first frame with the running command's nonce, whatever other output and markers come before
-- it and after it in the same batch, ends that command with the exit code in the frame, as timed
-- out if its timeout had fired and as exited if not; it joins the history and the shell is idle.
pub handle-EndsWith :
    (now : ℕ) (es rest : List Event) (f : Frame) (s : Shell) (c : CommandRecord)
    → s.current ≡ some c
    → NotOurs c.nonce es
    → bytes_eq f.nonce c.nonce ≡ true
    → EndsWith c f.exit_code s (handle now (es ++ (framed f ∷ rest)) s)
handle-EndsWith now es rest f s c e h ours =
    let ((w, run), past, state) = handle-StillRuns now es s c e h in
    let (c', more, id, code, state', idle) =
      frame-EndsWith now f rest (handle now es s) (record c { log = w }) run ours in
    rw (handle-append now es (framed f ∷ rest) s)
      (c', more ∙ ap (λ l. l ++ (c' ∷ [])) past, id, code, state', idle)
