-- ===== src/Shells/Shell/Runs.antt =====
-- Runs of a shell (app/shells/shell.py): the critical sections in any order, and what holds throughout.
use environments_api.Common.{
  ℕ, zero, suc, ◌+◌, ◌-◌, String, ◌≡◌, refl, sym, inl, inr, Bool, true, false, ◌||◌, Option, none,
  some, List, [], ◌∷◌, ◌++◌, arith, Bool-cases, Option-cases, length, drop, length-drop,
}
use mathlib.Core.Path.{subst}
use environments_api.Common.{All}
use environments_api.Common.Int.{ℤ}
use environments_api.Common.Result.{Result, ok, err, ◌>>◌, guard, Result-cases}
use environments_api.Environments.Records.{is_running, dead}
use environments_api.Shells.Shell.{
  Shell, CommandRecord, read_chunk, end_of_stream, history_limit, Sent, input, marked,
}
use environments_api.Shells.Shell.Commands.{
  ExecRequest, PipeRound, write_rounds, exec, on_timeout, escalate_timeout, write_stdin, Target,
  stdin, tty, signal, begin_close, kill_after_grace, mark_dead, as_list, is_idle, may_exec, started,
  new_command, after_input, mark_late, send_input, is_current, exec_sent, exec_checked,
}
use environments_api.Common.Error.{Error}
use environments_api.Shells.Redact.{encode}
use environments_api.Shells.Log.{open_log}
use environments_api.Shells.Script.{exec_script}
use environments_api.Shells.Shell.Commands.{inject}
use environments_api.Shells.Shell.Sound.{
  RunsOpen, IsOver, IsSound, IsWellFormed, or_true, finish-IsWellFormed, read_chunk-IsWellFormed,
  end_of_stream-IsWellFormed,
}

-- A critical section of some thread.
pub data Step : Shell → Shell → Type 0 where
  reads : {s t : Shell} (now : ℕ) (chunk : List ℕ) → read_chunk now chunk s ≡ some t → Step s t
  ends : {s : Shell} (now : ℕ) (status : ℤ) → Step s (end_of_stream now status s)
  execs : {s : Shell} (now : ℕ) (c : ExecRequest) → Step s (exec now c s).1
  times_out : {s : Shell} (id : String) → Step s (on_timeout id s)
  escalates : {s : Shell} (id : String) → Step s (escalate_timeout id s)
  writes :
      {s : Shell} (now : ℕ) (target : Target) (d : List ℕ) (rounds : List PipeRound)
      → Step s (write_stdin now target d rounds s).1
  signals : {s : Shell} (sig count : ℕ) → Step s (signal sig count s).1
  closes : {s : Shell} → Step s (begin_close s)
  kills : {s : Shell} → Step s (kill_after_grace s)
  marks : {s : Shell} (now : ℕ) (reason : String) → Step s (mark_dead now reason s)

pub data Run : Shell → Shell → Type 0 where
  done : {s : Shell} → Run s s
  step : {s t u : Shell} → Step s t → Run t u → Run s u

drop-All :
    (P : CommandRecord → Type 0) (n : ℕ) (xs : List CommandRecord) → All P xs → All P (drop n xs)
drop-All P zero xs h = h
drop-All P (suc n) [] h = tt
drop-All P (suc n) (x ∷ xs) h = drop-All P n xs h.1

started-IsSound : (now : ℕ) (c : ExecRequest) (s : Shell) → IsSound s → IsSound (started now c s)
unfolding started new_command open_log
started-IsSound now c s h =
    let n = length-drop (length s.past + 1 - history_limit) s.past in
    (omega (arith, n), drop-All IsOver _ s.past h.1, (refl, refl, refl), or_true _)

-- Input changes what was sent alone.
send_input_lem :
    (d : List ℕ) (rounds : List PipeRound) (s : Shell)
    → (l : List Sent) × ((send_input d rounds s).1 ≡ record s { sent = l })
unfolding send_input
send_input_lem d rounds s = elim (Bool-cases s.stdin_open) [
  | inl e ↦ (s.sent ++ (input (write_rounds d rounds).0 ∷ []), rw e refl)
  | inr e ↦ (s.sent, rw e refl)
]

started-runs :
    (now : ℕ) (c : ExecRequest) (s : Shell)
    → is_running s.state ≡ true
    → (is_running s.state || false) ≡ true
started-runs now c s e = rw e refl

exec_sent-IsWellFormed :
    (now : ℕ) (c : ExecRequest) (p : Result (Unit {0}) × Shell)
    → IsWellFormed p.1
    → IsWellFormed (exec_sent now c p).1
unfolding exec_sent
exec_sent-IsWellFormed now c (err e, s) h = finish-IsWellFormed now none true s h.0
exec_sent-IsWellFormed now c (ok passed, s) h = elim (Option-cases c.timeout_ms) [
  | inl e ↦ rw e h
  | inr (ms, e) ↦ rw e h
]

second_guard :
    (a b c : Bool) (x y z : Error) {u : Unit {0}}
    → (guard a x >> guard b y >> guard c z) ≡ ok u
    → b ≡ true
second_guard a true c x y z e = refl
second_guard true false c x y z e = absurd cc
second_guard false false c x y z e = absurd cc

may_exec-is_running :
    (c : ExecRequest) (s : Shell) {u : Unit {0}} → may_exec c s ≡ ok u → is_running s.state ≡ true
unfolding may_exec
may_exec-is_running c s e = second_guard _ (is_running s.state) _ _ _ _ e

exec-IsWellFormed :
    (now : ℕ) (c : ExecRequest) (s : Shell) → IsWellFormed s → IsWellFormed (exec now c s).1
unfolding exec exec_checked
exec-IsWellFormed now c s h = elim (Result-cases (may_exec c s)) [
  | inr (why, e) ↦ rw e h
  | inl (passed, e) ↦
      let env = (inject c.credentials ([], [])).0 in
      let script = encode (exec_script c.command c.nonce env) in
      let from = started now c s in
      let sound = started-IsSound now c s h.0 in
      let (l, same) = send_input_lem script c.rounds from in
      let k : IsWellFormed (record from { sent = l }) =
        (sound, started-runs now c s (may_exec-is_running c s e)) in
      rw e (
        exec_sent-IsWellFormed now c (send_input script c.rounds from)
          (subst IsWellFormed (sym same) k))
]

mark_late_lem :
    (o : Option CommandRecord)
    → (length (as_list (mark_late o)) ≡ length (as_list o))
      × (is_idle (mark_late o) ≡ is_idle o)
      × (RunsOpen o → RunsOpen (mark_late o))
mark_late_lem none = (refl, refl, λ h. h)
mark_late_lem (some c) = (refl, refl, λ h. h)

on_timeout-IsWellFormed :
    (id : String) (s : Shell) → IsWellFormed s → IsWellFormed (on_timeout id s)
unfolding on_timeout
on_timeout-IsWellFormed id s h = elim (Bool-cases (is_current id s.current)) [
  | inr e ↦ rw e h
  | inl e ↦
      let (n, idle, opens) = mark_late_lem s.current in
      let k : IsWellFormed (record s { current = mark_late s.current }) =
        ((omega (arith, n, h.0.0), h.0.1, opens h.0.2, rw idle h.0.3), rw idle h.1) in
      rw e k
]

after_input-IsWellFormed :
    (now : ℕ) (d : List ℕ) (p : Result (Unit {0}) × Shell)
    → IsWellFormed p.1
    → IsWellFormed (after_input now d p).1
unfolding after_input
after_input-IsWellFormed now d (err e, s) h = h
after_input-IsWellFormed now d (ok passed, s) h = h

write_stdin-IsWellFormed :
    (now : ℕ) (target : Target) (d : List ℕ) (rounds : List PipeRound) (s : Shell)
    → IsWellFormed s
    → IsWellFormed (write_stdin now target d rounds s).1
unfolding write_stdin
write_stdin-IsWellFormed now stdin d rounds s h = elim (Bool-cases (is_running s.state)) [
  | inl e ↦
      let (l, same) = send_input_lem d rounds s in
      rw e
        (after_input-IsWellFormed now d (send_input d rounds s) (subst IsWellFormed (sym same) h))
  | inr e ↦ rw e h
]
write_stdin-IsWellFormed now (tty n) d rounds s h = elim (Bool-cases (is_running s.state)) [
  | inl e ↦ elim (Bool-cases s.has_tty) [ inl f ↦ rw (e, f) h | inr f ↦ rw (e, f) h ]
  | inr e ↦ rw e h
]

-- Every critical section keeps a shell well formed.
pub Step-IsWellFormed : {s t : Shell} → Step s t → IsWellFormed s → IsWellFormed t
unfolding escalate_timeout signal begin_close kill_after_grace mark_dead
Step-IsWellFormed {s} {t} (reads now chunk e) h =
    let (t', e', k) = read_chunk-IsWellFormed now chunk s h in
    let same : t' ≡ t = cc in subst IsWellFormed same k
Step-IsWellFormed {s} (ends now status) h = end_of_stream-IsWellFormed now status s h
Step-IsWellFormed {s} (execs now c) h = exec-IsWellFormed now c s h
Step-IsWellFormed {s} (times_out id) h = on_timeout-IsWellFormed id s h
Step-IsWellFormed {s} (escalates id) h = elim (Bool-cases (is_current id s.current)) [
  | inl e ↦ rw e h
  | inr e ↦ rw e h
]
Step-IsWellFormed {s} (writes now target d rounds) h =
    write_stdin-IsWellFormed now target d rounds s h
Step-IsWellFormed {s} (signals sig count) h = elim (Bool-cases (is_running s.state)) [
  | inl e ↦ rw e h
  | inr e ↦ rw e h
]
Step-IsWellFormed {s} closes h = elim (Bool-cases (is_running s.state)) [
  | inl e ↦ rw e h
  | inr e ↦ rw e h
]
Step-IsWellFormed {s} kills h = elim (Bool-cases (is_running s.state)) [
  | inl e ↦ rw e h
  | inr e ↦ rw e h
]
Step-IsWellFormed {s} (marks now reason) h =
    finish-IsWellFormed now none true
      (record s { state = dead; dead_reason = some (marked reason) }) h.0

-- Whatever sequence of reads, commands, timeouts, inputs, signals, closes and exits a well-formed
-- shell goes through, it is well formed: its history, with the running command, holds at most 200;
-- every command in it is over, its log is closed and its record agrees with the log; a command that
-- runs has an open log and no exit code; secrets are held back only while a command runs; and
-- nothing runs in a shell that is closed or dead.
pub Run-IsWellFormed : {s t : Shell} → Run s t → IsWellFormed s → IsWellFormed t
Run-IsWellFormed done h = h
Run-IsWellFormed (step one more) h = Run-IsWellFormed more (Step-IsWellFormed one h)
