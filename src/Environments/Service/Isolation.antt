-- ===== src/Environments/Service/Isolation.antt =====
-- Isolation between accounts (app/environments/service.py): what no call of another account changes.
use environments_api.Common.{String, ◌≡◌, refl, ◌∙◌, some, [], ◌∷◌}
use environments_api.Environments.Records.{EnvironmentRecord}
use environments_api.Environments.Service.{Caller, Service, find_record}
use environments_api.Environments.Service.Frame.{IsWellFormed}
use environments_api.Environments.Service.Frame.Calls.{
  Confined, Untouched, create-Confined, open_shell-Confined, close_shell-Confined,
}
use environments_api.Environments.Service.Frame.Commands.{
  exec-Confined, signal_shell-Confined, write_stdin-Confined,
}
use environments_api.Environments.Service.Frame.Removal.{
  delete-Confined, reset-Confined, note_file_action-Confined, admit_write-Confined, usage-Confined,
}
use environments_api.Environments.Service.Operations.{
  ShellPort, Call, serve, DrawsFresh, serve_all, AllFresh, NotBy, creates, deletes, resets, opens,
  closes, runs, signals, feeds, writes, notes, measures, Calls,
}

serve-Confined :
    (port : ShellPort) (s : Service) (caller : Caller) (call : Call)
    → IsWellFormed s
    → DrawsFresh s call
    → Confined caller s (serve port s caller call)
unfolding serve
serve-Confined port s caller (creates now tier fresh c) w d =
    create-Confined s caller now tier fresh c d
serve-Confined port s caller (deletes now id) w d =
    delete-Confined port.ended s caller now id port.ended_keeps w
serve-Confined port s caller (resets now id) w d =
    reset-Confined port.ended s caller now id port.ended_keeps w
serve-Confined port s caller (opens host now fresh id o) w d =
    open_shell-Confined s caller now host fresh id o d
serve-Confined port s caller (closes now id) w d =
    close_shell-Confined s caller now port.ended id port.ended_keeps w
serve-Confined port s caller (runs now id) w d =
    exec-Confined port.run port.run_keeps s caller now w id
serve-Confined port s caller (signals now id) w d =
    signal_shell-Confined port.signalled port.signalled_keeps s caller now w id
serve-Confined port s caller (feeds now id) w d =
    write_stdin-Confined port.fed port.fed_keeps s caller now w id
serve-Confined port s caller (writes id growth body) w d =
    admit_write-Confined s caller id growth body
serve-Confined port s caller (notes now id action) w d =
    note_file_action-Confined s caller now id action
serve-Confined port s caller (measures count workspace_bytes logs_bytes id) w d =
    usage-Confined s caller count workspace_bytes logs_bytes id

-- Whatever calls other accounts make, in any order, whatever the objects of the shells do in each, an
-- account's environment keeps its record in memory and on disk, its shells and its measured usage, as
-- long as drawn ids are not in use and no id stands twice in a dict at first. The calls are create, delete, reset, open_shell, close_shell, exec,
-- signal_shell, write_stdin, admit_write, note_file_action and usage.
pub isolation :
    (s : Service) (calls : Calls) (j : String) (r : EnvironmentRecord)
    → IsWellFormed s
    → AllFresh s calls
    → find_record j s.records ≡ some r
    → NotBy r.account_id calls
    → Untouched j s (serve_all s calls)
unfolding serve_all
isolation s [] j r w d e n = record { records = refl; shells = refl; usage = refl; saved = refl }
isolation s ((caller, port, call) ∷ calls) j r w d e n =
    let step = serve-Confined port s caller call w d.0 in
    let here = step.others j r e n.0 in
    let rest =
      isolation (serve port s caller call) calls j r (step.well_formed w) d.1 (here.records ∙ e)
        n.1 in
    record {
      records = rest.records ∙ here.records;
      shells = rest.shells ∙ here.shells;
      usage = rest.usage ∙ here.usage;
      saved = rest.saved ∙ here.saved;
    }
