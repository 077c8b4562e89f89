-- ===== src/Commands/Edit.antt =====
-- `_cmd_edit` (src/queuer/daemon.py): what to change is worked out first, and `edit_job` writes it.
use custom_queuer.Prelude.{
  Bool, List, Option, [], false, if◌then◌else◌, is_nil, is_some, none, not, some, ℕ, ◌++◌, ◌∷◌,
}
use custom_queuer.Tables.{Exec, Mode, get_tables, guard, lift, nothing_to_change, pure, ◌>>=◌, ◌>>◌}
use custom_queuer.Deps.{Verdict, dep_info, dep_verdict}
use custom_queuer.EditLock.{World}
use custom_queuer.EditJob.{edit_job}
use custom_queuer.Daemon.{Config, skip_blocked}
use custom_queuer.Args.{Json, check_pid, id_argument}
use custom_queuer.Commands.Plan.{System}
use custom_queuer.Commands.Add.{blocker}
use custom_queuer.Commands.Simple.{editable}
use custom_queuer.Commands.EditPlan.{Change, Edit, EditArgs, channel_changed, deps_changed}
use custom_queuer.Commands.EditDeps.{edit_channel, edit_columns, edit_deps}

abbrev changes : Edit → Option (List (ℕ × Mode)) → Option ℕ → List Change
changes edit deps channel =
    edit.changed
    ++ (if is_some deps then deps_changed ∷ [] else [])
    ++ (if is_some channel then channel_changed ∷ [] else [])

abbrev skip_edited : Config → ℕ → ℕ → Verdict → Option ℕ → Exec (Unit {0})
skip_edited config now job_id verdict none = pure tt
skip_edited config now job_id verdict (some dep_id) = do
  _ ← skip_blocked config now job_id verdict dep_id
  pure tt

-- A dependency that has already ended badly.
abbrev pub settle_edited : Config → ℕ → ℕ → Option (List (ℕ × Mode)) → Exec (Unit {0})
settle_edited config now job_id none = pure tt
settle_edited config now job_id (some deps) = do
  db ← get_tables
  let verdict = dep_verdict db job_id
  skip_edited config now job_id verdict (blocker verdict)

module _ (system : System) (config : Config) (job_starting_now : ℕ → Bool) where
  unfoldable pub cmd_edit : World → (id pid_value : Json) → EditArgs → Exec (List Change)
  unfolding id_argument check_pid editable edit_columns dep_info edit_deps edit_channel edit_job
      dep_verdict skip_blocked
  cmd_edit w id pid_value args = do
    job_id ← lift (id_argument id)
    pid ← lift (check_pid false pid_value)
    db ← get_tables
    job ← lift (editable job_starting_now db job_id)
    edit ← lift (edit_columns system job args)
    deps ← lift (edit_deps (dep_info db job_id) args)
    channel ← lift (edit_channel job args.channel)
    guard (not (is_nil (changes edit deps channel))) nothing_to_change
    _ ← edit_job system.python w job_id edit.updates deps channel pid
    settle_edited config w.now job_id deps
    pure (changes edit deps channel)
