-- ===== src/Commands/Reads.antt =====
-- The handlers of src/queuer/daemon.py that only read: `_cmd_states`, `_cmd_status`,
-- `_cmd_channel_status`, `_cmd_show`, `_cmd_history`, `_cmd_list`.
use custom_queuer.Prelude.{
  Bool, List, Option, [], elem, exists, find, if◌then◌else◌, length, ltb, map, none, not, select,
  some, true, ℕ, ◌==◌, ◌∷◌,
}
use custom_queuer.Tables.{
  Db, Job, Result, bad_arg, channel_arg, ids_arg, missing_arg, ok, raise, too_many,
}
use custom_queuer.Lifecycle.{get_paused, get_running, get_stopped}
use custom_queuer.History.{Counts, StateRow, get_channel_counts, get_states}
use custom_queuer.Daemon.{list_channels}
use custom_queuer.Args.{Json, id_list, int_arg, max_sweep, positive_int, ◌>>=◌}

-- list(dict.fromkeys(ids)): the first of each id.
unfoldable pub unique_ids : List ℕ → List ℕ → List ℕ
unfolding elem
unique_ids seen [] = []
unique_ids seen (i ∷ is_) =
    if elem i seen then unique_ids seen is_ else i ∷ unique_ids (i ∷ seen) is_

pub record States : Type 0 where
  pub jobs : List StateRow
  pub missing : List ℕ

abbrev has_state : List StateRow → ℕ → Bool
has_state rows job_id = exists (λ r. r.id == job_id) rows

abbrev with_row : Option StateRow → List StateRow → List StateRow
with_row none rest = rest
with_row (some r) rest = r ∷ rest

-- `found[i]`
unfoldable pub rows_in_order : List StateRow → List ℕ → List StateRow
unfolding find
rows_in_order rows [] = []
rows_in_order rows (i ∷ is_) =
    let rest = rows_in_order rows is_ in with_row (find (λ r. r.id == i) rows) rest

abbrev asked_ids : Option (List ℕ) → Result (List ℕ)
asked_ids none = raise (bad_arg ids_arg)
asked_ids (some []) = raise (bad_arg ids_arg)
asked_ids (some (i ∷ is_)) =
    if ltb max_sweep (length (i ∷ is_)) then raise (too_many ids_arg) else ok (i ∷ is_)

unfoldable pub cmd_states : Db → Json → Result States
unfolding unique_ids rows_in_order get_states exists select
cmd_states db value = asked_ids (id_list value) >>= λ ids.
    let unique = unique_ids [] ids in
    let found = get_states db unique in
    ok (record {
      jobs = rows_in_order found unique;
      missing = select (λ i. not (has_state found i)) unique;
    })

-- The values of one channel in the reply to `status`.
pub record ChannelStatus : Type 0 where
  pub channel : ℕ
  pub running_job : Option Job
  pub frozen_job : Option Job
  pub paused : Bool

unfoldable pub cmd_status : Db → List ChannelStatus
unfolding list_channels get_running get_stopped get_paused
cmd_status db =
    map
      (λ channel. record {
        channel = channel;
        running_job = get_running db channel;
        frozen_job = get_stopped db channel;
        paused = get_paused db channel;
      })
      (list_channels db)

abbrev positive_channel : Option ℕ → Result ℕ
positive_channel none = raise (missing_arg channel_arg)
positive_channel (some channel) = ok channel

unfoldable pub cmd_channel_status : Db → Json → Result (ℕ × Bool × Counts)
unfolding int_arg get_paused get_channel_counts
cmd_channel_status db value = int_arg channel_arg true true value >>= λ n.
    positive_channel (positive_int n) >>= λ channel.
    ok (channel, get_paused db channel, get_channel_counts db channel)
