-- ===== src/History/Limit.antt =====
-- What `get_history` (src/queuer/db.py) returns.
use mathlib.Core.List.{append-nil, append_assoc}
use custom_queuer.Prelude.{
  Bool, Bool-cases, List, [], arith, inl, inr, leb, length, refl, select, suc, sym, take, true,
  zero, ℕ, ◌++◌, ◌-◌, ◌<◌, ◌∷◌, ◌≡◌, ◌≤◌,
}
use custom_queuer.Tables.{Db, Job, Text, ok}
use custom_queuer.Backlog.{newest_first}
use custom_queuer.History.{
  HistoryFilter, all_names, get_history, grep_matches, history_loop, history_row, is_terminal_name,
}

length-append_one : (out : List Job) (j : Job) → length (out ++ j ∷ []) ≡ suc (length out)
length-append_one [] j = refl
length-append_one (x ∷ out) j = omega (arith, length-append_one out j)

take-nil : (n : ℕ) → take {A = Job} n [] ≡ []
take-nil zero = refl
take-nil (suc n) = refl

history_loop-take :
    (matches : Job → Bool) (limit : ℕ) (js out : List Job)
    → length out < limit
    → history_loop matches limit js out ≡ out ++ take (limit - length out) (select matches js)
unfolding history_loop select
history_loop-take matches limit [] out below = rw take-nil (sym (append-nil out))
history_loop-take matches limit (j ∷ js) out below = elim (Bool-cases (matches j)) [
  | inl hit ↦ elim (Bool-cases (leb limit (length (out ++ j ∷ [])))) [
    | inl full ↦
        let one : limit - length out ≡ 1 = ground (arith, length-append_one out j) in
        rw (hit, full, one) refl
    | inr room ↦
        let more : limit - length out ≡ suc (limit - length (out ++ j ∷ [])) =
          ground (arith, length-append_one out j) in
        rw (hit, room, more, history_loop-take matches limit js (out ++ j ∷ []) (ground arith))
          (append_assoc out (j ∷ []) _)
  ]
  | inr miss ↦ rw miss (history_loop-take matches limit js out below)
]

-- The newest finished jobs that pass every filter, at most `limit` of them.
pub get_history-take :
    (lower : Text → Text) (db : Db) (f : HistoryFilter)
    → all_names is_terminal_name f.statuses ≡ true
    → 1 ≤ f.limit
    → get_history lower db f
      ≡ ok (
          take f.limit
            (select (grep_matches lower f.grep) (newest_first (select (history_row f) db.jobs))))
unfolding get_history
get_history-take lower db f known some_rows =
    let all =
      history_loop-take (grep_matches lower f.grep) f.limit
        (newest_first (select (history_row f) db.jobs)) [] some_rows in
    ground arith
