-- ===== src/Lane/Alone.antt =====
-- The invariant of the two lanes of a channel (src/queuer/daemon.py), and the steps of the normal
-- worker.
use custom_queuer.Prelude.{
  All, Bool, Bool-cases, List, Option, [], arith, elem, false, inl, inr, none, not, refl,
  select-passes, some, some-injective, subst, sym, true, ℕ, ≡→==, ◌||◌, ◌∷◌, ◌≡◌, ◌⊎◌,
}
use custom_queuer.Tables.{Conn, Db, Job, Status, get_job, in_lane, ok, stopped}
use custom_queuer.Queue.{
  first, get_queue, get_queue_head, insert_by_position, lane_rows, position_leb, sort_by_position,
}
use custom_queuer.EditLock.{World}
use custom_queuer.Worker.{Slot, lane_busy, run_job, worker_step}
use custom_queuer.Worker.Fifo.{worker_step-MayRun}
use custom_queuer.Lane.{cancel_frozen, cancel_job, release_lane, slot_of, stop_lane}
use custom_queuer.Lane.Steps.{
  KeepsRow, State, Task, Writes, absent, job_of_task, looking, running_job, starting,
}
use custom_queuer.Lane.Rows.{row_state}

All-insert_by_position :
    (P : Job → Type 0) (j : Job) (ks : List Job) → P j → All P ks → All P (insert_by_position j ks)
unfolding insert_by_position
All-insert_by_position P j [] h hs = (h, tt)
All-insert_by_position P j (k ∷ ks) h hs = elim (Bool-cases (position_leb j.position k.position)) [
  | inl t ↦ rw t (h, hs)
  | inr f ↦ rw f (hs.0, All-insert_by_position P j ks h hs.1)
]

All-sort_by_position : (P : Job → Type 0) (js : List Job) → All P js → All P (sort_by_position js)
unfolding sort_by_position
All-sort_by_position P [] h = tt
All-sort_by_position P (j ∷ js) h =
    All-insert_by_position P j (sort_by_position js) h.0 (All-sort_by_position P js h.1)

All-first : (P : Job → Type 0) (js : List Job) (j : Job) → All P js → first js ≡ some j → P j
All-first P [] j h e = absurd (cc)
All-first P (k ∷ ks) j h e = subst P (some-injective _ _ e) h.0

-- The head of a lane is a job of that lane.
pub get_queue_head-in_lane :
    (db : Db) (channel : ℕ) (lane : Bool) (j : Job)
    → get_queue_head db channel lane ≡ some j
    → in_lane channel lane j ≡ true
unfolding get_queue_head get_queue lane_rows
get_queue_head-in_lane db channel lane j e =
    All-first (λ k. in_lane channel lane k ≡ true) _ j
      (All-sort_by_position _ (lane_rows db channel lane)
        (select-passes (in_lane channel lane) db.jobs))
      e

abbrev pub is_absent : Task → Bool
is_absent absent = true
is_absent _ = false

abbrev pub IsLane : Bool → Option (Bool × Status) → Type 0
IsLane lane none = ⊥
IsLane lane (some (b, status)) = b ≡ lane

abbrev pub RowIs : Conn → Bool → Option ℕ → Type 0
RowIs c lane none = Unit {0}
RowIs c lane (some job_id) = IsLane lane (row_state (get_job c.tables job_id))

-- A process that has ended, or that is being killed: its job was cancelled, or the daemon stops.
abbrev pub IsOver : State → ℕ → ℕ → Type 0
IsOver s job_id proc = (elem proc s.dead || elem job_id s.lane.cancelled || s.lane.stopping) ≡ true

abbrev pub IsForeground : State → ℕ → ℕ → Type 0
IsForeground s job_id proc =
    (is_absent s.priority ≡ true)
    × ((s.lane.stopping ≡ true)
        ⊎ ((s.lane.current_job ≡ some job_id) × (s.lane.current_proc ≡ some proc)))

abbrev pub IsFrozen : State → ℕ → ℕ → Type 0
IsFrozen s job_id proc =
    (s.lane.frozen ≡ some (job_id, proc))
    × (elem proc s.lane.halted ≡ true)
    × (row_state (get_job s.conn.tables job_id) ≡ some (false, stopped))

abbrev pub NormalIs : State → Task → Type 0
NormalIs s absent = Unit {0}
NormalIs s looking = Unit {0}
NormalIs s (starting job_id) = (is_absent s.priority ≡ true)
NormalIs s (running_job job_id proc) =
    IsOver s job_id proc ⊎ IsForeground s job_id proc ⊎ IsFrozen s job_id proc

pub record Inv (s : State) : Type 0 where
  pub normal_is : NormalIs s s.normal
  pub normal_row : RowIs s.conn false (job_of_task s.normal)
  pub priority_row : RowIs s.conn true (job_of_task s.priority)
  pub flag : s.lane.priority_task ≡ not (is_absent s.priority)
  pub free : is_absent s.priority ≡ true → (s.lane.stopping ≡ true) ⊎ (s.lane.frozen ≡ none)

pub RowIs-KeepsRow :
    (c c' : Conn) (lane : Bool) (o : Option ℕ) → KeepsRow c c' o → RowIs c lane o → RowIs c' lane o
RowIs-KeepsRow c c' lane none k h = tt
RowIs-KeepsRow c c' lane (some job_id) k h = subst (IsLane lane) (sym k) h

pub stops-Inv : (s : State) → Inv s → Inv (record s { lane = stop_lane s.lane })
unfolding stop_lane
stops-Inv s h = record {
  normal_is = go s.normal h.normal_is;
  normal_row = h.normal_row;
  priority_row = h.priority_row;
  flag = h.flag;
  free = λ a. inl refl;
}
  where
    go : (t : Task) → NormalIs s t → NormalIs (record s { lane = stop_lane s.lane }) t
    go absent k = tt
    go looking k = tt
    go (starting job_id) k = k
    go (running_job job_id proc) k = ground arith

-- A step of the normal task, or of the tables alone: the lane and the other task stay.
module _ (s : State) where
  pub Writes-Inv : (c : Conn) → Writes s c → Inv s → Inv (record s { conn = c })
  Writes-Inv c w h = record {
    normal_is = go s.normal w.normal_row h.normal_is;
    normal_row = RowIs-KeepsRow s.conn c false _ w.normal_row h.normal_row;
    priority_row = RowIs-KeepsRow s.conn c true _ w.priority_row h.priority_row;
    flag = h.flag;
    free = h.free;
  }
    where
      go :
          (t : Task)
          → KeepsRow s.conn c (job_of_task t)
          → NormalIs s t
          → NormalIs (record s { conn = c }) t
      go absent w k = tt
      go looking w k = tt
      go (starting job_id) w k = k
      go (running_job job_id proc) w k = ground arith

  pub exits-Inv : (proc : ℕ) → Inv s → Inv (record s { dead = proc ∷ s.dead })
  exits-Inv proc h = record {
    normal_is = go s.normal h.normal_is;
    normal_row = h.normal_row;
    priority_row = h.priority_row;
    flag = h.flag;
    free = h.free;
  }
    where
      go : (t : Task) → NormalIs s t → NormalIs (record s { dead = proc ∷ s.dead }) t
      go absent k = tt
      go looking k = tt
      go (starting job_id) k = k
      go (running_job job_id p) k = unfold elem in ground arith

  pub cancels-Inv : (job_id : ℕ) → Inv s → Inv (record s { lane = cancel_job job_id s.lane })
  unfolding cancel_job elem
  cancels-Inv job_id h = record {
    normal_is = go s.normal h.normal_is;
    normal_row = h.normal_row;
    priority_row = h.priority_row;
    flag = h.flag;
    free = h.free;
  }
    where
      go : (t : Task) → NormalIs s t → NormalIs (record s { lane = cancel_job job_id s.lane }) t
      go absent k = tt
      go looking k = tt
      go (starting j) k = k
      go (running_job j p) k = ground arith

  pub cancels_frozen-Inv :
      (job_id proc : ℕ)
      → s.lane.frozen ≡ some (job_id, proc)
      → Inv s
      → Inv (record s { lane = cancel_frozen job_id proc s.lane })
  unfolding cancel_frozen elem
  cancels_frozen-Inv job_id proc at h = record {
    normal_is = go s.normal h.normal_is;
    normal_row = h.normal_row;
    priority_row = h.priority_row;
    flag = h.flag;
    free = λ a. inr refl;
  }
    where
      go :
          (t : Task)
          → NormalIs s t
          → NormalIs (record s { lane = cancel_frozen job_id proc s.lane }) t
      go absent k = tt
      go looking k = tt
      go (starting j) k = k
      go (running_job j p) k = let same = ≡→== j job_id in ground arith

  pub normal_fails-Inv :
      (job_id : ℕ) (c : Conn)
      → KeepsRow s.conn c (job_of_task s.priority)
      → Inv s
      → Inv (record s { conn = c; normal = looking })
  normal_fails-Inv job_id c keeps h = record {
    normal_is = tt;
    normal_row = tt;
    priority_row = RowIs-KeepsRow s.conn c true _ keeps h.priority_row;
    flag = h.flag;
    free = h.free;
  }

  pub normal_ends-Inv :
      (job_id : ℕ) (c : Conn)
      → KeepsRow s.conn c (job_of_task s.priority)
      → Inv s
      → Inv (record s { conn = c; lane = release_lane job_id s.lane; normal = looking })
  unfolding release_lane
  normal_ends-Inv job_id c keeps h = record {
    normal_is = tt;
    normal_row = tt;
    priority_row = RowIs-KeepsRow s.conn c true _ keeps h.priority_row;
    flag = ground (arith, h.flag);
    free = λ a. let f = h.free a in ground arith;
  }

  pub normal_picks-Inv :
      (channel : ℕ) (w : World) (j : Job) (slot : Slot) (c : Conn)
      → s.lane.stopping ≡ false
      → worker_step w channel (slot_of s.lane) s.conn ≡ (ok (run_job j, slot), c)
      → get_job c.tables j.id ≡ some j
      → KeepsRow s.conn c (job_of_task s.priority)
      → Inv s
      → Inv (record s { conn = c; normal = starting j.id })
  unfolding lane_busy
  normal_picks-Inv channel w j slot c going step found keeps h =
      let may = worker_step-MayRun w channel (slot_of s.lane) s.conn j slot c step in
      let head = get_queue_head-in_lane s.conn.tables channel false j may.is_head in
      let free = may.not_busy in
      record {
        normal_is = ground (arith, h.flag);
        normal_row = rw found (ground arith);
        priority_row = RowIs-KeepsRow s.conn c true _ keeps h.priority_row;
        flag = h.flag;
        free = h.free;
      }

  pub priority_picks-Inv :
      (channel : ℕ) (j : Job)
      → s.priority ≡ looking
      → get_queue_head s.conn.tables channel true ≡ some j
      → get_job s.conn.tables j.id ≡ some j
      → Inv s
      → Inv (record s { priority = starting j.id })
  priority_picks-Inv channel j at head found h =
      let lane = get_queue_head-in_lane s.conn.tables channel true j head in
      record {
        normal_is = go s.normal h.normal_is;
        normal_row = h.normal_row;
        priority_row = rw found (ground arith);
        flag = ground (arith, h.flag);
        free = λ a. absurd (cc);
      }
    where
      go : (t : Task) → NormalIs s t → NormalIs (record s { priority = starting j.id }) t
      go absent k = tt
      go looking k = tt
      go (starting i) k = ground arith
      go (running_job i p) k = ground arith

  pub priority_fails-Inv :
      (job_id : ℕ) (c : Conn)
      → s.priority ≡ starting job_id
      → KeepsRow s.conn c (job_of_task s.normal)
      → Inv s
      → Inv (record s { conn = c; priority = looking })
  priority_fails-Inv job_id c at keeps h = record {
    normal_is = go s.normal keeps h.normal_is;
    normal_row = RowIs-KeepsRow s.conn c false _ keeps h.normal_row;
    priority_row = tt;
    flag = ground (arith, h.flag);
    free = λ a. absurd (cc);
  }
    where
      go :
          (t : Task)
          → KeepsRow s.conn c (job_of_task t)
          → NormalIs s t
          → NormalIs (record s { conn = c; priority = looking }) t
      go absent w k = tt
      go looking w k = tt
      go (starting i) w k = ground arith
      go (running_job i p) w k = ground arith
