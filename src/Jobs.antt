-- ===== src/Jobs.antt =====
-- internal/jobs/manager.go: asynchronous jobs. Every method runs under the manager's mutex, but a
-- worker receives an id from the channel without it, and `processJob` releases it while the processor runs: it is two functions, `begin_job` and
-- `finish_job`, between which other calls may come. The clock, the fresh id of `uuid.New`, what
-- the durable queue answers and what the processor does are arguments.
pub mod Status
pub mod Stores
pub mod Puts
pub mod World
pub mod Inv
pub mod Cleanup
pub mod Lifecycle
pub mod Submit
mod Tests
use promptshield_beta.Base.{
  ℕ, true, Option, Bool, some, List, [], if◌then◌else◌, false, ◌&&◌, none, ◌++◌, ltb, length, ◌+◌,
  ◌∷◌, ite,
}
use promptshield_beta.Base.Text.{Str, bytes}
use promptshield_beta.Base.Map.{Map, insert, lookup, is_some}
use promptshield_beta.Base.Int.{ℤ, is_pos, pos_part}

pub data JobStatus : Type 0 where
  pending running completed failed cancelled : JobStatus

pub JobStatus-discrete : Discrete JobStatus
JobStatus-discrete = hlevel

-- The values of `Metadata` are only stored, as texts.
pub record Job : Type 0 where
  pub id : Str
  pub kind : Str
  pub status : JobStatus
  pub input : Str
  pub result : Str
  pub error : Str
  pub created_at : ℕ
  pub started_at : Option ℕ
  pub completed_at : Option ℕ
  pub progress : ℕ
  pub metadata : Map Str

pub data JobError : Type 0 where
  no_processor not_found queue_full : JobError
  enqueue_failed : Str → JobError
  cannot_cancel : JobStatus → JobError

-- `queue` holds the ids in the channel, oldest first; `processors` the registered types, each
-- with the processor's name; `durable` tells whether a durable queue is attached.
pub record Manager : Type 0 where
  pub jobs : Map Job
  pub queue : List Str
  pub processors : Map Str
  pub workers : ℕ
  pub durable : Bool

abbrev pub queue_capacity : ℕ
queue_capacity = 1000

unfoldable pub new_manager : ℤ → Manager
new_manager workers = record {
  jobs = [];
  queue = [];
  processors = [];
  workers = if is_pos workers then pos_part workers else 2;
  durable = false;
}

unfoldable pub with_durable : Manager → Manager
with_durable m = record m { durable = true }

unfoldable pub register_processor : Str → Str → Manager → Manager
register_processor kind name m = record m { processors = insert kind name m.processors }

unfoldable pub new_job : Str → Str → Str → Map Str → ℕ → Job
new_job id kind input metadata now = record {
  id = id;
  kind = kind;
  status = pending;
  input = input;
  result = [];
  error = [];
  created_at = now;
  started_at = none;
  completed_at = none;
  progress = 0;
  metadata = metadata;
}

unfoldable pub put_job : Str → Job → Manager → Manager
put_job id job m = record m { jobs = insert id job m.jobs }

-- `answer` is the error of the durable queue's `Enqueue`, if it has one.
unfoldable pub enqueue_durable : Option Str → Str → Job → Manager → Manager × Str × Option JobError
unfolding put_job
enqueue_durable none id job m = (put_job id job m, id, none)
enqueue_durable (some e) id job m = (
  put_job id (record job { status = failed; error = bytes "enqueue failed: " ++ e }) m,
  id,
  some (enqueue_failed e),
)

-- The `select` of `Submit`: the send succeeds while the channel has room.
unfoldable pub enqueue_memory : Str → Job → Manager → Manager × Str × Option JobError
unfolding put_job
enqueue_memory id job m =
    if ltb (length m.queue) queue_capacity
    then (record (put_job id job m) { queue = m.queue ++ id ∷ [] }, id, none)
    else (
      put_job id (record job { status = failed; error = bytes "job queue is full" }) m,
      id,
      some queue_full,
    )

unfoldable pub submit :
    Str → ℕ → Option Str → Str → Str → Map Str → Manager → Manager × Str × Option JobError
unfolding enqueue_durable enqueue_memory new_job
submit id now answer kind input metadata m =
    let job = new_job id kind input metadata now in
    if is_some (lookup kind m.processors)
    then (if m.durable then enqueue_durable answer id job m else enqueue_memory id job m)
    else (m, [], some no_processor)

unfoldable pub get : Str → Manager → Option Job
get id m = lookup id m.jobs

-- No status, or the job's own.
unfoldable pub wants : Option JobStatus → JobStatus → Bool
wants none s = true
wants (some t) s = ite (JobStatus-discrete s t) true false

unfoldable pub list_jobs : Option JobStatus → Map Job → List Job
unfolding wants
list_jobs status [] = []
list_jobs status ((id, job) ∷ m) =
    let rest = list_jobs status m in if wants status job.status then job ∷ rest else rest

-- `job.Status == JobStatusCompleted || job.Status == JobStatusFailed`
abbrev pub is_done : JobStatus → Bool
is_done completed = true
is_done failed = true
is_done _ = false

unfoldable pub cancel_job : ℕ → Job → Job × Option JobError
cancel_job now job = if is_done job.status then (job, some (cannot_cancel job.status)) else (
  record job { status = cancelled; completed_at = some now; error = bytes "cancelled by user" },
  none,
)

unfoldable pub cancel : Str → ℕ → Manager → Manager × Option JobError
unfolding cancel_job
cancel id now m = elim (lookup id m.jobs) [
  | none ↦ (m, some not_found)
  | some job ↦ let (job', err) = cancel_job now job in (put_job id job' m, err)
]

-- A worker's receive from the channel: the oldest id, if there is one.
unfoldable pub receive : Manager → Option (Str × Manager)
receive m = elim m.queue [ [] ↦ none | id ∷ q ↦ some (id, record m { queue = q }) ]

abbrev pub is_pending : JobStatus → Bool
is_pending pending = true
is_pending _ = false

-- The first critical section of `processJob` on a pending job; the second component tells
-- whether the processor is run.
unfoldable pub begin_pending : ℕ → Job → Manager → Job × Bool
begin_pending now job m =
    if is_some (lookup job.kind m.processors)
    then (record job { status = running; started_at = some now }, true)
    else (
      record job {
        status = failed;
        error = bytes "no processor for job type: " ++ job.kind;
        completed_at = some now;
      },
      false,
    )

unfoldable pub begin_job : Str → ℕ → Manager → Manager × Bool
unfolding begin_pending
begin_job id now m = elim (lookup id m.jobs) [
  | none ↦ (m, false)
  | some job ↦
      if is_pending job.status
      then (let (job', run) = begin_pending now job m in (put_job id job' m, run))
      else (m, false)
]

-- What a processor leaves in its own copy of the job, and its error.
pub record Outcome : Type 0 where
  pub result : Str
  pub progress : ℕ
  pub error : Option Str

unfoldable pub settle : ℕ → Outcome → Job → Job
settle now o job =
    let job' = record job { result = o.result; progress = o.progress; completed_at = some now } in
    elim o.error [
      | some e ↦ record job' { status = failed; error = e }
      | none ↦ record job' { status = completed; progress = 100 }
    ]

abbrev pub is_cancelled : JobStatus → Bool
is_cancelled cancelled = true
is_cancelled _ = false

-- The second critical section writes through the pointer that `begin_job` read. A job that is no
-- longer in the map was removed by `cleanup_completed`, for which it had to be cancelled first;
-- then nothing is written (Jobs/Inv.antt shows that no other job in flight is removed).
unfoldable pub finish_job : Str → ℕ → Outcome → Manager → Manager
unfolding settle
finish_job id now o m = elim (lookup id m.jobs) [
  | none ↦ m
  | some job ↦ if is_cancelled job.status then m else put_job id (settle now o job) m
]

abbrev pub is_terminal : JobStatus → Bool
is_terminal pending = false
is_terminal running = false
is_terminal _ = true

-- Terminal, and completed before the cutoff `now - max_age`.
unfoldable pub is_old : ℕ → ℕ → Job → Bool
is_old now max_age job =
    is_terminal job.status
    && elim job.completed_at [ none ↦ false | some t ↦ ltb (t + max_age) now ]

-- The loop of `CleanupCompleted`, with the number of jobs removed.
unfoldable pub cleanup_jobs : ℕ → ℕ → Map Job → Map Job × ℕ
cleanup_jobs now max_age [] = ([], 0)
cleanup_jobs now max_age ((id, job) ∷ m) =
    let (rest, n) = cleanup_jobs now max_age m in
    if is_old now max_age job then (rest, n + 1) else ((id, job) ∷ rest, n)

unfoldable pub cleanup_completed : ℕ → ℕ → Manager → Manager × ℕ
unfolding cleanup_jobs
cleanup_completed now max_age m =
    let (jobs', n) = cleanup_jobs now max_age m.jobs in (record m { jobs = jobs' }, n)
