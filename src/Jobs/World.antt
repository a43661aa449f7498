-- ===== src/Jobs/World.antt =====
-- internal/jobs/manager.go: the calls and workers as steps, and the invariant of the jobs.
use promptshield_beta.Jobs.{
  running, Job, Manager, Outcome, submit, cancel, cleanup_completed, begin_job, finish_job,
  with_durable, pending, new_manager, register_processor, receive,
}
use promptshield_beta.Base.Text.{Str, same}
use promptshield_beta.Base.Map.{Distinct, lookup, Map}
use promptshield_beta.Base.{
  Bool, ℕ, ◌≡◌, if◌then◌else◌, Option, some, true, false, List, ◌||◌, ◌∷◌, [],
}
use promptshield_beta.Jobs.Status.{in_flight}
use promptshield_beta.Jobs.Stores.{holds}
use promptshield_beta.Base.Int.{ℤ}

-- `held` has the ids that workers received from the channel and did not look up yet, `busy` tells
-- the jobs whose processor is running, and `used` the ids that `uuid.New` has returned.
pub record World : Type 0 where
  pub manager : Manager
  pub held : List Str
  pub busy : Str → Bool
  pub used : Str → Bool

-- `NewManager`, before any call.
abbrev pub new_world : ℤ → World
new_world workers = record {
  manager = new_manager workers;
  held = [];
  busy = λ id. false;
  used = λ id. false;
}

unfoldable pub mark : Str → Bool → (Str → Bool) → Str → Bool
mark id b f j = if same id j then b else f j

-- The list without the first place of the id.
unfoldable pub drop_one : Str → List Str → List Str
drop_one id [] = []
drop_one id (j ∷ js) = let rest = drop_one id js in if same j id then js else j ∷ rest

-- Who may start to process an id: a worker that holds it, or a durable queue, which may deliver any
-- id, and any number of times.
abbrev pub may_begin : Str → World → Bool
may_begin id w = w.manager.durable || holds id w.held

-- A call, a worker's receive, a worker's first or second critical section, at any time and with any
-- answers from outside. `uuid.New` does not return an id twice. Any number of workers run.
pub data Step (w : World) : World → Type 0 where
  attaches : Step w (record w { manager = with_durable w.manager })
  registers :
      (kind name : Str) → Step w (record w { manager = register_processor kind name w.manager })
  submits :
      (id : Str) (now : ℕ) (answer : Option Str) (kind input : Str) (metadata : Map Str)
      → w.used id ≡ false
      → Step w (record w {
        manager = (submit id now answer kind input metadata w.manager).0;
        used = mark id true w.used;
      })
  cancels : (id : Str) (now : ℕ) → Step w (record w { manager = (cancel id now w.manager).0 })
  cleans :
      (now max_age : ℕ)
      → Step w (record w { manager = (cleanup_completed now max_age w.manager).0 })
  receives :
      (id : Str) (m : Manager)
      → receive w.manager ≡ some (id, m)
      → Step w (record w { manager = m; held = id ∷ w.held })
  begins :
      (id : Str) (now : ℕ)
      → may_begin id w ≡ true
      → Step w (record w {
        manager = (begin_job id now w.manager).0;
        held = drop_one id w.held;
        busy = if (begin_job id now w.manager).1 then mark id true w.busy else w.busy;
      })
  finishes :
      (id : Str) (now : ℕ) (o : Outcome)
      → w.busy id ≡ true
      → Step w (record w { manager = finish_job id now o w.manager; busy = mark id false w.busy })

pub data Reach (w : World) : World → Type 0 where
  here : Reach w w
  next : {u v : World} → Reach w u → Step u v → Reach w v

-- The id will be processed: it is in the channel or with a worker, or a durable queue has it.
abbrev pub awaits : World → Str → Bool
awaits w id = w.manager.durable || holds id w.manager.queue || holds id w.held

-- A job in flight is running or was cancelled; a running job is in flight; a pending job awaits a
-- worker; every id in the map or in flight was used.
pub record Inv (w : World) : Type 0 where
  pub distinct : Distinct w.manager.jobs
  pub known : (id : Str) (job : Job) → lookup id w.manager.jobs ≡ some job → w.used id ≡ true
  pub flying :
      (id : Str) (job : Job)
      → w.busy id ≡ true
      → lookup id w.manager.jobs ≡ some job
      → in_flight job.status ≡ true
  pub owned :
      (id : Str) (job : Job)
      → lookup id w.manager.jobs ≡ some job
      → job.status ≡ running
      → w.busy id ≡ true
  pub waiting :
      (id : Str) (job : Job)
      → lookup id w.manager.jobs ≡ some job
      → job.status ≡ pending
      → awaits w id ≡ true
  pub busy_used : (id : Str) → w.busy id ≡ true → w.used id ≡ true
