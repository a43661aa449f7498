-- ===== src/Jobs/Submit.antt =====
-- `Submit` of internal/jobs/manager.go with the in-memory channel.
use promptshield_beta.Jobs.{
  pending, failed, Job, JobError, Manager, no_processor, queue_full, enqueue_memory, queue_capacity,
  submit, cleanup_completed, is_old, new_job,
}
use promptshield_beta.Base.Text.{Str}
use promptshield_beta.Base.{
  Option, ℕ, [], length, some, ◌≡◌, ◌≤◌, ◌<◌, none, false, Bool-cases, arith, ◌++◌, ltb,
  length-append, ◌∷◌, inl, inr, ltb→lt, if-false, refl, if-true, ◌∙◌,
}
use promptshield_beta.Base.Map.{
  Map, Distinct, lookup, insert, is_some, lookup-insert_self, insert-Distinct,
}
use promptshield_beta.Jobs.Cleanup.{keep_young, lookup-cleanup_completed}

-- The result of `Submit` by the state of the manager: refused with nothing stored, stored and
-- queued, or stored as failed because the channel is full.
pub data Submitted (m : Manager) (id : Str) : Manager × Str × Option JobError → Type 0 where
  refused : Submitted m id (m, [], some no_processor)
  queued :
      (job : Job)
      → job.status ≡ pending
      → length m.queue < queue_capacity
      → Submitted m id
          (record m { jobs = insert id job m.jobs; queue = m.queue ++ id ∷ [] }, id, none)
  dropped :
      (job : Job)
      → job.status ≡ failed
      → job.completed_at ≡ none
      → queue_capacity ≤ length m.queue
      → Submitted m id (record m { jobs = insert id job m.jobs }, id, some queue_full)

module _ (id : Str) (now : ℕ) (answer : Option Str) (kind input : Str) (metadata : Map Str)
    (m : Manager) where
  memory_lem :
      (job : Job)
      → job.status ≡ pending
      → job.completed_at ≡ none
      → Submitted m id (enqueue_memory id job m)
  unfolding enqueue_memory
  memory_lem job p c = elim (Bool-cases (ltb (length m.queue) queue_capacity)) [
    | inl e ↦ rw (e, enqueue_memory) (queued job p (ltb→lt _ _ e))
    | inr e ↦ rw (e, enqueue_memory) (dropped _ refl c (ground (arith, e)))
  ]

  -- Without a durable queue `Submit` either answers that there is no processor and changes nothing,
  -- or stores a pending job and appends its id to the channel, or, where the channel is full,
  -- stores the job as failed with no completion time and returns the error.
  pub submit_lem : m.durable ≡ false → Submitted m id (submit id now answer kind input metadata m)
  submit_lem d = elim (Bool-cases (is_some (lookup kind m.processors))) [
    | inr e ↦
        let eq : submit id now answer kind input metadata m ≡ (m, [], some no_processor) =
          unfold submit in if-false _ _ e in
        rw eq refused
    | inl e ↦
        let job : Job = new_job id kind input metadata now in
        let eq : submit id now answer kind input metadata m ≡ enqueue_memory id job m =
          unfold submit in if-true _ _ e ∙ if-false _ _ d in
        rw eq (memory_lem job (unfold new_job in refl) (unfold new_job in refl))
  ]

-- `Submit` never overfills the channel.
Submitted-bounded :
    {m : Manager} {id : Str} {r : Manager × Str × Option JobError}
    → Submitted m id r
    → length m.queue ≤ queue_capacity
    → length r.0.queue ≤ queue_capacity
Submitted-bounded refused h = h
Submitted-bounded {m} {id} (queued job p c) h = omega (arith, length-append m.queue (id ∷ []))
Submitted-bounded (dropped job p c l) h = h

dropped_stays :
    {m : Manager} {id : Str} {r : Manager × Str × Option JobError} (now max_age : ℕ)
    → Submitted m id r
    → Distinct m.jobs
    → r.2 ≡ some queue_full
    → (job : Job) × (job.status ≡ failed)
      × (lookup id (cleanup_completed now max_age r.0).0.jobs ≡ some job)
dropped_stays now max_age refused d e = cc
dropped_stays now max_age (queued job p c) d e = cc
dropped_stays {m} {id} now max_age (dropped job p c l) d e = (
  job,
  p,
  lookup-cleanup_completed now max_age (record m { jobs = insert id job m.jobs }) id
        (insert-Distinct id job m.jobs d)
      ∙ unfold keep_young in young,
)
  where
    young : keep_young now max_age (lookup id (insert id job m.jobs)) ≡ some job
    young = unfold keep_young is_old in ground (arith, lookup-insert_self id job m.jobs, c)

-- Without a durable queue, a job that `Submit` could not queue is stored as failed with no
-- completion time, so no later `CleanupCompleted`, at any time and age, removes it.
pub cleanup-dropped :
    (id : Str) (now : ℕ) (answer : Option Str) (kind input : Str) (metadata : Map Str) (m : Manager)
    (later max_age : ℕ)
    → m.durable ≡ false
    → Distinct m.jobs
    → (submit id now answer kind input metadata m).2 ≡ some queue_full
    → (job : Job) × (job.status ≡ failed)
      × (lookup id
            (cleanup_completed later max_age (submit id now answer kind input metadata m).0).0.jobs
          ≡ some job)
cleanup-dropped id now answer kind input metadata m later max_age d k e =
    dropped_stays later max_age (submit_lem id now answer kind input metadata m d) k e
