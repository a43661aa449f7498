-- ===== src/Jobs/Status.antt =====
-- How the status of a stored job may change (internal/jobs/manager.go), and that each operation
-- of the manager changes it only so.
use promptshield_beta.Jobs.{
  pending, running, completed, failed, cancelled, Job, JobStatus, Manager, Outcome, cancel,
  begin_job, finish_job, put_job, pending, running, cancel_job, is_pending, begin_pending,
  is_cancelled, settle, is_done,
}
use promptshield_beta.Base.{
  Bool, ◌≡◌, Option, true, some, false, arith, ℕ, none, Option-cases, refl, inl, Bool-cases, inr,
  ◌⊎◌,
}
use promptshield_beta.Base.Text.{Str, same, eq_of_same}
use promptshield_beta.Base.Map.{Map, lookup, insert, lookup-insert}

-- One operation takes a job from the first status to the second.
abbrev pub can_move : JobStatus → JobStatus → Bool
can_move pending running = true
can_move pending failed = true
can_move pending cancelled = true
can_move running completed = true
can_move running failed = true
can_move running cancelled = true
can_move pending pending = true
can_move running running = true
can_move completed completed = true
can_move failed failed = true
can_move cancelled cancelled = true
can_move _ _ = false

-- Any number of operations do.
abbrev pub can_reach : JobStatus → JobStatus → Bool
can_reach pending _ = true
can_reach running pending = false
can_reach running _ = true
can_reach s t = can_move s t

pub can_reach_trans :
    (s t u : JobStatus) → can_reach s t ≡ true → can_reach t u ≡ true → can_reach s u ≡ true
can_reach_trans s t u h k = ground arith

-- `can_reach` is the closure of `can_move`: what two moves do it allows, and a terminal status
-- is left by none.
pub can_reach-move :
    (s t u : JobStatus) → can_reach s t ≡ true → can_move t u ≡ true → can_reach s u ≡ true
can_reach-move s t u h k = ground arith

-- The status of a job whose processor is running: it may have been cancelled meanwhile.
abbrev pub in_flight : JobStatus → Bool
in_flight running = true
in_flight cancelled = true
in_flight _ = false

-- What a job keeps for its life.
abbrev pub IsSame : Job → Job → Type 0
IsSame job job' =
    (job'.id ≡ job.id)
    × (job'.kind ≡ job.kind)
    × (job'.input ≡ job.input)
    × (job'.created_at ≡ job.created_at)
    × (job'.metadata ≡ job.metadata)

-- What one operation may make of a job; a completed or failed one stays as it is.
abbrev pub CanBecome : Job → Job → Type 0
CanBecome job job' =
    (can_move job.status job'.status ≡ true)
    × IsSame job job'
    × (is_done job.status ≡ true → job' ≡ job)

-- What an operation may leave under an id where a job was stored: nothing, or what it may make of
-- the job.
abbrev pub Moved : Option Job → Option Job → Type 0
Moved none o = Unit
Moved (some job) none = Unit
Moved (some job) (some job') = CanBecome job job'

pub status_refl : (s : JobStatus) → can_move s s ≡ true
status_refl s = ground arith

pub CanBecome-refl : (job : Job) → CanBecome job job
CanBecome-refl job = (status_refl job.status, (refl, refl, refl, refl, refl), λ h. refl)

pub Moved-refl : (o : Option Job) → Moved o o
Moved-refl none = tt
Moved-refl (some job) = CanBecome-refl job

-- A store under one id moves that id alone.
Moved-put :
    (m : Map Job) (j id : Str) (job : Job)
    → Moved (lookup id m) (some job)
    → Moved (lookup j m) (lookup j (insert id job m))
Moved-put m j id job h = rw (lookup-insert id j job m) (elim (Bool-cases (same id j)) [
  | inl e ↦ rw (e, ← eq_of_same id j e) h
  | inr e ↦ rw e (Moved-refl (lookup j m))
])

-- What an operation does to the map of jobs: nothing, or one store that its job may make.
abbrev pub Effect : Str → Map Job → Map Job → Type 0
Effect id m m' = (m' ≡ m) ⊎ ((job : Job) × (m' ≡ insert id job m) × Moved (lookup id m) (some job))

pub Effect-Moved :
    (id j : Str) (m : Map Job) {m' : Map Job} → Effect id m m' → Moved (lookup j m) (lookup j m')
Effect-Moved id j m (inl e) = rw e (Moved-refl (lookup j m))
Effect-Moved id j m (inr (job, e, h)) = rw e (Moved-put m j id job h)

module _ (m : Manager) (id : Str) where
  pub cancel-Effect : (now : ℕ) → Effect id m.jobs (cancel id now m).0.jobs
  cancel-Effect now = elim (Option-cases (lookup id m.jobs)) [
    | inl e ↦ inl (unfold cancel in ground (arith, e))
    | inr (job, e) ↦ inr (
      (cancel_job now job).0,
      unfold cancel put_job in ground (arith, e),
      unfold cancel_job in ground (arith, e, status_refl job.status),
    )
  ]

  pub begin_job-Effect : (now : ℕ) → Effect id m.jobs (begin_job id now m).0.jobs
  begin_job-Effect now = elim (Option-cases (lookup id m.jobs)) [
    | inl e ↦ inl (unfold begin_job in ground (arith, e))
    | inr (job, e) ↦ elim (Bool-cases (is_pending job.status)) [
      | inr p ↦ inl (unfold begin_job in ground (arith, e, p))
      | inl p ↦ inr (
        (begin_pending now job m).0,
        unfold begin_job put_job in ground (arith, e, p),
        unfold begin_pending in ground (arith, e, p),
      )
    ]
  ]

  -- `finish_job` is called for a job that `begin_job` made running; it may have been cancelled.
  pub finish_job-Effect :
      (now : ℕ) (o : Outcome)
      → ((job : Job) → lookup id m.jobs ≡ some job → in_flight job.status ≡ true)
      → Effect id m.jobs (finish_job id now o m).jobs
  finish_job-Effect now o live = elim (Option-cases (lookup id m.jobs)) [
    | inl e ↦ inl (unfold finish_job in ground (arith, e))
    | inr (job, e) ↦ elim (Bool-cases (is_cancelled job.status)) [
      | inl c ↦ inl (unfold finish_job in ground (arith, e, c))
      | inr c ↦ inr (
        settle now o job,
        unfold finish_job put_job in ground (arith, e, c),
        unfold settle in ground (arith, e, c, live job e),
      )
    ]
  ]
