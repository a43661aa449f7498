-- ===== src/Jobs/Cleanup.antt =====
-- `CleanupCompleted` of internal/jobs/manager.go: what is removed and what is kept.
use promptshield_beta.Jobs.{Job, Manager, is_old, cleanup_jobs, cleanup_completed}
use promptshield_beta.Base.{sym, subst, ◌⊎◌, true, ◌↔◌, ◌<◌, Option-cases, Bool-cases, inl, inr}
use promptshield_beta.Jobs.{completed, failed, cancelled, is_terminal, JobStatus}
use promptshield_beta.Base.{
  ℕ, Option, length, some, ◌≡◌, if◌then◌else◌, ◌+◌, none, ◌∷◌, arith, [], refl,
}
use promptshield_beta.Base.Map.{lookup, Map, Distinct}
use promptshield_beta.Base.Text.{Str, same_iff}

module _ (now max_age : ℕ) where
  cleanup_jobs-none :
      (id : Str) (m : Map Job)
      → lookup id m ≡ none
      → lookup id (cleanup_jobs now max_age m).0 ≡ none
  unfolding lookup cleanup_jobs
  cleanup_jobs-none id [] h = refl
  cleanup_jobs-none id ((j, job) ∷ m) h = ground (arith, cleanup_jobs-none id m)

  -- The job that stays under an id.
  unfoldable pub keep_young : Option Job → Option Job
  keep_young none = none
  keep_young (some job) = if is_old now max_age job then none else some job

  lookup-cleanup_jobs :
      (id : Str) (m : Map Job)
      → Distinct m
      → lookup id (cleanup_jobs now max_age m).0 ≡ keep_young (lookup id m)
  unfolding lookup cleanup_jobs keep_young
  lookup-cleanup_jobs id [] d = refl
  lookup-cleanup_jobs id ((j, job) ∷ m) d =
      ground (arith, same_iff j id, lookup-cleanup_jobs id m d.1, cleanup_jobs-none id m)

  pub cleanup_jobs-Distinct : (m : Map Job) → Distinct m → Distinct (cleanup_jobs now max_age m).0
  unfolding cleanup_jobs
  cleanup_jobs-Distinct [] d = tt
  cleanup_jobs-Distinct ((j, job) ∷ m) d =
      ground (arith, cleanup_jobs-Distinct m d.1, cleanup_jobs-none j m)

  length-cleanup_jobs :
      (m : Map Job)
      → length (cleanup_jobs now max_age m).0 + (cleanup_jobs now max_age m).1 ≡ length m
  unfolding cleanup_jobs
  length-cleanup_jobs [] = refl
  length-cleanup_jobs ((j, job) ∷ m) = ground (arith, length-cleanup_jobs m)

  pub lookup-cleanup_completed :
      (m : Manager) (id : Str)
      → Distinct m.jobs
      → lookup id (cleanup_completed now max_age m).0.jobs ≡ keep_young (lookup id m.jobs)
  unfolding cleanup_completed
  lookup-cleanup_completed m id d = lookup-cleanup_jobs id m.jobs d

  -- Completed, failed or cancelled, with a completion time before the cutoff.
  abbrev pub IsExpired : Job → Type 0
  IsExpired job =
      ((job.status ≡ completed) ⊎ (job.status ≡ failed) ⊎ (job.status ≡ cancelled))
      × (t : ℕ) × (job.completed_at ≡ some t)
      × (t + max_age < now)

  is_terminal-status :
      (s : JobStatus) → (is_terminal s ≡ true) ↔ ((s ≡ completed) ⊎ (s ≡ failed) ⊎ (s ≡ cancelled))
  is_terminal-status s = (λ h. ground (arith, h), λ h. ground (arith, h))

  is_old-IsExpired : (job : Job) → is_old now max_age job ≡ true → IsExpired job
  unfolding is_old
  is_old-IsExpired job h = elim (Option-cases job.completed_at) [
    | inl e ↦ ground (arith, h, e)
    | inr (t, e) ↦
        ((is_terminal-status job.status).0 (ground (arith, h)), t, e, ground (arith, h, e))
  ]

  IsExpired-is_old : (job : Job) → IsExpired job → is_old now max_age job ≡ true
  unfolding is_old
  IsExpired-is_old job (s, t, e, h) = ground (arith, (is_terminal-status job.status).1 s, e, h)

  keep_young-IsExpired :
      (o : Option Job) (job : Job) → (keep_young o ≡ some job) ↔ ((o ≡ some job) × ¬ IsExpired job)
  unfolding keep_young
  keep_young-IsExpired none job = (λ h. ground (arith, h), λ h. ground (arith, h.0))
  keep_young-IsExpired (some j) job = elim (Bool-cases (is_old now max_age j)) [
    | inl e ↦ rw e (
      λ h. ground (arith, h),
      λ (a, b).
          let same_job : j ≡ job = ground (arith, a) in
          absurd (b (subst IsExpired same_job (is_old-IsExpired j e))),
    )
    | inr e ↦ rw e (
      λ h. (
        h,
        λ x.
            let same_job : job ≡ j = ground (arith, h) in
            let old = IsExpired-is_old j (subst IsExpired same_job x) in ground (arith, e, old),
      ),
      λ h. h.0,
    )
  ]

  -- Where the ids of the jobs are distinct, a job is stored after a cleanup exactly if it was stored
  -- before and is not a completed, failed or cancelled job that has a completion time before the
  -- cutoff; the number returned is that of the jobs removed.
  pub cleanup_completed_lem :
      (m : Manager)
      → Distinct m.jobs
      → ((id : Str) (job : Job)
          → (lookup id (cleanup_completed now max_age m).0.jobs ≡ some job)
            ↔ ((lookup id m.jobs ≡ some job) × ¬ IsExpired job))
        × (length (cleanup_completed now max_age m).0.jobs + (cleanup_completed now max_age m).1
            ≡ length m.jobs)
  unfolding cleanup_completed
  cleanup_completed_lem m d = (
    λ id job.
        subst (λ o. (o ≡ some job) ↔ ((lookup id m.jobs ≡ some job) × ¬ IsExpired job))
          (sym (lookup-cleanup_jobs id m.jobs d)) (keep_young-IsExpired (lookup id m.jobs) job),
    length-cleanup_jobs m.jobs,
  )
