-- ===== src/Jobs/Stores.antt =====
-- What `Submit` of internal/jobs/manager.go stores.
use promptshield_beta.Jobs.{
  pending, failed, Job, JobStatus, Manager, submit, put_job, pending, new_job, enqueue_durable,
  enqueue_memory, queue_capacity, no_processor,
}
use promptshield_beta.Base.{
  Bool, ◌≡◌, Option, true, some, false, arith, ℕ, none, refl, inl, Bool-cases, inr, ◌⊎◌, ltb,
  length, if◌then◌else◌, [], List, ◌++◌, subst, ◌∷◌, ◌||◌, sym,
}
use promptshield_beta.Base.Text.{Str, same, same_refl}
use promptshield_beta.Base.Map.{Map, lookup, is_some}

-- The statuses that `Submit` stores.
abbrev pub is_idle : JobStatus → Bool
is_idle pending = true
is_idle failed = true
is_idle _ = false

-- The id is one of the list.
unfoldable pub holds : Str → List Str → Bool
holds id [] = false
holds id (j ∷ js) = same j id || holds id js

holds-append : (j : Str) (q r : List Str) → holds j (q ++ r) ≡ (holds j q || holds j r)
unfolding holds
holds-append j [] r = refl
holds-append j (i ∷ q) r = ground (arith, holds-append j q r)

-- The manager with one new job that is not running, in a channel that lost no id; if the job is
-- pending, its id is in the channel, or there is a durable queue.
abbrev pub Stores : Str → Manager → Manager → Type 0
Stores id m m' =
    (job : Job) × (q : List Str) × (m' ≡ put_job id job (record m { queue = q }))
    × (is_idle job.status ≡ true)
    × ((j : Str) → holds j m.queue ≡ true → holds j q ≡ true)
    × (job.status ≡ pending → (m.durable || holds id q) ≡ true)

module _ (m : Manager) (id : Str) where
  durable-Stores :
      (answer : Option Str) (job : Job)
      → is_idle job.status ≡ true
      → m.durable ≡ true
      → Stores id m (enqueue_durable answer id job m).0
  unfolding enqueue_durable
  durable-Stores none job h d = (job, m.queue, refl, h, λ j k. k, λ p. rw d refl)
  durable-Stores (some e) job h d = (_, m.queue, refl, refl, λ j k. k, λ p. rw d refl)

  memory-Stores : (job : Job) → is_idle job.status ≡ true → Stores id m (enqueue_memory id job m).0
  unfolding enqueue_memory put_job
  memory-Stores job h = elim (Bool-cases (ltb (length m.queue) queue_capacity)) [
    | inl e ↦
        rw (e, enqueue_memory)
          (
            job,
            m.queue ++ id ∷ [],
            refl,
            h,
            λ j k. rw (holds-append j m.queue (id ∷ []), k) refl,
            λ p. unfold holds in ground (arith, holds-append id m.queue (id ∷ []), same_refl id),
          )
    | inr e ↦ rw (e, enqueue_memory) (_, m.queue, refl, refl, λ j k. k, λ p. ground (arith, p))
  ]

  module _ (now : ℕ) (answer : Option Str) (kind input : Str) (metadata : Map Str) where
    submitted : Job
    submitted = new_job id kind input metadata now

    submit-eq : submit id now answer kind input metadata m ≡ (
        if is_some (lookup kind m.processors)
        then (if m.durable
            then enqueue_durable answer id submitted m
            else enqueue_memory id submitted m)
        else (m, [], some no_processor))
    unfolding submit submitted
    submit-eq = refl

    -- `Submit` leaves the manager as it is, or stores one job that is pending or failed.
    pub submit-Stores :
        ((submit id now answer kind input metadata m).0 ≡ m)
        ⊎ Stores id m (submit id now answer kind input metadata m).0
    submit-Stores = rw submit-eq (elim (Bool-cases (is_some (lookup kind m.processors))) [
      | inr e ↦ rw e (inl refl)
      | inl e ↦ rw e (
          inr (elim (Bool-cases m.durable) [
            | inl d ↦
                subst
                  (λ b.
                    Stores id m
                      (if b
                        then enqueue_durable answer id submitted m
                        else enqueue_memory id submitted m).0)
                  (sym d) (durable-Stores answer submitted new d)
            | inr d ↦
                subst
                  (λ b.
                    Stores id m
                      (if b
                        then enqueue_durable answer id submitted m
                        else enqueue_memory id submitted m).0)
                  (sym d) (memory-Stores submitted new)
          ]))
    ])
      where
        new : is_idle submitted.status ≡ true
        new = unfold submitted new_job in refl
