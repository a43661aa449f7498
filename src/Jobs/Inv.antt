-- ===== src/Jobs/Inv.antt =====
-- The manager of internal/jobs/manager.go under any interleaving of its calls: clients submit,
-- cancel and clean up while workers run jobs between `begin_job` and `finish_job`.
use promptshield_beta.Jobs.{
  Job, Outcome, put_job, submit, cancel, cleanup_completed, begin_job, finish_job, cancel_job,
  is_cancelled, settle, is_pending, begin_pending, Manager, with_durable, new_manager, pending,
  receive, register_processor,
}
use promptshield_beta.Base.Text.{Str, same_refl, same, eq_of_same}
use promptshield_beta.Base.Map.{lookup, Map, is_some, lookup-insert_self}
use promptshield_beta.Base.{
  ℕ, ◌≡◌, if◌then◌else◌, Option, some, true, false, arith, Option-cases, inl, inr, Bool-cases,
  subst, ap, sym, refl, ◌≢◌, ◌∷◌, ◌∙◌,
}
use promptshield_beta.Jobs.Stores.{submit-Stores, holds}
use promptshield_beta.Jobs.Cleanup.{cleanup_completed_lem, cleanup_jobs-Distinct}
use promptshield_beta.Jobs.World.{
  Inv, Reach, Step, World, begins, cancels, cleans, finishes, here, mark, next, submits, drop_one,
  new_world, registers, receives, attaches,
}
use promptshield_beta.Jobs.Puts.{
  ends_put, ends_same, keeps_put, same_jobs, starts_put, uses_more, receive-queue, holds-drop_one,
}
use promptshield_beta.Base.Int.{ℤ}

cancels-Inv :
    (w : World) (id : Str) (now : ℕ)
    → Inv w
    → Inv (record w { manager = (cancel id now w.manager).0 })
cancels-Inv w id now v = elim (Option-cases (lookup id w.manager.jobs)) [
  | inl e ↦
      let eq : (cancel id now w.manager).0 ≡ w.manager = unfold cancel in ground (arith, e) in
      rw eq v
  | inr (job, e) ↦
      let eq : (cancel id now w.manager).0 ≡ put_job id (cancel_job now job).0 w.manager =
        unfold cancel in ground (arith, e) in
      rw eq (
        keeps_put w id (cancel_job now job).0 v (v.known id job e)
          (λ b. unfold cancel_job in ground (arith, v.flying id job b e))
          (λ r. unfold cancel_job in ground (arith, v.owned id job e, r))
          (λ p. unfold cancel_job in ground (arith, p)))
]

cleans-Inv :
    (w : World) (now max_age : ℕ)
    → Inv w
    → Inv (record w { manager = (cleanup_completed now max_age w.manager).0 })
cleans-Inv w now max_age v = record {
  distinct =
      unfold cleanup_completed in cleanup_jobs-Distinct now max_age w.manager.jobs v.distinct;
  known = λ j job e. v.known j job (kept j job e);
  flying = λ j job b e. v.flying j job b (kept j job e);
  owned = λ j job e r. v.owned j job (kept j job e) r;
  waiting = λ j job e r. unfold cleanup_completed in v.waiting j job (kept j job e) r;
  busy_used = v.busy_used;
}
  where
    kept :
        (j : Str) (job : Job)
        → lookup j (cleanup_completed now max_age w.manager).0.jobs ≡ some job
        → lookup j w.manager.jobs ≡ some job
    kept j job e = (((cleanup_completed_lem now max_age w.manager v.distinct).0 j job).0 e).0

finishes-Inv :
    (w : World) (id : Str) (now : ℕ) (o : Outcome)
    → Inv w
    → w.busy id ≡ true
    → Inv (record w { manager = finish_job id now o w.manager; busy = mark id false w.busy })
finishes-Inv w id now o v b = elim (Option-cases (lookup id w.manager.jobs)) [
  | inl e ↦
      let eq : finish_job id now o w.manager ≡ w.manager = unfold finish_job in ground (arith, e) in
      rw eq (ends_same w id v (λ job e'. ground (arith, e, e')))
  | inr (job, e) ↦ elim (Bool-cases (is_cancelled job.status)) [
    | inl c ↦
        let eq : finish_job id now o w.manager ≡ w.manager =
          unfold finish_job in ground (arith, e, c) in
        rw eq (ends_same w id v (λ job' e'. ground (arith, e, e', c)))
    | inr c ↦
        let eq : finish_job id now o w.manager ≡ put_job id (settle now o job) w.manager =
          unfold finish_job in ground (arith, e, c) in
        rw eq (
          ends_put w id (settle now o job) v (v.known id job e) (unfold settle in ground arith)
            (unfold settle in ground arith))
  ]
]

-- A worker that gives up an id of which no pending job is stored.
drops-Inv :
    (w : World) (id : Str)
    → Inv w
    → ((job : Job) → lookup id w.manager.jobs ≡ some job → job.status ≢ pending)
    → Inv (record w { held = drop_one id w.held })
drops-Inv w id v f = record {
  distinct = v.distinct;
  known = v.known;
  flying = v.flying;
  owned = v.owned;
  waiting = λ j job e r. elim (Bool-cases (same id j)) [
    | inl k ↦ absurd (f job (ap (λ i. lookup i w.manager.jobs) (eq_of_same id j k) ∙ e) r)
    | inr k ↦ ground (arith, v.waiting j job e r, holds-drop_one id j w.held k)
  ];
  busy_used = v.busy_used;
}

-- The first critical section, with the id still held.
looks-Inv :
    (w : World) (id : Str) (now : ℕ)
    → Inv w
    → Inv (record w {
      manager = (begin_job id now w.manager).0;
      busy = if (begin_job id now w.manager).1 then mark id true w.busy else w.busy;
    })
looks-Inv w id now v = elim (Option-cases (lookup id w.manager.jobs)) [
  | inl e ↦
      let eq : begin_job id now w.manager ≡ (w.manager, false) =
        unfold begin_job in ground (arith, e) in
      rw eq v
  | inr (job, e) ↦ elim (Bool-cases (is_pending job.status)) [
    | inr p ↦
        let eq : begin_job id now w.manager ≡ (w.manager, false) =
          unfold begin_job in ground (arith, e, p) in
        rw eq v
    | inl p ↦
        let job' : Job = (begin_pending now job w.manager).0 in
        elim (Bool-cases (is_some (lookup job.kind w.manager.processors))) [
          | inl k ↦
              let eq : begin_job id now w.manager ≡ (put_job id job' w.manager, true) =
                unfold begin_job begin_pending in ground (arith, e, p, k) in
              rw eq (
                starts_put w id job' v (v.known id job e)
                  (unfold begin_pending in ground (arith, k))
                  (unfold begin_pending in ground (arith, k)))
          | inr k ↦
              let eq : begin_job id now w.manager ≡ (put_job id job' w.manager, false) =
                unfold begin_job begin_pending in ground (arith, e, p, k) in
              rw eq (
                keeps_put w id job' v (v.known id job e)
                  (λ b. ground (arith, v.flying id job b e, p))
                  (λ r. absurd (unfold begin_pending in ground (arith, k, r)))
                  (λ r. absurd (unfold begin_pending in ground (arith, k, r))))
        ]
  ]
]

-- After it no pending job is stored under the id.
begin_job-settles :
    (id : Str) (now : ℕ) (m : Manager) (job : Job)
    → lookup id (begin_job id now m).0.jobs ≡ some job
    → job.status ≢ pending
begin_job-settles id now m job h = elim (Option-cases (lookup id m.jobs)) [
  | inl e ↦ unfold begin_job in ground (arith, e, h)
  | inr (old, e) ↦
      unfold begin_job begin_pending put_job in
      ground (arith, e, h, lookup-insert_self id (begin_pending now old m).0 m.jobs)
]

begins-Inv :
    (w : World) (id : Str) (now : ℕ)
    → Inv w
    → Inv (record w {
      manager = (begin_job id now w.manager).0;
      held = drop_one id w.held;
      busy = if (begin_job id now w.manager).1 then mark id true w.busy else w.busy;
    })
begins-Inv w id now v = drops-Inv _ id (looks-Inv w id now v) (begin_job-settles id now w.manager)

-- The id moves from the channel to a worker.
receives-Inv :
    (w : World) (id : Str) (m : Manager)
    → receive w.manager ≡ some (id, m)
    → Inv w
    → Inv (record w { manager = m; held = id ∷ w.held })
receives-Inv w id m e v =
    let (q, full, rest) = receive-queue w.manager m id e in
    subst (λ m'. Inv (record w { manager = m'; held = id ∷ w.held })) (sym rest)
      (same_jobs w (record w.manager { queue = q }) (id ∷ w.held) refl
        (λ j a. unfold holds in ground (arith, a, full)) v)

submits-Inv :
    (w : World) (id : Str) (now : ℕ) (answer : Option Str) (kind input : Str) (metadata : Map Str)
    → Inv w
    → w.used id ≡ false
    → Inv (record w {
      manager = (submit id now answer kind input metadata w.manager).0;
      used = mark id true w.used;
    })
submits-Inv w id now answer kind input metadata v f =
    elim (submit-Stores w.manager id now answer kind input metadata) [
      | inl e ↦
          subst (λ m. Inv (record w { manager = m; used = mark id true w.used })) (sym e)
            (uses_more w id v)
      | inr (job, q, e, idle, grows, awaited) ↦
          let w' : World = record w {
            manager = record w.manager { queue = q };
            used = mark id true w.used;
          } in
          let v' : Inv w' =
            same_jobs (record w { used = mark id true w.used }) (record w.manager { queue = q })
              w.held refl (λ j a. ground (arith, a, grows j)) (uses_more w id v) in
          subst (λ m. Inv (record w { manager = m; used = mark id true w.used })) (sym e)
            (keeps_put w' id job v' (unfold mark in ground (arith, same_refl id))
              (λ b. ground (arith, v.busy_used id b, f)) (λ r. ground (arith, r, idle))
              (λ p. ground (arith, awaited p)))
    ]

Step-Inv : {w u : World} → Inv w → Step w u → Inv u
Step-Inv {w} v (submits id now answer kind input metadata f) =
    submits-Inv w id now answer kind input metadata v f
Step-Inv {w} v (cancels id now) = cancels-Inv w id now v
Step-Inv {w} v (cleans now max_age) = cleans-Inv w now max_age v
Step-Inv {w} v attaches =
    same_jobs w (with_durable w.manager) w.held (unfold with_durable in refl)
      (λ j a. unfold with_durable in refl) v
Step-Inv {w} v (registers kind name) =
    same_jobs w (register_processor kind name w.manager) w.held (unfold register_processor in refl)
      (λ j a. unfold register_processor in a) v
Step-Inv {w} v (receives id m e) = receives-Inv w id m e v
Step-Inv {w} v (begins id now b) = begins-Inv w id now v
Step-Inv {w} v (finishes id now o b) = finishes-Inv w id now o v b

pub Reach-keeps : {w u : World} → Inv w → Reach w u → Inv u
Reach-keeps v here = v
Reach-keeps v (next r s) = Step-Inv (Reach-keeps v r) s

-- `NewManager` has no job.
new_world-Inv : (workers : ℤ) → Inv (new_world workers)
unfolding new_manager lookup
new_world-Inv workers = record {
  distinct = tt;
  known = λ id job h. ground (arith, h);
  flying = λ id job b h. ground (arith, h);
  owned = λ id job h r. ground (arith, h);
  waiting = λ id job h r. ground (arith, h);
  busy_used = λ id b. ground (arith, b);
}

-- Whatever calls and workers are interleaved after NewManager, the invariant holds: a job whose
-- processor runs is running or was cancelled, a running job has a worker, and without a durable
-- queue the id of a pending job is in the channel or was received by a worker that will look it up.
pub Reach-Inv : (workers : ℤ) (w : World) → Reach (new_world workers) w → Inv w
Reach-Inv workers w r = Reach-keeps (new_world-Inv workers) r
