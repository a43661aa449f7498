-- ===== src/Jobs/Lifecycle.antt =====
-- The life of one job of internal/jobs/manager.go under any interleaving.
use promptshield_beta.Jobs.{
  Job, Manager, Outcome, cancel, begin_job, finish_job, put_job, with_durable, is_done,
  register_processor, is_old,
}
use promptshield_beta.Base.{
  Option, Bool, ◌≡◌, true, none, some, ℕ, refl, arith, inl, ap, ◌∙◌, inr, Bool-cases, subst, List,
  if-holds, sym, false,
}
use promptshield_beta.Base.Text.{Str, same, same_iff, eq_of_same}
use promptshield_beta.Base.Map.{lookup, Map, lookup-insert}
use promptshield_beta.Jobs.Status.{
  can_reach, can_reach-move, Effect, status_refl, cancel-Effect, Effect-Moved, begin_job-Effect,
  finish_job-Effect, IsSame, CanBecome, Moved, CanBecome-refl, Effect-Moved,
}
use promptshield_beta.Jobs.Stores.{submit-Stores}
use promptshield_beta.Jobs.Inv.{Reach-Inv, Reach-keeps}
use promptshield_beta.Jobs.World.{
  World, Inv, Step, Reach, submits, next, mark, here, cancels, cleans, begins, finishes, registers,
  new_world, receives, attaches,
}
use promptshield_beta.Jobs.Puts.{receive-queue}
use promptshield_beta.Jobs.Cleanup.{keep_young, lookup-cleanup_completed}
use promptshield_beta.Base.Int.{ℤ}

-- What may be found later under the id of a job: the same job, with a status that can be reached,
-- and unchanged if it was completed or failed; or nothing once it was cleaned up.
abbrev pub Later : Job → Option Job → Type 0
Later job none = Unit
Later job (some job') =
    (can_reach job.status job'.status ≡ true)
    × IsSame job job'
    × (is_done job.status ≡ true → job' ≡ job)

Later-start : (job : Job) → Later job (some job)
Later-start job =
    (ground (arith, status_refl job.status), (refl, refl, refl, refl, refl), λ h. refl)

-- A job that was found and then moved once.
Later-step : (job a b : Job) → Later job (some a) → CanBecome a b → Later job (some b)
Later-step job a b (l, (i, k, n, c, d), done) (m, (i', k', n', c', d'), done') = (
  can_reach-move job.status a.status b.status l m,
  (i' ∙ i, k' ∙ k, n' ∙ n, c' ∙ c, d' ∙ d),
  λ h. done' (ap (λ (x : Job). is_done x.status) (done h) ∙ h) ∙ done h,
)

Later-Moved :
    (job : Job) (o o' : Option Job)
    → Later job o
    → (o ≡ none → o' ≡ none)
    → Moved o o'
    → Later job o'
Later-Moved job none o' l n m = subst (Later job) (sym (n refl)) tt
Later-Moved job (some a) none l n m = tt
Later-Moved job (some a) (some b) l n m = Later-step job a b l m

-- An operation that stores only under ids of the map stores nothing under another id.
gone :
    (id j : Str) (m : Map Job) {m' : Map Job}
    → Effect id m m'
    → (lookup id m ≡ none → m' ≡ m)
    → lookup j m ≡ none
    → lookup j m' ≡ none
gone id j m (inl e) absent h = ap (lookup j) e ∙ h
gone id j m (inr (job, e, ok)) absent h = elim (Bool-cases (same id j)) [
  | inl k ↦ ap (lookup j) (absent (ap (λ i. lookup i m) (eq_of_same id j k) ∙ h)) ∙ h
  | inr k ↦ ap (lookup j) e ∙ ground (arith, lookup-insert id j job m, k, h)
]

module _ (m : Manager) (id : Str) (h : lookup id m.jobs ≡ none) where
  cancel-absent : (now : ℕ) → (cancel id now m).0.jobs ≡ m.jobs
  unfolding cancel
  cancel-absent now = ground (arith, h)

  begin_job-absent : (now : ℕ) → (begin_job id now m).0.jobs ≡ m.jobs
  unfolding begin_job
  begin_job-absent now = ground (arith, h)

  finish_job-absent : (now : ℕ) (o : Outcome) → (finish_job id now o m).jobs ≡ m.jobs
  unfolding finish_job
  finish_job-absent now o = ground (arith, h)

-- A new id is not one that was used.
stored_elsewhere :
    (m : Manager) (j id : Str) (new : Job) (q : List Str) (used : Str → Bool)
    → used j ≡ true
    → used id ≡ false
    → lookup j (put_job id new (record m { queue = q })).jobs ≡ lookup j m.jobs
unfolding put_job
stored_elsewhere m j id new q used k f =
    ground (arith, lookup-insert id j new m.jobs, same_iff id j, k, f)

cleaned_none :
    (o o' : Option Job) (now max_age : ℕ) → o' ≡ keep_young now max_age o → o ≡ none → o' ≡ none
cleaned_none o o' now max_age e h = unfold keep_young in ground (arith, e, h)

cleaned-Moved : (o : Option Job) (now max_age : ℕ) → Moved o (keep_young now max_age o)
unfolding keep_young
cleaned-Moved none now max_age = tt
cleaned-Moved (some job) now max_age =
    if-holds (Moved (some job)) (is_old now max_age job) none (some job) (λ e. tt)
      (λ e. CanBecome-refl job)

module _ (j : Str) (job : Job) where
  -- One step keeps what may be found under an id that was used.
  Step-Later :
      {w u : World}
      → Inv w
      → w.used j ≡ true
      → Later job (lookup j w.manager.jobs)
      → Step w u
      → Later job (lookup j u.manager.jobs)
  Step-Later {w} v k l attaches = unfold with_durable in l
  Step-Later {w} v k l (registers kind name) = unfold register_processor in l
  Step-Later {w} v k l (submits id now answer kind input metadata f) =
      elim (submit-Stores w.manager id now answer kind input metadata) [
        | inl e ↦ subst (λ m. Later job (lookup j m.jobs)) (sym e) l
        | inr (new, q, e, idle, grows, awaited) ↦
            subst (λ m. Later job (lookup j m.jobs)) (sym e)
              (subst (Later job) (sym (stored_elsewhere w.manager j id new q w.used k f)) l)
      ]
  Step-Later {w} v k l (cancels id now) =
      let e = cancel-Effect w.manager id now in
      Later-Moved job _ _ l (gone id j _ e (λ h. cancel-absent w.manager id h now))
        (Effect-Moved id j w.manager.jobs e)
  Step-Later {w} v k l (cleans now max_age) =
      let e = lookup-cleanup_completed now max_age w.manager j v.distinct in
      Later-Moved job _ _ l (λ h. cleaned_none _ _ now max_age e h)
        (subst (Moved (lookup j w.manager.jobs)) (sym e)
          (cleaned-Moved (lookup j w.manager.jobs) now max_age))
  Step-Later {w} v k l (receives id m e) =
      let (q, full, rest) = receive-queue w.manager m id e in
      subst (λ m'. Later job (lookup j m'.jobs)) (sym rest) l
  Step-Later {w} v k l (begins id now b) =
      let e = begin_job-Effect w.manager id now in
      Later-Moved job _ _ l (gone id j _ e (λ h. begin_job-absent w.manager id h now))
        (Effect-Moved id j w.manager.jobs e)
  Step-Later {w} v k l (finishes id now o b) =
      let e = finish_job-Effect w.manager id now o (λ old h. v.flying id old b h) in
      Later-Moved job _ _ l (gone id j _ e (λ h. finish_job-absent w.manager id h now o))
        (Effect-Moved id j w.manager.jobs e)

  Step-used : {w u : World} → w.used j ≡ true → Step w u → u.used j ≡ true
  Step-used k attaches = k
  Step-used k (registers kind name) = k
  Step-used k (submits id now answer kind input metadata f) = unfold mark in ground (arith, k)
  Step-used k (cancels id now) = k
  Step-used k (cleans now max_age) = k
  Step-used k (receives id m e) = k
  Step-used k (begins id now b) = k
  Step-used k (finishes id now o b) = k

  Reach-used : {w u : World} → w.used j ≡ true → Reach w u → u.used j ≡ true
  Reach-used k here = k
  Reach-used k (next r t) = Step-used (Reach-used k r) t

  Reach-Later :
      {w u : World}
      → Inv w
      → w.used j ≡ true
      → Later job (lookup j w.manager.jobs)
      → Reach w u
      → Later job (lookup j u.manager.jobs)
  Reach-Later v k l here = l
  Reach-Later v k l (next r t) =
      Step-Later (Reach-keeps v r) (Reach-used k r) (Reach-Later v k l r) t

-- After any calls and workers since NewManager, and whatever happens after a job was seen, what is
-- found under its id is the same job (its id, type, input, time of creation and metadata) with a
-- status that its status can reach, or nothing once it was cleaned up. A completed or failed job is
-- unchanged, and a cancelled one stays cancelled: a worker that finishes late does not overwrite a
-- cancellation, and an id that a durable queue delivers twice does not run twice.
pub job_lifecycle :
    (workers : ℤ) (w u : World) (id : Str) (job : Job)
    → Reach (new_world workers) w
    → lookup id w.manager.jobs ≡ some job
    → Reach w u
    → Later job (lookup id u.manager.jobs)
job_lifecycle workers w u id job r e t =
    let v = Reach-Inv workers w r in
    Reach-Later id job v (v.known id job e) (subst (Later job) (sym e) (Later-start job)) t
