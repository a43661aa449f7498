-- ===== src/Jobs/Puts.antt =====
-- internal/jobs/manager.go: which stores of a job keep the invariant.
use promptshield_beta.Jobs.{running, Job, Manager, put_job, pending, receive}
use promptshield_beta.Base.Text.{Str, same, same_iff}
use promptshield_beta.Base.Map.{Distinct, lookup, insert-Distinct, lookup-insert}
use promptshield_beta.Base.{
  ◌≡◌, some, true, false, arith, ◌≢◌, subst, ap, ◌∙◌, List, ◌∷◌, [], List-cases, refl, inl, inr,
}
use promptshield_beta.Jobs.Status.{in_flight}
use promptshield_beta.Jobs.Stores.{holds}
use promptshield_beta.Jobs.World.{World, Inv, mark, drop_one, awaits}

pub known_put :
    (w : World) (id : Str) (job : Job)
    → Inv w
    → w.used id ≡ true
    → (j : Str) (job' : Job) → lookup j (put_job id job w.manager).jobs ≡ some job'
    → w.used j ≡ true
unfolding put_job
known_put w id job v u j job' e =
    ground (arith, lookup-insert id j job w.manager.jobs, same_iff id j, v.known j job', e)

-- Another manager and other ids with workers, with the same jobs, of which none is lost.
pub same_jobs :
    (w : World) (m : Manager) (held : List Str)
    → w.manager.jobs ≡ m.jobs
    → ((j : Str) → awaits w j ≡ true → awaits (record w { manager = m; held = held }) j ≡ true)
    → Inv w
    → Inv (record w { manager = m; held = held })
same_jobs w m held e g v = record {
  distinct = subst Distinct e v.distinct;
  known = λ j job h. v.known j job (ap (lookup j) e ∙ h);
  flying = λ j job b h. v.flying j job b (ap (lookup j) e ∙ h);
  owned = λ j job h r. v.owned j job (ap (lookup j) e ∙ h) r;
  waiting = λ j job h r. g j (v.waiting j job (ap (lookup j) e ∙ h) r);
  busy_used = v.busy_used;
}

-- Whether a store keeps the invariant depends on the stored job alone.
pub keeps_put :
    (w : World) (id : Str) (job : Job)
    → Inv w
    → w.used id ≡ true
    → (w.busy id ≡ true → in_flight job.status ≡ true)
    → (job.status ≡ running → w.busy id ≡ true)
    → (job.status ≡ pending → awaits w id ≡ true)
    → Inv (record w { manager = put_job id job w.manager })
keeps_put w id job v u f o a = record {
  distinct = unfold put_job in insert-Distinct id job w.manager.jobs v.distinct;
  known = known_put w id job v u;
  flying = λ j job' b e.
      unfold put_job in
      ground (arith, lookup-insert id j job w.manager.jobs, same_iff id j, v.flying j job', e, b);
  owned = λ j job' e r.
      unfold put_job in
      ground (arith, lookup-insert id j job w.manager.jobs, same_iff id j, v.owned j job', e, r);
  waiting = λ j job' e r.
      unfold put_job in
      ground
        (arith, lookup-insert id j job w.manager.jobs, same_iff id j, v.waiting j job', e, r, a);
  busy_used = v.busy_used;
}

pub uses_more : (w : World) (id : Str) → Inv w → Inv (record w { used = mark id true w.used })
uses_more w id v = record {
  distinct = v.distinct;
  known = λ j job e. unfold mark in ground (arith, v.known j job e);
  flying = v.flying;
  owned = v.owned;
  waiting = v.waiting;
  busy_used = λ j b. unfold mark in ground (arith, v.busy_used j b);
}

pub starts_put :
    (w : World) (id : Str) (job : Job)
    → Inv w
    → w.used id ≡ true
    → in_flight job.status ≡ true
    → job.status ≢ pending
    → Inv (record w { manager = put_job id job w.manager; busy = mark id true w.busy })
starts_put w id job v u f p = record {
  distinct = unfold put_job in insert-Distinct id job w.manager.jobs v.distinct;
  known = known_put w id job v u;
  flying = λ j job' b e.
      unfold put_job mark in
      ground (arith, lookup-insert id j job w.manager.jobs, same_iff id j, v.flying j job', e, b);
  owned = λ j job' e r.
      unfold put_job mark in
      ground (arith, lookup-insert id j job w.manager.jobs, same_iff id j, v.owned j job', e, r);
  waiting = λ j job' e r.
      unfold put_job in
      ground
        (arith, lookup-insert id j job w.manager.jobs, same_iff id j, v.waiting j job', e, r, p);
  busy_used = λ j b. unfold mark in ground (arith, v.busy_used j, same_iff id j, u, b);
}

pub ends_put :
    (w : World) (id : Str) (job : Job)
    → Inv w
    → w.used id ≡ true
    → job.status ≢ running
    → job.status ≢ pending
    → Inv (record w { manager = put_job id job w.manager; busy = mark id false w.busy })
ends_put w id job v u f p = record {
  distinct = unfold put_job in insert-Distinct id job w.manager.jobs v.distinct;
  known = known_put w id job v u;
  flying = λ j job' b e.
      unfold put_job mark in
      ground (arith, lookup-insert id j job w.manager.jobs, same_iff id j, v.flying j job', e, b);
  owned = λ j job' e r.
      unfold put_job mark in
      ground (arith, lookup-insert id j job w.manager.jobs, same_iff id j, v.owned j job', e, r, f);
  waiting = λ j job' e r.
      unfold put_job in
      ground
        (arith, lookup-insert id j job w.manager.jobs, same_iff id j, v.waiting j job', e, r, p);
  busy_used = λ j b. unfold mark in ground (arith, v.busy_used j, b);
}

pub ends_same :
    (w : World) (id : Str)
    → Inv w
    → ((job : Job) → lookup id w.manager.jobs ≡ some job → job.status ≢ running)
    → Inv (record w { busy = mark id false w.busy })
ends_same w id v f = record {
  distinct = v.distinct;
  known = v.known;
  flying = λ j job' b e. unfold mark in ground (arith, same_iff id j, v.flying j job', e, b);
  owned = λ j job' e r. unfold mark in ground (arith, same_iff id j, v.owned j job', e, r, f job');
  waiting = v.waiting;
  busy_used = λ j b. unfold mark in ground (arith, v.busy_used j, b);
}

pub holds-drop_one :
    (id j : Str) (l : List Str) → same id j ≡ false → holds j (drop_one id l) ≡ holds j l
unfolding holds drop_one
holds-drop_one id j [] h = refl
holds-drop_one id j (i ∷ l) h =
    ground (arith, holds-drop_one id j l h, same_iff i id, same_iff i j, same_iff id j, h)

-- A receive changes the channel alone.
pub receive-queue :
    (m m' : Manager) (id : Str)
    → receive m ≡ some (id, m')
    → (q : List Str) × (m.queue ≡ id ∷ q) × (m' ≡ record m { queue = q })
unfolding receive
receive-queue m m' id h = elim (List-cases m.queue) [
  | inl e ↦ ground (arith, h, e)
  | inr (i, q, e) ↦ (q, ground (arith, h, e), ground (arith, h, e))
]
