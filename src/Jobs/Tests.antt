-- ===== src/Jobs/Tests.antt =====
-- Runs of the job manager, and the theorems at them.
use promptshield_beta.Jobs.{
  Manager, Job, submit, begin_job, new_job, enqueue_memory, put_job, cleanup_completed, failed,
  queue_full,
}
use promptshield_beta.Jobs.Inv.{Reach-Inv}
use promptshield_beta.Jobs.World.{
  World, Reach, Inv, next, mark, here, submits, begins, registers, receives, cancels, new_world,
  drop_one, may_begin,
}
use promptshield_beta.Base.Text.{Str, bytes, same}
use promptshield_beta.Jobs.Lifecycle.{Later, job_lifecycle}
use promptshield_beta.Jobs.Submit.{cleanup-dropped}
use promptshield_beta.Base.{
  [], none, replicate, ◌≡◌, ◌∷◌, if◌then◌else◌, true, some, refl, length, ◌+◌, ◌↔◌,
}
use promptshield_beta.Base.Map.{lookup, insert, Distinct}
use promptshield_beta.Jobs.Cleanup.{IsExpired, cleanup_completed_lem}
use promptshield_beta.Base.Int.{pos}
use promptshield_beta.Jobs.{
  cancel, cancel_job, is_old, cleanup_jobs, receive, register_processor, new_manager,
}
use promptshield_beta.Jobs.Stores.{holds}

abbrev id1 : Str
id1 = bytes "1"

-- A manager with one registered type.
abbrev world : World
world = record (new_world (pos 2)) {
  manager = register_processor (bytes "scan") (bytes "scanner") (new_manager (pos 2));
}

abbrev ready : Manager
ready = world.manager

-- Submitted at 10.
abbrev submitted_world : World
submitted_world = record world {
  manager = (submit id1 10 none (bytes "scan") [] [] ready).0;
  used = mark id1 true world.used;
}

-- A worker has received the id.
abbrev received : Manager
received = record submitted_world.manager { queue = [] }

abbrev received_world : World
received_world = record submitted_world { manager = received; held = id1 ∷ [] }

-- Begun at 11.
abbrev begun_world : World
begun_world = record received_world {
  manager = (begin_job id1 11 received).0;
  held = drop_one id1 received_world.held;
  busy =
      if (begin_job id1 11 received).1
      then mark id1 true received_world.busy
      else received_world.busy;
}

submitted-Reach : Reach (new_world (pos 2)) submitted_world
submitted-Reach =
    next (next here (registers (bytes "scan") (bytes "scanner")))
      (submits id1 10 none (bytes "scan") [] [] refl)

receives_id : receive submitted_world.manager ≡ some (id1, received)
unfolding receive submit enqueue_memory put_job insert lookup same new_job register_processor
    new_manager
receives_id = refl

may_begin_id : may_begin id1 received_world ≡ true
unfolding holds same submit enqueue_memory put_job insert lookup new_job register_processor
    new_manager
may_begin_id = refl

begun-Reach : Reach submitted_world begun_world
begun-Reach = next (next here (receives id1 received receives_id)) (begins id1 11 may_begin_id)

abbrev submitted_job : Job
submitted_job = new_job id1 (bytes "scan") [] [] 10

found_job : lookup id1 submitted_world.manager.jobs ≡ some submitted_job
unfolding submit enqueue_memory put_job insert lookup same new_job register_processor new_manager
found_job = refl

Reach-Inv_example : Inv submitted_world
Reach-Inv_example = Reach-Inv (pos 2) submitted_world submitted-Reach

job_lifecycle_example : Later submitted_job (lookup id1 begun_world.manager.jobs)
job_lifecycle_example =
    job_lifecycle (pos 2) submitted_world begun_world id1 submitted_job submitted-Reach found_job
      begun-Reach

-- Cancelled at 12.
abbrev cancelled_manager : Manager
cancelled_manager = (cancel id1 12 submitted_world.manager).0

cancelled-Distinct : Distinct cancelled_manager.jobs
cancelled-Distinct =
    (Reach-Inv (pos 2) (record submitted_world { manager = cancelled_manager })
      (next submitted-Reach (cancels id1 12))).distinct

-- It is removed at 90, as older than 5.
one_removed : (cleanup_completed 90 5 cancelled_manager).1 ≡ 1
unfolding cleanup_completed cleanup_jobs cancel is_old submit enqueue_memory put_job insert lookup
    same new_job register_processor new_manager cancel_job
one_removed = refl

cleanup_completed_lem_example :
    ((id : Str) (job : Job)
      → (lookup id (cleanup_completed 90 5 cancelled_manager).0.jobs ≡ some job)
        ↔ ((lookup id cancelled_manager.jobs ≡ some job) × ¬ IsExpired 90 5 job))
    × (length (cleanup_completed 90 5 cancelled_manager).0.jobs
          + (cleanup_completed 90 5 cancelled_manager).1
        ≡ length cancelled_manager.jobs)
cleanup_completed_lem_example = cleanup_completed_lem 90 5 cancelled_manager cancelled-Distinct

-- A full channel.
abbrev full : Manager
full = record ready { queue = replicate 1000 id1 }

full-error : (submit id1 10 none (bytes "scan") [] [] full).2 ≡ some queue_full
unfolding submit enqueue_memory put_job lookup same register_processor insert new_manager
full-error = refl

cleanup-dropped_example :
    (job : Job) × (job.status ≡ failed)
    × (lookup id1 (cleanup_completed 90 5 (submit id1 10 none (bytes "scan") [] [] full).0).0.jobs
        ≡ some job)
unfolding register_processor new_manager
cleanup-dropped_example =
    cleanup-dropped id1 10 none (bytes "scan") [] [] full 90 5 refl tt full-error
