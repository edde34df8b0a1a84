-- ===== src/Runner/Jobs/Counts.antt =====
-- runner/src/job_manager.rs, the counters that the metrics and the shutdown of the runner read.
use cloud_devenv_sh.Base.{
  [], ◌∷◌, ℕ, List, Bool, length, ◌≡◌, filterb, ◌+◌, arith, ◌≤◌, length-filterb-le, Map, refl,
}
use cloud_devenv_sh.Runner.Jobs.{
  count_jobs, get_job_counts, JobInfo, active_job_count, job_count, JobManager, is_active,
  count_job,
}
use cloud_devenv_sh.Protocol.{status_eq, JobStatus}
use cloud_devenv_sh.Base.Maps.{values}

pub is_status : JobStatus → JobInfo → Bool
unfolding status_eq
is_status s job = status_eq job.status s

length-values : (m : Map JobInfo) → length (values m) ≡ length m
length-values [] = refl
length-values ((k, v) ∷ m) = ground (arith, length-values m)

-- One pass of the loop counts what three filters would count, on top of what it starts from.
count_jobs-filterb :
    (jobs : List JobInfo) (a q r : ℕ)
    → count_jobs jobs (a, q, r) ≡ (
      a + length (filterb is_active jobs),
      q + length (filterb (is_status JobStatus.queued) jobs),
      r + length (filterb (is_status JobStatus.running) jobs),
    )
unfolding count_jobs is_status
count_jobs-filterb [] a q r = ground arith
count_jobs-filterb (job ∷ jobs) a q r =
    elim job.status
      as (λ s. count_jobs jobs (count_job s (a, q, r)) ≡ (
        a + length (filterb is_active (record job { status = s } ∷ jobs)),
        q + length (filterb (is_status JobStatus.queued) (record job { status = s } ∷ jobs)),
        r + length (filterb (is_status JobStatus.running) (record job { status = s } ∷ jobs)),
      )) [
        | JobStatus.queued ↦ ground (arith, count_jobs-filterb jobs (a + 1) (q + 1) r)
        | JobStatus.running ↦ ground (arith, count_jobs-filterb jobs (a + 1) q (r + 1))
        | JobStatus.complete c ↦ ground (arith, count_jobs-filterb jobs a q r)
      ]

-- The active jobs are the queued ones and the running ones.
active_split :
    (jobs : List JobInfo)
    → length (filterb is_active jobs)
      ≡ length (filterb (is_status JobStatus.queued) jobs)
        + length (filterb (is_status JobStatus.running) jobs)
unfolding is_status
active_split [] = refl
active_split (job ∷ jobs) =
    elim job.status
      as (λ s.
        length (filterb is_active (record job { status = s } ∷ jobs))
        ≡ length (filterb (is_status JobStatus.queued) (record job { status = s } ∷ jobs))
          + length (filterb (is_status JobStatus.running) (record job { status = s } ∷ jobs))) [
            | JobStatus.queued ↦ ground (arith, active_split jobs)
            | JobStatus.running ↦ ground (arith, active_split jobs)
            | JobStatus.complete c ↦ ground (arith, active_split jobs)
          ]

-- The three numbers that the metrics report are the number of active jobs, of queued jobs and of
-- running jobs; the first is the sum of the other two, and at most the number of jobs.
pub get_job_counts_exact :
    (m : JobManager)
    → (get_job_counts m ≡ (
      active_job_count m,
      length (filterb (is_status JobStatus.queued) (values m.jobs)),
      length (filterb (is_status JobStatus.running) (values m.jobs)),
    ))
      × ((get_job_counts m).0 ≡ (get_job_counts m).1 + (get_job_counts m).2)
      × (active_job_count m ≤ job_count m)
unfolding get_job_counts active_job_count job_count
get_job_counts_exact m = (
  ground (arith, count_jobs-filterb (values m.jobs) 0 0 0),
  rw (count_jobs-filterb (values m.jobs) 0 0 0) (omega (arith, active_split (values m.jobs))),
  omega (arith, length-filterb-le is_active (values m.jobs), length-values m.jobs),
)
