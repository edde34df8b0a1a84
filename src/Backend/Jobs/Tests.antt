-- ===== src/Backend/Jobs/Tests.antt =====
-- Runs of the statements of backend/src/job/model.rs on small tables.
use cloud_devenv_sh.Base.{ℕ, refl, none, [], ◌∷◌, IsUnique, ◌≡◌, false, ◌==◌}
use cloud_devenv_sh.Backend.Jobs.{
  Job, Jobs, find_expired_jobs, claim_job_for_runner, find_queued_job_for_platform,
}
use cloud_devenv_sh.Backend.Jobs.Timeouts.{AllKeyed, has_id, claimed_never_expires}
use cloud_devenv_sh.Base.Maps.{get, values}
use cloud_devenv_sh.Protocol.{JobStatus, CompletionStatus, Platform}
use cloud_devenv_sh.Backend.Jobs.Queue.{IsOldest, find_queued-IsOldest}

abbrev job_of : ℕ → JobStatus → Job
job_of id status = record {
  id = id;
  platform = Platform.x86_64_linux;
  status = status;
  started_at = none;
  finished_at = none;
  runner_id = none;
  cpus = 2;
  memory_mb = 256;
  retried_job_id = none;
  created_at = 0;
  previous_job_id = none;
}

abbrev pub table : Jobs
table =
    (1, job_of 1 (JobStatus.complete CompletionStatus.failed))
    ∷ (2, job_of 2 JobStatus.queued)
    ∷ (3, job_of 3 JobStatus.queued)
    ∷ []

abbrev pub failed_job : Job
failed_job = job_of 1 (JobStatus.complete CompletionStatus.failed)

abbrev pub queued_job : Job
queued_job = job_of 2 JobStatus.queued

table-IsUnique : IsUnique table
unfolding get
table-IsUnique = (refl, (refl, (refl, tt)))

table-AllKeyed : AllKeyed table
table-AllKeyed = (refl, (refl, (refl, tt)))

find_queued-IsOldest_example :
    IsOldest
      (λ id. id == 2)
      Platform.x86_64_linux
      (values table)
      (find_queued_job_for_platform (λ id. id == 2) Platform.x86_64_linux table)
find_queued-IsOldest_example = find_queued-IsOldest (λ id. id == 2) Platform.x86_64_linux table

claimed_never_expires_example :
    has_id 2 (find_expired_jobs 5000000 3 (claim_job_for_runner 2 9 table).0) ≡ false
unfolding get
claimed_never_expires_example =
    claimed_never_expires 2 9 5000000 3 queued_job table table-IsUnique table-AllKeyed refl refl
