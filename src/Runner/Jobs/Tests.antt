-- ===== src/Runner/Jobs/Tests.antt =====
-- Runs of the job manager of runner/src/job_manager.rs on small inputs.
use cloud_devenv_sh.Base.{refl, none, [], ◌∷◌, false, true}
use cloud_devenv_sh.Runner.Jobs.{JobInfo, JobManager, get_job, new, new_info, register_job}
use cloud_devenv_sh.Protocol.{JobConfig, JobStatus, CompletionStatus}
use cloud_devenv_sh.Runner.Jobs.Lifecycle.{
  Lifecycle, status_of, Reach, trace, Step, events-Lifecycle,
}
use cloud_devenv_sh.Base.Maps.{get}

abbrev config : JobConfig
config = record {
  id = 4;
  project_url = "u";
  git_ref = none;
  tasks = [];
  cachix_push = false;
  clone_depth = none;
}

abbrev registered_manager : JobManager
registered_manager = register_job 4 config new

abbrev queued_job : JobInfo
queued_job = new_info 4 config

abbrev ended_job : JobInfo
ended_job = record { id = 4; config = config; status = JobStatus.complete CompletionStatus.success }

abbrev ended_manager : JobManager
ended_manager = record { jobs = (4, ended_job) ∷ []; sent = []; receiver_alive = true }

registered-Reach : Reach registered_manager
unfolding get_job new get
registered-Reach = Reach.next Reach.start (Step.register 4 config refl refl)

events-Lifecycle_example :
    Lifecycle (status_of (get_job 4 registered_manager)) (trace 4 registered_manager.sent)
events-Lifecycle_example = events-Lifecycle 4 registered-Reach
