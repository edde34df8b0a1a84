-- ===== src/Backend/GitHub/Retries.antt =====
-- `retry_job` of backend/src/job/serve.rs, and create_with_check_run of backend/src/github/model.rs.
use cloud_devenv_sh.Base.{ℕ, none, some, Option, List, ◌∷◌, [], if◌then◌else◌, ◌==◌, ◌++◌}
use cloud_devenv_sh.Backend.GitHub.{Ending, Hub, JobGitHub, owner_of_repo, Draw, GitHubCommit}
use cloud_devenv_sh.Backend.Jobs.{Result, retry, Job, is_retryable, Jobs}
use cloud_devenv_sh.Base.Maps.{get}
use cloud_devenv_sh.Backend.Dispatch.{broadcast_job_available}

unfoldable pub find_link : ℕ → List JobGitHub → Option JobGitHub
find_link job_id [] = none
find_link job_id (l ∷ ls) =
    let rest = find_link job_id ls in if l.job_id == job_id then some l else rest

-- `get_with_github_details`: the job with its link and its commit.
unfoldable pub get_with_github_details : ℕ → Hub → Option (Job × GitHubCommit)
unfolding find_link get
get_with_github_details id s = elim (get id s.server.jobs) [
  | none ↦ none
  | some job ↦ elim (find_link id s.jobs_github) [
    | none ↦ none
    | some l ↦ elim (get l.commit_id s.commits) [ none ↦ none | some c ↦ some (job, c) ]
  ]
]

-- The tables after the transaction, with the draw of the new job.
unfoldable pub retry_with : Draw → Job → GitHubCommit → Hub → Jobs × Job → Hub × Ending
unfolding owner_of_repo broadcast_job_available
retry_with d job c s (jobs, again) =
    let t : Hub = record s { server = record s.server { jobs = jobs } } in
    elim (owner_of_repo c.repo_id s) [
      | none ↦ (t, Ending.error)
      | some owner ↦ elim d.check_run [
        | none ↦ (t, Ending.error)
        | some n ↦
            let link : JobGitHub = record {
              job_id = again.id;
              commit_id = c.id;
              check_run_id = n;
            } in
            (
              record t {
                jobs_github = s.jobs_github ++ link ∷ [];
                server = broadcast_job_available again t.server;
              },
              Ending.ok,
            )
      ]
    ]

unfoldable pub retry_job : Draw → ℕ → Hub → Hub × Ending
unfolding get_with_github_details retry retry_with
retry_job d id s = elim (get_with_github_details id s) [
  | none ↦ (s, Ending.error)
  | some found ↦
      if is_retryable found.0
      then elim (retry d.job_id d.now found.0 s.server.jobs) [
        | Result.err e ↦ (s, Ending.error)
        | Result.ok after ↦ retry_with d found.0 found.1 s after
      ]
      else (s, Ending.error)
]
