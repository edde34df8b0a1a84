-- ===== src/Backend/GitHub/Pushes.antt =====
-- backend/src/github: the jobs of a commit, where GitHub answers and where it does not.
use mathlib.Core.List.{append-nil, append_assoc}
use cloud_devenv_sh.Base.{
  ℕ, none, some, List, ◌∷◌, [], ◌≡◌, refl, arith, ◌∙◌, ◌%◌, ◌++◌, ◌^◌, All, ap, sym,
}
use cloud_devenv_sh.Backend.GitHub.{
  Ending, Hub, and_then, Draw, create_job, JobGitHub, owner_of_repo, create_jobs,
}
use cloud_devenv_sh.Backend.Dispatch.{
  broadcast_job_available, send_all, try_send_to, Server, find_matching_platforms,
  create_job_notification,
}
use cloud_devenv_sh.Backend.Jobs.{Job, new_job, Jobs}
use cloud_devenv_sh.Protocol.{ServerMessage, Vm, JobStatus}
use cloud_devenv_sh.Base.Maps.{keys, insert}

send_all-jobs :
    (ids : List ℕ) (msg : ServerMessage) (s : Server) → (send_all ids msg s).jobs ≡ s.jobs
unfolding send_all try_send_to
send_all-jobs [] msg s = refl
send_all-jobs (id ∷ ids) msg s = send_all-jobs ids msg (try_send_to id msg s).0 ∙ ground arith

pub broadcast-jobs : (job : Job) (s : Server) → (broadcast_job_available job s).jobs ≡ s.jobs
unfolding broadcast_job_available
broadcast-jobs job s =
    send_all-jobs (find_matching_platforms (keys s.channels) job.platform s.runners)
      (create_job_notification job) s

-- The queued job of a machine.
abbrev pub queued_job : Draw → Vm → Job
queued_job d vm = record {
  id = d.job_id;
  platform = vm.platform;
  status = JobStatus.queued;
  started_at = none;
  finished_at = none;
  runner_id = none;
  cpus = vm.cpu_count % 2 ^ 32;
  memory_mb = vm.memory_size_mb % 2 ^ 64;
  retried_job_id = none;
  created_at = d.now;
  previous_job_id = none;
}

-- A table of jobs with the jobs of these machines.
abbrev pub stored : List (Draw × Vm) → Jobs → Jobs
stored [] jobs = jobs
stored ((d, vm) ∷ ds) jobs = stored ds (insert d.job_id (queued_job d vm) jobs)

-- The rows that link the jobs to the commit, of the machines whose check run GitHub has created.
abbrev pub links : ℕ → List (Draw × Vm) → List JobGitHub
links commit_id [] = []
links commit_id ((d, vm) ∷ ds) =
    let rest = links commit_id ds in
    elim d.check_run [
      | none ↦ rest
      | some n ↦ record { job_id = d.job_id; commit_id = commit_id; check_run_id = n } ∷ rest
    ]

abbrev pub IsAnswered : Draw × Vm → Type 0
IsAnswered p = (n : ℕ) × (p.0.check_run ≡ some n)

module _ (commit_id repo_id owner : ℕ) where
  create_job-answered :
      (d : Draw) (vm : Vm) (n : ℕ) (s : Hub)
      → owner_of_repo repo_id s ≡ some owner
      → d.check_run ≡ some n
      → ((create_job d commit_id repo_id vm s).1 ≡ Ending.ok)
        × ((create_job d commit_id repo_id vm s).0.server.jobs
            ≡ insert d.job_id (queued_job d vm) s.server.jobs)
        × ((create_job d commit_id repo_id vm s).0.jobs_github
            ≡ s.jobs_github
              ++ record { job_id = d.job_id; commit_id = commit_id; check_run_id = n } ∷ [])
        × (owner_of_repo repo_id (create_job d commit_id repo_id vm s).0 ≡ some owner)
  unfolding create_job new_job owner_of_repo
  create_job-answered d vm n s o e =
      rw (create_job, o, e) (refl, broadcast-jobs (queued_job d vm) stored_one, refl, o)
    where
      stored_one : Server
      stored_one = record s.server { jobs = insert d.job_id (queued_job d vm) s.server.jobs }

  create_job-commits :
      (d : Draw) (vm : Vm) (n : ℕ) (s : Hub)
      → owner_of_repo repo_id s ≡ some owner
      → d.check_run ≡ some n
      → (create_job d commit_id repo_id vm s).0.commits ≡ s.commits
  unfolding create_job
  create_job-commits d vm n s o e = rw (create_job, o, e) refl

  create_job-unanswered :
      (d : Draw) (vm : Vm) (s : Hub)
      → owner_of_repo repo_id s ≡ some owner
      → d.check_run ≡ none
      → ((create_job d commit_id repo_id vm s).1 ≡ Ending.error)
        × ((create_job d commit_id repo_id vm s).0.server.jobs
            ≡ insert d.job_id (queued_job d vm) s.server.jobs)
        × ((create_job d commit_id repo_id vm s).0.jobs_github ≡ s.jobs_github)
  unfolding create_job new_job
  create_job-unanswered d vm s o e = rw (create_job, o, e) (refl, refl, refl)

  after_job :
      (d : Draw) (vm : Vm) (rest : List (Draw × Vm)) (s : Hub)
      → (create_job d commit_id repo_id vm s).1 ≡ Ending.ok
      → create_jobs commit_id repo_id ((d, vm) ∷ rest) s
        ≡ create_jobs commit_id repo_id rest (create_job d commit_id repo_id vm s).0
  unfolding create_jobs
  after_job d vm rest s e =
      ap
        (λ (r : Ending).
          and_then ((create_job d commit_id repo_id vm s).0, r)
            (create_jobs commit_id repo_id rest))
        e

  failed_job :
      (d : Draw) (vm : Vm) (rest : List (Draw × Vm)) (s : Hub)
      → (create_job d commit_id repo_id vm s).1 ≡ Ending.error
      → create_jobs commit_id repo_id ((d, vm) ∷ rest) s
        ≡ ((create_job d commit_id repo_id vm s).0, Ending.error)
  unfolding create_jobs
  failed_job d vm rest s e =
      ap
        (λ (r : Ending).
          and_then ((create_job d commit_id repo_id vm s).0, r)
            (create_jobs commit_id repo_id rest))
        e

  links-cons :
      (d : Draw) (vm : Vm) (n : ℕ) (ds : List (Draw × Vm))
      → d.check_run ≡ some n
      → links commit_id ((d, vm) ∷ ds)
        ≡ record { job_id = d.job_id; commit_id = commit_id; check_run_id = n } ∷ links commit_id ds
  links-cons d vm n ds e = rw e refl

  -- Where GitHub answers for every machine of a commit, each has one queued job in the table, in the
  -- order of the machines, and its job is linked to the commit and to its check run.
  pub create_jobs-answered :
      (ds : List (Draw × Vm)) (s : Hub)
      → owner_of_repo repo_id s ≡ some owner
      → All IsAnswered ds
      → ((create_jobs commit_id repo_id ds s).1 ≡ Ending.ok)
        × ((create_jobs commit_id repo_id ds s).0.server.jobs ≡ stored ds s.server.jobs)
        × ((create_jobs commit_id repo_id ds s).0.jobs_github ≡ s.jobs_github ++ links commit_id ds)
  unfolding create_jobs
  create_jobs-answered [] s o h = (refl, refl, sym (append-nil s.jobs_github))
  create_jobs-answered ((d, vm) ∷ ds) s o h =
      let (n, e) = h.0 in
      let (fine, jobs, linked, o') = create_job-answered d vm n s o e in
      let (fine', jobs', linked') =
        create_jobs-answered ds (create_job d commit_id repo_id vm s).0 o' h.1 in
      rw (after_job d vm ds s fine) (
        fine',
        jobs' ∙ ap (λ (js : Jobs). stored ds js) jobs,
        linked'
            ∙ ap (λ (ls : List JobGitHub). ls ++ links commit_id ds) linked
            ∙ append_assoc s.jobs_github
                (record { job_id = d.job_id; commit_id = commit_id; check_run_id = n } ∷ [])
                (links commit_id ds)
            ∙ ap (λ (ls : List JobGitHub). s.jobs_github ++ ls) (sym (links-cons d vm n ds e)),
      )

  pub create_jobs-commits :
      (ds : List (Draw × Vm)) (s : Hub)
      → owner_of_repo repo_id s ≡ some owner
      → All IsAnswered ds
      → (create_jobs commit_id repo_id ds s).0.commits ≡ s.commits
  unfolding create_jobs
  create_jobs-commits [] s o h = refl
  create_jobs-commits ((d, vm) ∷ ds) s o h =
      let (n, e) = h.0 in
      let (fine, jobs, linked, o') = create_job-answered d vm n s o e in
      rw (after_job d vm ds s fine) (
        create_jobs-commits ds (create_job d commit_id repo_id vm s).0 o' h.1
        ∙ create_job-commits d vm n s o e)

  -- Where GitHub does not answer for a machine, the request fails there: the machines after it have no
  -- job, and its own job stays in the table, queued, with no link to the commit.
  pub create_jobs-unanswered :
      (before after : List (Draw × Vm)) (d : Draw) (vm : Vm) (s : Hub)
      → owner_of_repo repo_id s ≡ some owner
      → All IsAnswered before
      → d.check_run ≡ none
      → ((create_jobs commit_id repo_id (before ++ (d, vm) ∷ after) s).1 ≡ Ending.error)
        × ((create_jobs commit_id repo_id (before ++ (d, vm) ∷ after) s).0.server.jobs
            ≡ insert d.job_id (queued_job d vm) (stored before s.server.jobs))
        × ((create_jobs commit_id repo_id (before ++ (d, vm) ∷ after) s).0.jobs_github
            ≡ s.jobs_github ++ links commit_id before)
  unfolding create_jobs
  create_jobs-unanswered [] after d vm s o h missing =
      let (fails, jobs, linked) = create_job-unanswered d vm s o missing in
      rw (failed_job d vm after s fails) (refl, jobs, linked ∙ sym (append-nil s.jobs_github))
  create_jobs-unanswered ((b, bm) ∷ before) after d vm s o h missing =
      let (n, e) = h.0 in
      let (fine, jobs, linked, o') = create_job-answered b bm n s o e in
      let (fails, jobs', linked') =
        create_jobs-unanswered before after d vm (create_job b commit_id repo_id bm s).0 o' h.1
          missing in
      rw (after_job b bm (before ++ (d, vm) ∷ after) s fine) (
        fails,
        jobs' ∙ ap (λ (js : Jobs). insert d.job_id (queued_job d vm) (stored before js)) jobs,
        linked'
            ∙ ap (λ (ls : List JobGitHub). ls ++ links commit_id before) linked
            ∙ append_assoc s.jobs_github
                (record { job_id = b.job_id; commit_id = commit_id; check_run_id = n } ∷ [])
                (links commit_id before)
            ∙ ap (λ (ls : List JobGitHub). s.jobs_github ++ ls) (sym (links-cons b bm n before e)),
      )
