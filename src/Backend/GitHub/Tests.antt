-- ===== src/Backend/GitHub/Tests.antt =====
-- Runs of backend/src/github on a repository with one commit.
use mathlib.Core.List.Permᴰ
use mathlib.Core.List.{Permᴰ}
use cloud_devenv_sh.Backend.GitHub.Webhook.{owner_by_login, handle_commit, Answers}
use cloud_devenv_sh.Backend.GitHub.Pushes.{create_jobs-unanswered, queued_job}
use cloud_devenv_sh.Backend.GitHub.Events.{handle_commit-jobs, yaml_of}
use cloud_devenv_sh.Base.{
  ℕ, none, some, ◌∷◌, [], true, false, ◌≡◌, refl, IsUnique, All, List, Bool-cases, filterb, ◌++◌,
  inr, not, arith, inl,
}
use cloud_devenv_sh.Backend.GitHub.{
  Ending, Hub, Draw, GitHubCommit, create_jobs, has_installation, owner_of_repo, GitHubRepo,
}
use cloud_devenv_sh.Protocol.{Vm, Platform, JobStatus}
use cloud_devenv_sh.Backend.CloudConfig.{
  Cloud, final_cloud_new, Parsed, PlatformConfig, resolve, machines_of, x86_64_linux_name,
  parse_memory,
}
use cloud_devenv_sh.Base.Texts.{
  Text, ends_with, to_lowercase, trim_end, trim_start, is_whitespace, text_eq, parse_u32,
  trim_end_matches, is_repeated, is_digit,
}
use cloud_devenv_sh.Base.Maps.{get, insert, contains_key}
use cloud_devenv_sh.Base.Texts.Codes.{codes}
use cloud_devenv_sh.Backend.Jobs.{Job}
use cloud_devenv_sh.Backend.GitHub.Pages.{
  find_repo, get_by_repo_and_rev, get_repo_jobs, Page, get_by_owner_and_name, get_rev,
  OrdersByPlatform, Pair, ByPlatform, Commit, is_linux, MayPrecede,
}
use cloud_devenv_sh.Backend.GitHub.Listings.Ordering.{IsKeyed}
use cloud_devenv_sh.Backend.GitHub.Listings.{
  AreCommitsOf, AreEntriesOf, IsEntryOf, get_repo_jobs-entries,
}
use cloud_devenv_sh.Backend.GitHub.Active.{ShowsActive, get_repos-ShowsActive}
use cloud_devenv_sh.Backend.GitHub.Overview.{get_repos}
use cloud_devenv_sh.Base.Filters.{All-filterb}

abbrev hub : Hub
hub = record {
  owners =
      (5, record { id = 5; login = "ada"; name = "ada"; instance_id = 1; is_user = true }) ∷ [];
  installations = (8, record { id = 8; owner_id = 5; disabled = false }) ∷ [];
  repos =
      (
        20,
        record {
          id = 20;
          name = "engine";
          is_private = false;
          owner_id = 5;
          disabled = false;
          generate_pr = none;
        },
      )
      ∷ [];
  commits = [];
  jobs_github = [];
  server = record {
    jobs = [];
    runners = [];
    channels = [];
    sent = [];
    logger_url = "https://logs";
  };
}

abbrev commit : GitHubCommit
commit = record {
  id = 30;
  rev = "c0ffee";
  git_ref = codes "main";
  repo_id = 20;
  author = "ada";
  message = "notes";
}

-- The check run of the first machine is created, that of the second is not.
abbrev first : Draw
first = record { job_id = 40; now = 1; check_run = some 50 }

abbrev second : Draw
second = record { job_id = 41; now = 2; check_run = none }

abbrev linux : Vm
linux = record { cpu_count = 2; memory_size_mb = 4096; platform = Platform.x86_64_linux }

abbrev one_machine : Cloud
one_machine = record {
  memory = none;
  cpus = none;
  platforms = some (PlatformConfig.simple x86_64_linux_name ∷ []);
}

abbrev answers : Answers
answers = record {
  devenv_nix = some true;
  devenv_yaml = none;
  commit_id = 30;
  draws = λ (i : ℕ). first;
}

owner_found : owner_of_repo 20 hub ≡ some 5
unfolding owner_of_repo has_installation get contains_key
owner_found = refl

installed : has_installation 5 hub.installations ≡ true
unfolding has_installation
installed = refl

create_jobs-unanswered_example :
    ((create_jobs 30 20 ((first, linux) ∷ (second, linux) ∷ (first, linux) ∷ []) hub).1
      ≡ Ending.error)
    × ((create_jobs 30 20
          ((first, linux) ∷ (second, linux) ∷ (first, linux) ∷ [])
          hub).0.server.jobs
        ≡ insert 41 (queued_job second linux) (insert 40 (queued_job first linux) []))
    × ((create_jobs 30 20
          ((first, linux) ∷ (second, linux) ∷ (first, linux) ∷ [])
          hub).0.jobs_github
        ≡ record { job_id = 40; commit_id = 30; check_run_id = 50 } ∷ [])
create_jobs-unanswered_example =
    create_jobs-unanswered 30 20 5 ((first, linux) ∷ []) ((first, linux) ∷ []) second linux hub
      owner_found ((50, refl), tt) refl

machines_read :
    final_cloud_new (λ (s : Text). some one_machine) (yaml_of answers) ≡ Parsed.ok (linux ∷ [])
unfolding final_cloud_new resolve machines_of parse_memory ends_with to_lowercase trim_end
    trim_start is_whitespace text_eq parse_u32 trim_end_matches is_repeated is_digit
machines_read = refl

handle_commit-jobs_example :
    ((handle_commit (λ (s : Text). some one_machine) answers 5 commit hub).1 ≡ Ending.ok)
    × ((handle_commit (λ (s : Text). some one_machine) answers 5 commit hub).0.commits
        ≡ insert 30 commit hub.commits)
    × ((handle_commit (λ (s : Text). some one_machine) answers 5 commit hub).0.server.jobs
        ≡ insert 40 (queued_job first linux) [])
    × ((handle_commit (λ (s : Text). some one_machine) answers 5 commit hub).0.jobs_github
        ≡ record { job_id = 40; commit_id = 30; check_run_id = 50 } ∷ [])
handle_commit-jobs_example =
    handle_commit-jobs (λ (s : Text). some one_machine) answers commit hub 5 (linux ∷ [])
      owner_found installed refl machines_read ((50, refl), tt)

abbrev older : GitHubCommit
older = record commit { id = 29; rev = "decaf" }

abbrev job_of : ℕ → Platform → Job
job_of id platform = record {
  id = id;
  platform = platform;
  status = JobStatus.queued;
  started_at = none;
  finished_at = none;
  runner_id = none;
  cpus = 2;
  memory_mb = 4096;
  retried_job_id = none;
  created_at = 0;
  previous_job_id = none;
}

-- Two commits; the older one has a job for each platform.
abbrev listed : Hub
listed = record hub {
  commits = (29, older) ∷ (30, commit) ∷ [];
  jobs_github =
      record { job_id = 1; commit_id = 29; check_run_id = 7 }
      ∷ record { job_id = 2; commit_id = 29; check_run_id = 8 }
      ∷ [];
  server = record hub.server {
    jobs = (1, job_of 1 Platform.x86_64_linux) ∷ (2, job_of 2 Platform.aarch64_darwin) ∷ [];
  };
}

abbrev engine : GitHubRepo
engine = record {
  id = 20;
  name = "engine";
  is_private = false;
  owner_id = 5;
  disabled = false;
  generate_pr = none;
}

keyed : IsKeyed listed.commits
keyed = (refl, (refl, tt))

unique : IsUnique listed.commits
unfolding get
unique = (refl, (refl, tt))

found : find_repo "ada" "engine" listed ≡ some engine
unfolding find_repo owner_by_login get_by_owner_and_name
found = refl

at_rev : get_by_repo_and_rev 20 "decaf" listed.commits ≡ some older
unfolding get_by_repo_and_rev
at_rev = refl

-- A database that keeps the order of the tables within a platform.
unfoldable sorted : List Pair → List Pair
sorted rows =
    filterb (λ (p : Pair). not (is_linux p.1.platform)) rows
    ++ filterb (λ (p : Pair). is_linux p.1.platform) rows

to_end : (p : Pair) (xs ys : List Pair) → Permᴰ (xs ++ p ∷ ys) (p ∷ (xs ++ ys))
to_end p [] ys = Permᴰ.refl (p ∷ ys)
to_end p (x ∷ xs) ys = Permᴰ.trans (Permᴰ.cons refl (to_end p xs ys)) (Permᴰ.swap refl refl)

sorted_rows : (rows : List Pair) → Permᴰ (sorted rows) rows
unfolding sorted
sorted_rows [] = Permᴰ.nil
sorted_rows (p ∷ rows) = elim (Bool-cases (is_linux p.1.platform)) [
  | inr e ↦ rw e (Permᴰ.cons refl (sorted_rows rows))
  | inl e ↦ rw e (
      Permᴰ.trans
        (to_end p (filterb (λ (q : Pair). not (is_linux q.1.platform)) rows)
          (filterb (λ (q : Pair). is_linux q.1.platform) rows))
        (Permᴰ.cons refl (sorted_rows rows)))
]

linux_last : (rows : List Pair) → ByPlatform (filterb (λ (p : Pair). is_linux p.1.platform) rows)
linux_last [] = tt
linux_last (p ∷ rows) = elim (Bool-cases (is_linux p.1.platform)) [
  | inr e ↦ rw e (linux_last rows)
  | inl e ↦ rw e (
    All-filterb (MayPrecede p) (λ (q : Pair). is_linux q.1.platform) rows
        (λ q h. ground (arith, h, e)),
    linux_last rows,
  )
]

any_after :
    (p : Pair) → is_linux p.1.platform ≡ false → (rows : List Pair) → All (MayPrecede p) rows
any_after p e [] = tt
any_after p e (q ∷ rows) = (ground (arith, e), any_after p e rows)

sorted-ByPlatform :
    (rows later : List Pair)
    → ByPlatform later
    → ByPlatform (filterb (λ (p : Pair). not (is_linux p.1.platform)) rows ++ later)
sorted-ByPlatform [] later h = h
sorted-ByPlatform (p ∷ rows) later h = elim (Bool-cases (is_linux p.1.platform)) [
  | inl e ↦ rw e (sorted-ByPlatform rows later h)
  | inr e ↦ rw e (any_after p e _, sorted-ByPlatform rows later h)
]

sorts : OrdersByPlatform sorted
unfolding sorted
sorts = record {
  same_rows = sorted_rows;
  by_platform = λ rows.
      sorted-ByPlatform rows (filterb (λ (p : Pair). is_linux p.1.platform) rows) (linux_last rows);
}

get_repo_jobs-entries_example :
    ((cs : List GitHubCommit) × (es : List Commit) × AreCommitsOf 20 listed.commits cs
      × AreEntriesOf (λ id. "https://logs/1") "ada" "engine" listed cs es
      × (get_repo_jobs sorted (λ id. "https://logs/1") "ada" "engine" listed
          ≡ Page.page (record { owner = "ada"; repo = "engine"; commits = es })))
    × ((e : Commit) × IsEntryOf (λ id. "https://logs/1") "ada" "engine" listed older e
        × (get_rev sorted (λ id. "https://logs/1") "ada" "engine" "decaf" listed ≡ some e))
get_repo_jobs-entries_example =
    get_repo_jobs-entries sorts (λ id. "https://logs/1") "ada" "engine" "decaf" listed engine older
      keyed unique found at_rev

get_repos-ShowsActive_example :
    All
      (ShowsActive sorted (λ id. "https://logs/1") listed)
      (get_repos sorted (λ id. "https://logs/1") listed)
get_repos-ShowsActive_example = get_repos-ShowsActive sorted (λ id. "https://logs/1") listed
