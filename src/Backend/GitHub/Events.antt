-- ===== src/Backend/GitHub/Events.antt =====
-- backend/src/github/serve.rs: what a commit's event leaves in the tables, and who may send one.
use cloud_devenv_sh.Base.{
  ℕ, none, some, Bool, Option, List, [], true, ◌≡◌, refl, arith, ◌⊎◌, inr, All, Bool-cases, inl,
  ◌++◌,
}
use cloud_devenv_sh.Backend.GitHub.{
  Ending, Hub, Draw, GitHubCommit, create_commit, owner_of_repo, String, has_installation,
  create_jobs,
}
use cloud_devenv_sh.Base.Texts.{Text}
use cloud_devenv_sh.Backend.GitHub.Webhook.{
  Answers, webhook, handle_commit, Event, create_for_commit, with_draws,
}
use cloud_devenv_sh.Backend.CloudConfig.{Cloud, final_cloud_new, Parsed}
use cloud_devenv_sh.Base.Maps.{contains_key, insert}
use cloud_devenv_sh.Protocol.{Vm}
use cloud_devenv_sh.Backend.GitHub.Pushes.{
  IsAnswered, stored, links, create_jobs-answered, create_jobs-commits,
}

-- The text that the configuration is read from.
abbrev pub yaml_of : Answers → Text
yaml_of a = elim a.devenv_yaml [ none ↦ [] | some yaml ↦ yaml ]

-- The tables with the commit.
abbrev pub with_commit : GitHubCommit → Hub → Hub
with_commit c s = record s { commits = insert c.id c s.commits }

known_commit :
    (c : GitHubCommit) (s : Hub)
    → contains_key c.repo_id s.repos ≡ true
    → create_commit c s ≡ (with_commit c s, Ending.ok)
unfolding create_commit
known_commit c s e = rw (create_commit, e) refl

owner-known :
    (repo_id owner : ℕ) (s : Hub)
    → owner_of_repo repo_id s ≡ some owner
    → contains_key repo_id s.repos ≡ true
unfolding owner_of_repo contains_key
owner-known repo_id owner s o = ground (arith, o)

module _ (from_str : Text → Option Cloud) (a : Answers) (c : GitHubCommit) (s : Hub)
    (owner : ℕ) where
  reached :
      owner_of_repo c.repo_id s ≡ some owner
      → has_installation owner s.installations ≡ true
      → a.devenv_nix ≡ some true
      → handle_commit from_str a owner c s ≡ elim (final_cloud_new from_str (yaml_of a)) [
        | Parsed.err e ↦ (with_commit c s, Ending.error)
        | Parsed.ok vms ↦ create_jobs c.id c.repo_id (with_draws a.draws 0 vms) (with_commit c s)
      ]
  unfolding handle_commit create_for_commit
  reached o i nix =
      rw
        (
          handle_commit,
          i,
          nix,
          create_for_commit,
          known_commit c s (owner-known c.repo_id owner s o),
        )
        refl

  same_owner :
      owner_of_repo c.repo_id s ≡ some owner
      → owner_of_repo c.repo_id (with_commit c s) ≡ some owner
  unfolding owner_of_repo
  same_owner o = o

  -- A commit whose repository, owner and installation are known and that has a devenv.nix: its
  -- devenv.yaml, or the empty text where there is none that can be read, gives its machines, and where
  -- GitHub answers for each of them the tables hold the commit and one queued job for each machine,
  -- linked to it.
  pub handle_commit-jobs :
      (vms : List Vm)
      → owner_of_repo c.repo_id s ≡ some owner
      → has_installation owner s.installations ≡ true
      → a.devenv_nix ≡ some true
      → final_cloud_new from_str (yaml_of a) ≡ Parsed.ok vms
      → All IsAnswered (with_draws a.draws 0 vms)
      → ((handle_commit from_str a owner c s).1 ≡ Ending.ok)
        × ((handle_commit from_str a owner c s).0.commits ≡ insert c.id c s.commits)
        × ((handle_commit from_str a owner c s).0.server.jobs
            ≡ stored (with_draws a.draws 0 vms) s.server.jobs)
        × ((handle_commit from_str a owner c s).0.jobs_github
            ≡ s.jobs_github ++ links c.id (with_draws a.draws 0 vms))
  handle_commit-jobs vms o i nix parsed answered =
      let ds : List (Draw × Vm) = with_draws a.draws 0 vms in
      let (fine, jobs, linked) =
        create_jobs-answered c.id c.repo_id owner ds (with_commit c s) (same_owner o) answered in
      rw (reached o i nix, parsed)
        (
          fine,
          create_jobs-commits c.id c.repo_id owner ds (with_commit c s) (same_owner o) answered,
          jobs,
          linked,
        )

-- A request whose body does not have the signature of the configured secret, or that finds no secret
-- configured, changes nothing and fails.
pub unsigned_webhook_unchanged :
    {Body : Type 0} (from_str : Text → Option Cloud) (verify : Body → String → String → Bool)
    (parse : String → Body → Option Event) (a : Answers) (secret : Option String)
    (signature event_name : String) (body : Body) (s : Hub)
    → ((key : String) × (secret ≡ some key) × (verify body signature key ≡ true))
      ⊎ (webhook from_str verify parse a secret signature event_name body s ≡ (s, Ending.error))
unfolding webhook
unsigned_webhook_unchanged from_str verify parse a none signature event_name body s = inr refl
unsigned_webhook_unchanged from_str verify parse a (some key) signature event_name body s =
    elim (Bool-cases (verify body signature key)) [
      | inl good ↦ inl (key, refl, good)
      | inr bad ↦ inr (rw (webhook, bad) refl)
    ]
