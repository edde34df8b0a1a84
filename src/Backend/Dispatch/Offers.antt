-- ===== src/Backend/Dispatch/Offers.antt =====
-- backend/src/runner/serve.rs, `check_and_send_job` and the claims of `spawn_runner`: which runner is
-- offered which job, and which one gets it.
use Prim.Native.String.{◌++◌ as str_append}
use cloud_devenv_sh.Base.{
  ℕ, [], ◌∷◌, refl, List, Bool, if◌then◌else◌, ◌++◌, ◌==◌, ◌≡◌, ◌≤◌, some, ◌+◌, ◌⊎◌, arith,
  Option-cases, inl, true, inr, Bool-cases, subst, false, ==_refl,
}
use cloud_devenv_sh.Backend.Dispatch.{
  World, create_job_notification, Server, check_and_send_job, handle_client_message,
  github_update_status, set_started,
}
use cloud_devenv_sh.Protocol.{ServerMessage, Vm, ClientMessage, Platform, status_eq, JobStatus}
use cloud_devenv_sh.Backend.Jobs.{
  Job, claim_job_for_runner, is_candidate, to_vm_config, find_queued_job_for_platform, Jobs,
  set_claimed,
}
use cloud_devenv_sh.Base.Maps.{get, values, update, get-update}
use cloud_devenv_sh.Backend.Jobs.Queue.{IsAnswer, IsIn, find_queued-IsAnswer}
use cloud_devenv_sh.Backend.Jobs.Claims.{claim_absent, claim_taken, claim_queued, running_busy}

-- A runner is sent nothing, and the server stays as it was, or it is sent one offer: a queued job of the
-- table without a runner, of the runner's own platform and not locked, with the machine of that job.
pub offer-IsFor :
    (locked : ℕ → Bool) (socket_ok : Bool) (runner_id : ℕ) (s : Server)
    → ((check_and_send_job locked socket_ok runner_id s).0 ≡ s)
      ⊎ ((platform : Platform) × (job : Job) × (get runner_id s.runners ≡ some platform)
          × IsIn job (values s.jobs)
          × (is_candidate locked platform job ≡ true)
          × ((check_and_send_job locked socket_ok runner_id s).0 ≡ record s {
            sent =
                s.sent
                ++ (runner_id, ServerMessage.new_job_available job.id (to_vm_config job)) ∷ [];
          }))
unfolding create_job_notification check_and_send_job
offer-IsFor locked socket_ok runner_id s = elim (Option-cases (get runner_id s.runners)) [
  | inl e ↦ inl (rw (e, check_and_send_job) refl)
  | inr (platform, e) ↦ elim (Option-cases (find_queued_job_for_platform locked platform s.jobs)) [
    | inl f ↦ inl (rw (e, f, check_and_send_job) refl)
    | inr (job, f) ↦
        let (here, passes, least) =
          subst (IsAnswer (is_candidate locked platform) (values s.jobs)) f
            (find_queued-IsAnswer locked platform s.jobs) in
        elim (Bool-cases socket_ok) [
          | inl g ↦ inr (platform, job, e, here, passes, rw (e, f, g, check_and_send_job) refl)
          | inr g ↦ inl (rw (e, f, g, check_and_send_job) refl)
        ]
  ]
]

-- Claims of one job, each by a runner and in a world of its own.
abbrev pub claim_all : ℕ → List (World × ℕ × Vm) → Server → Server
claim_all id [] s = s
claim_all id ((w, runner_id, vm) ∷ cs) s =
    claim_all id cs (handle_client_message w runner_id (ClientMessage.claim_job id vm) s)

-- How often the job was given to a runner.
abbrev pub grants : ℕ → List (ℕ × ServerMessage) → ℕ
grants id [] = 0
grants id ((r, m) ∷ ms) =
    let rest = grants id ms in
    elim m [ ServerMessage.job_claimed j vm url ↦ if j == id then rest + 1 else rest | _ ↦ rest ]

grants-append :
    (id : ℕ) (ms ns : List (ℕ × ServerMessage)) → grants id (ms ++ ns) ≡ grants id ms + grants id ns
grants-append id [] ns = omega arith
grants-append id ((r, m) ∷ ms) ns = ground (arith, grants-append id ms ns)

refused-claim :
    (w : World) (id runner_id : ℕ) (vm : Vm) (s : Server)
    → claim_job_for_runner id runner_id s.jobs ≡ (s.jobs, 0)
    → handle_client_message w runner_id (ClientMessage.claim_job id vm) s ≡ s
unfolding handle_client_message
refused-claim w id runner_id vm s e = rw (e, handle_client_message) refl

refused-claim_all :
    (id : ℕ) (cs : List (World × ℕ × Vm)) (s : Server)
    → ((r : ℕ) → claim_job_for_runner id r s.jobs ≡ (s.jobs, 0))
    → claim_all id cs s ≡ s
refused-claim_all id [] s h = refl
refused-claim_all id ((w, runner_id, vm) ∷ cs) s h =
    rw (refused-claim w id runner_id vm s (h runner_id)) (refused-claim_all id cs s h)

granted_row :
    (answered : Bool) (now id runner_id : ℕ) (job : Job) (jobs : Jobs)
    → get id jobs ≡ some job
    → (row : Job) × (get id (
          github_update_status answered now JobStatus.running id
            (update id (set_claimed runner_id) jobs))
        ≡ some row)
      × (status_eq row.status JobStatus.queued ≡ false)
unfolding github_update_status
granted_row true now id runner_id job jobs e = (
  set_started now (set_claimed runner_id job),
  ground (
    arith,
    e,
    ==_refl id,
    get-update id id (set_claimed runner_id) jobs,
    get-update id id (set_started now) (update id (set_claimed runner_id) jobs),
  ),
  running_busy,
)
granted_row false now id runner_id job jobs e = (
  set_claimed runner_id job,
  ground (arith, e, ==_refl id, get-update id id (set_claimed runner_id) jobs),
  running_busy,
)

granted-claim :
    (w : World) (id runner_id : ℕ) (vm : Vm) (job : Job) (s : Server)
    → get id s.jobs ≡ some job
    → status_eq job.status JobStatus.queued ≡ true
    → let t = handle_client_message w runner_id (ClientMessage.claim_job id vm) s in
      (grants id t.sent ≤ grants id s.sent + 1)
      × ((r : ℕ) → claim_job_for_runner id r t.jobs ≡ (t.jobs, 0))
unfolding handle_client_message
granted-claim w id runner_id vm job s e q =
    let (row, here, busy) = granted_row w.github_answers w.now id runner_id job s.jobs e in
    rw (claim_queued id runner_id s.jobs job e q) (
      ground (
        arith,
        grants-append id s.sent (
            (
              runner_id,
              ServerMessage.job_claimed id vm
                  (str_append (str_append s.logger_url "/") (w.uuid_text id)),
            )
            ∷ []),
      ),
      λ r. elim (Bool-cases w.socket_ok) [
        | inl o ↦ rw o (claim_taken id r _ row here busy)
        | inr o ↦ rw o (claim_taken id r _ row here busy)
      ],
    )

-- Whoever claims a job, with whatever machine and however often, the job is given out at most once.
pub job_given_at_most_once :
    (id : ℕ) (cs : List (World × ℕ × Vm)) (s : Server)
    → grants id (claim_all id cs s).sent ≤ grants id s.sent + 1
job_given_at_most_once id [] s = omega arith
job_given_at_most_once id ((w, runner_id, vm) ∷ cs) s = elim (Option-cases (get id s.jobs)) [
  | inl e ↦
      rw (refused-claim_all id ((w, runner_id, vm) ∷ cs) s (λ r. claim_absent id r s.jobs e))
        (omega arith)
  | inr (job, e) ↦ elim (Bool-cases (status_eq job.status JobStatus.queued)) [
    | inl q ↦
        let (sent, again) = granted-claim w id runner_id vm job s e q in
        rw
          (refused-claim_all id cs
            (handle_client_message w runner_id (ClientMessage.claim_job id vm) s) again)
          sent
    | inr q ↦
        rw (refused-claim_all id ((w, runner_id, vm) ∷ cs) s (λ r. claim_taken id r s.jobs job e q))
          (omega arith)
  ]
]
