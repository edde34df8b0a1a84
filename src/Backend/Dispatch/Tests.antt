-- ===== src/Backend/Dispatch/Tests.antt =====
-- Runs of the server of backend/src/runner/serve.rs and backend/src/job/serve.rs on small inputs.
use cloud_devenv_sh.Base.{refl, some, [], ◌∷◌, false, ◌≡◌, true, ◌≤◌, ◌+◌}
use cloud_devenv_sh.Backend.Jobs.Tests.{table, queued_job}
use cloud_devenv_sh.Backend.Jobs.{Job}
use cloud_devenv_sh.Backend.Dispatch.{Server, World}
use cloud_devenv_sh.Backend.Dispatch.Offers.{grants, claim_all, job_given_at_most_once}
use cloud_devenv_sh.Protocol.{Vm, JobStatus, Platform}
use cloud_devenv_sh.Runner.Client.{new_client, target_platform, Os, Arch, request_headers}
use cloud_devenv_sh.Backend.Dispatch.Upgrade.{handler, IsKnownAs, connected-IsKnownAs}

abbrev world : World
world = record {
  now = 70;
  locked = λ id. false;
  github_answers = true;
  socket_ok = true;
  uuid_text = λ id. "id";
}

abbrev claimed_job : Job
claimed_job = record queued_job {
  status = JobStatus.running;
  started_at = some 10;
  runner_id = some 9;
}

abbrev server : Server
server = record {
  jobs = table;
  runners = (9, Platform.x86_64_linux) ∷ [];
  channels = (9, []) ∷ [];
  sent = [];
  logger_url = "l";
}

abbrev busy_server : Server
busy_server = record server { jobs = (2, claimed_job) ∷ [] }

abbrev machine : Vm
machine = record { cpu_count = 2; memory_size_mb = 256; platform = Platform.x86_64_linux }

job_given_at_most_once_example :
    grants 2 (claim_all 2 ((world, 9, machine) ∷ (world, 8, machine) ∷ []) server).sent
    ≤ grants 2 server.sent + 1
job_given_at_most_once_example =
    job_given_at_most_once 2 ((world, 9, machine) ∷ (world, 8, machine) ∷ []) server

connected-IsKnownAs_example :
    (p : Platform) × (target_platform Os.macos Arch.aarch64 ≡ some p)
    × IsKnownAs 12 p
        (handler 12 true (request_headers "localhost" "key" Platform.aarch64_darwin) server).0
unfolding new_client handler target_platform
connected-IsKnownAs_example =
    connected-IsKnownAs Os.macos Arch.aarch64 "localhost" "key"
      (request_headers "localhost" "key" Platform.aarch64_darwin) 12 server
      (handler 12 true (request_headers "localhost" "key" Platform.aarch64_darwin) server).0 refl
      refl
