-- ===== src/Runner/Macos/Tests.antt =====
-- Runs of runner/src/vm_impl/macos.rs on small inputs.
use cloud_devenv_sh.Runner.Macos.{new_vm, turn, MacosVm, MachineState, Framework, VmImageConfig}
use cloud_devenv_sh.Runner.Driver.{
  prepare, start_up, fetch_project, clone_repository, ensure_cert, run_devenv, project_dir,
}
use cloud_devenv_sh.Runner.Resources.{new, new_state}
use cloud_devenv_sh.Runner.Resources.Guards.{start}
use cloud_devenv_sh.Runner.Resources.Tests.{limits}
use cloud_devenv_sh.Runner.Driver.Actions.{ok, err, perform, is_set, World, Call, Process}
use cloud_devenv_sh.Protocol.{Vm, Platform, JobConfig}
use cloud_devenv_sh.Base.{
  true, some, false, Bool, [], none, ℕ, ◌≡◌, if◌then◌else◌, refl, ◌<◌, arith, ◌==◌,
}
use cloud_devenv_sh.Runner.Macos.Waiting.{Completes, failed_job-Completes}
use cloud_devenv_sh.Base.Maps.{get}
use cloud_devenv_sh.Runner.Macos.Guarded.{NewVm, new_vm-NewVm}

abbrev vm : Vm
vm = record { cpu_count = 2; memory_size_mb = 1024; platform = Platform.aarch64_darwin }

abbrev image : VmImageConfig
image = record {
  version = 1;
  arch = "arm64";
  os = "darwin";
  cpu_count = 2;
  cpu_count_min = 1;
  memory_size = 1024;
  memory_size_min = 512;
  ecid = "ecid";
  hardware_model = "model";
  mac_address = "";
  display = record { width = 1920; height = 1080 };
}

-- The disk is missing, so `new` panics.
abbrev framework : Framework
framework = record {
  tempdir = true;
  resources_dir_is_set = true;
  config_file = some "config";
  parse = λ s. some image;
  hardware_model = λ s. true;
  machine_identifier = λ s. true;
  disk = false;
  is_valid = λ c. true;
  mac_address = "02:00:00:00:00:01";
}

-- The addresses and the context ids stay as they are, and nothing holds the resources.
new_vm-NewVm_example : NewVm (start limits) (new_vm framework 1 10 vm (start limits))
unfolding get start new new_state
new_vm-NewVm_example = new_vm-NewVm framework 1 10 vm (start limits) refl

abbrev config : JobConfig
config = record {
  id = 4;
  project_url = "https://example.org/repo";
  git_ref = some "main";
  tasks = [];
  cachix_push = false;
  clone_depth = some 1;
}

abbrev machine : MacosVm
machine = record {
  id = 1;
  config = vm;
  resource_guard = record { job_id = some 10; vm = some vm };
  mac_address = "02:00:00:00:00:01";
  job_config = none;
  connection = record { job_result = some none; notified = false; logs = [] };
}

-- Everything works but the build.
abbrev works : Call → Bool
works Call.build = false
works _ = true

abbrev world : World
world = record {
  call = works;
  status = λ c. true;
  nix_binary_path_exists = true;
  nix_store_path = "/nix/store/nix";
  cert_path_exists = true;
  job_config = config;
}

abbrev booted : Process
booted = record { uid = 0; gid = 0; vars = []; steps = []; reports = [] }

abbrev prepared : Process
prepared = (prepare world Platform.aarch64_darwin booted).1

ready : prepare world Platform.aarch64_darwin booted ≡ (ok tt, prepared)
unfolding prepare start_up fetch_project clone_repository ensure_cert perform is_set
ready = refl

fails : (run_devenv world (project_dir Platform.aarch64_darwin) prepared).0 ≡ err
unfolding run_devenv perform
fails = refl

abbrev states : ℕ → MachineState
states k = if k == 0 then MachineState.running else MachineState.stopped

waits : (k : ℕ) → k < 1 → turn (states k) ≡ none
unfolding turn
waits k h = ground (arith, h)

failed_job-Completes_example : Completes world booted machine.connection 2 states
failed_job-Completes_example =
    failed_job-Completes world booted prepared machine.connection none 1 0 states refl refl ready
      fails refl refl waits refl
