-- ===== src/Runner/Driver/Tests.antt =====
-- Runs of runner/src/bin/driver.rs in a small world.
use cloud_devenv_sh.Protocol.{JobConfig, Platform}
use cloud_devenv_sh.Runner.Driver.Actions.{Call, Process, World}
use cloud_devenv_sh.Runner.Driver.Reports.{Told, main-Told}
use cloud_devenv_sh.Runner.Driver.Privileges.{AllUnprivileged, main-AllUnprivileged}
use cloud_devenv_sh.Runner.Driver.{main}
use cloud_devenv_sh.Base.{Bool, [], some, true, false, refl}

abbrev config : JobConfig
config = record {
  id = 4;
  project_url = "https://example.org/repo";
  git_ref = some "main";
  tasks = [];
  cachix_push = false;
  clone_depth = some 1;
}

-- Everything works but the build.
abbrev works : Call → Bool
works Call.build = false
works _ = true

abbrev world : World
world = record {
  call = works;
  status = λ c. true;
  nix_binary_path_exists = true;
  nix_store_path = "/nix/store/nix";
  cert_path_exists = true;
  job_config = config;
}

abbrev booted : Process
booted = record { uid = 0; gid = 0; vars = []; steps = []; reports = [] }

main-AllUnprivileged_example : AllUnprivileged (main world Platform.x86_64_linux booted).1
main-AllUnprivileged_example = main-AllUnprivileged world booted tt

main-Told_example : Told world Platform.aarch64_darwin booted
main-Told_example = main-Told world Platform.aarch64_darwin booted refl
