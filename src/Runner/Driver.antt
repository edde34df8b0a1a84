-- ===== src/Runner/Driver.antt =====
-- runner/src/bin/driver.rs: the program that runs inside the machine. It gets the job from the host, sets
-- the machine up, clones the repository, runs devenv, and reports. Its log is not modelled here.
pub mod Actions
mod Keeps
mod Privileges
pub mod Reports
mod Tests
use Prim.Native.String.{String}
use cloud_devenv_sh.Base.{Option, Bool, ℕ, if◌then◌else◌, some, ◌==◌, none, ◌∷◌}
use cloud_devenv_sh.Runner.Driver.Actions.{
  ◌>>=◌, ◌>>◌, World, attempt, ignore, is_set, perform, Action, run_status, pure, Call, Result,
  modify, require, Process, set_var, Command,
}
use cloud_devenv_sh.Protocol.{Platform, VsockGuestMessage}

abbrev pub project_dir : Platform → String
project_dir Platform.x86_64_linux = "/home/devenv"
project_dir Platform.aarch64_darwin = "/Users/admin/devenv"

-- The code of one platform only.
abbrev pub on_linux : Platform → Action (Unit {0}) → Action (Unit {0})
on_linux Platform.x86_64_linux m = m
on_linux Platform.aarch64_darwin m = pure tt

unfoldable pub create_nix_dirs : World → Action (Unit {0})
unfolding perform
create_nix_dirs w = do
  perform w (Call.create_dir_all "/nix/var/nix/db")
  perform w (Call.create_dir_all "/nix/var/nix/profiles")
  perform w (Call.create_dir_all "/nix/var/nix/gcroots")
  perform w (Call.create_dir_all "/nix/var/nix/temproots")
  perform w (Call.create_dir_all "/nix/var/log/nix")

-- The single-user Nix of the machine.
unfoldable pub setup_nix : World → Action (Unit {0})
unfolding perform run_status create_nix_dirs
setup_nix w = do
  perform w Call.configure_network
  require w.nix_binary_path_exists
  perform w Call.read_nix_binary_path
  set_var "DEVENV_NIX" w.nix_store_path
  set_var "PATH" "/bin"
  create_nix_dirs w
  run_status w (Command.chown_nix 0)
  perform w Call.open_registration
  run_status w (Command.load_db w.nix_store_path)
  run_status w (Command.chown_nix 1)

unfoldable pub drop_privileges : World → Action (Unit {0})
unfolding perform
drop_privileges w = do
  perform w (Call.setgid 100)
  modify (λ (g : Process). record g { gid = 100 })
  perform w (Call.setuid 1000)
  modify (λ (g : Process). record g { uid = 1000 })

-- A variable that is not set gets the default certificate, which has to exist.
unfoldable pub ensure_cert : World → String → Action (Unit {0})
unfolding is_set
ensure_cert w name g =
    if is_set name g.vars
    then (Result.ok tt, g)
    else (do require w.cert_path_exists; set_var name "/etc/ssl/certs/ca-bundle.crt") g

-- `NonZeroU32::new` of the depth, where there is one.
abbrev pub shallow : Option ℕ → Option ℕ
shallow none = none
shallow (some n) = if n == 0 then none else some n

abbrev pub with_ref : World → Option String → Action (Unit {0})
with_ref w none = pure tt
with_ref w (some git_ref) = perform w (Call.with_ref_name git_ref)

unfoldable pub clone_repository : World → Action (Unit {0})
unfolding perform ensure_cert
clone_repository w = do
  ensure_cert w "SSL_CERT_FILE"
  ensure_cert w "NIX_SSL_CERT_FILE"
  perform w (Call.prepare_clone w.job_config.project_url)
  with_ref w w.job_config.git_ref
  perform w (Call.fetch_then_checkout (shallow w.job_config.clone_depth))
  perform w Call.main_worktree

unfoldable pub run_devenv : World → String → Action (Unit {0})
unfolding perform
run_devenv w dir = do
  perform w (Call.set_current_dir dir)
  perform w (Call.load_config dir)
  perform w Call.assemble
  perform w Call.build

-- `main` up to the drop of the privileges.
unfoldable pub start_up : World → Platform → Action (Unit {0})
unfolding perform setup_nix
start_up w platform = do
  on_linux platform (perform w Call.launch_pid1)
  perform w Call.receive_config
  on_linux platform (setup_nix w)

-- From there up to the run of devenv.
unfoldable pub fetch_project : World → Platform → Action (Unit {0})
unfolding perform clone_repository
fetch_project w platform = do
  perform w (Call.create_dir_all (project_dir platform))
  clone_repository w

unfoldable pub prepare : World → Platform → Action (Unit {0})
unfolding start_up drop_privileges fetch_project
prepare w platform = do
  start_up w platform
  on_linux platform (drop_privileges w)
  fetch_project w platform

-- The message is sent if the write works; an error is only logged.
unfoldable pub report : World → Bool → Action (Unit {0})
unfolding ignore
report w success = do
  sent ← ignore w (Call.report_complete success)
  modify (λ (g : Process).
      if sent
      then record g { reports = VsockGuestMessage.complete w.job_config.id success ∷ g.reports }
      else g)

unfoldable pub halt_machine : World → Platform → Action (Unit {0})
unfolding ignore
halt_machine w Platform.x86_64_linux = do
  done ← ignore w Call.sync
  done' ← ignore w Call.reboot
  pure tt
halt_machine w Platform.aarch64_darwin = do done ← ignore w Call.spawn_shutdown; pure tt

-- What follows the run of devenv.
unfoldable pub finish : World → Platform → Bool → Action (Unit {0})
unfolding report halt_machine
finish w platform success = do report w success; halt_machine w platform; require success

unfoldable pub main : World → Platform → Action (Unit {0})
unfolding prepare attempt run_devenv finish
main w platform = do
  prepare w platform
  success ← attempt (run_devenv w (project_dir platform))
  finish w platform success
