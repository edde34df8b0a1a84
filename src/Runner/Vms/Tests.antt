-- ===== src/Runner/Vms/Tests.antt =====
-- Runs of the machine task of runner/src/vm_manager.rs on small inputs.
use cloud_devenv_sh.Runner.Vms.Completion.{vm_task-completes, outcome}
use cloud_devenv_sh.Base.{some, [], ◌∷◌, true, false, ◌≡◌, ◌++◌, ℕ, ◌==◌}
use cloud_devenv_sh.Runner.Vms.{
  Machine, VmManager, Selected, VmCommand, VmExitStatus, vm_task_impl, is_vm_running,
}

abbrev stopped_machine : Machine
stopped_machine = record {
  create_ok = true;
  set_job_config_ok = true;
  start_ok = true;
  selected = Selected.commanded VmCommand.shutdown;
  shutdown_ok = false;
  wait_again = some VmExitStatus.success;
}

abbrev two_machines : VmManager
two_machines = record { control_channels = (4, []) ∷ (5, []) ∷ []; completions = [] }

vm_task-completes_example :
    ((vm_task_impl 4 stopped_machine two_machines).0.completions
      ≡ two_machines.completions ++ record { job_id = 4; status = outcome stopped_machine } ∷ [])
    × (is_vm_running 4 (vm_task_impl 4 stopped_machine two_machines).0 ≡ false)
    × ((j : ℕ)
        → (4 == j) ≡ false
        → is_vm_running j (vm_task_impl 4 stopped_machine two_machines).0
          ≡ is_vm_running j two_machines)
vm_task-completes_example = vm_task-completes 4 stopped_machine two_machines
