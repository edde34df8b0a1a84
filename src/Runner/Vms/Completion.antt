-- ===== src/Runner/Vms/Completion.antt =====
-- runner/src/vm_manager.rs, `vm_task_impl`: what a task leaves behind, whatever its machine does.
use cloud_devenv_sh.Base.{ℕ, if◌then◌else◌, ◌&&◌, ◌≡◌, false, ◌++◌, arith, ◌∷◌, [], ◌==◌, ==_refl}
use cloud_devenv_sh.Runner.Vms.{
  Machine, vm_task_impl, VmExitStatus, boot, await_exit, send_completion, close_channel, VmManager,
  is_vm_running, Selected, or_failure,
}
use cloud_devenv_sh.Base.Maps.{get-remove, contains_key}

-- The status that a machine's answers amount to: success only if it was made, configured and
-- started, and the last wait says success.
abbrev pub outcome : Machine → VmExitStatus
outcome v =
    if v.create_ok && v.set_job_config_ok && v.start_ok
    then elim v.selected [
      | Selected.exited status ↦ or_failure status
      | Selected.commanded c ↦ or_failure v.wait_again
    ]
    else VmExitStatus.failure

-- Whatever the machine answers, its task sends exactly one completion event, for its own job and with
-- the status that the answers amount to, and removes its own control channel and no other.
pub vm_task-completes :
    (job_id : ℕ) (v : Machine) (m : VmManager)
    → ((vm_task_impl job_id v m).0.completions
        ≡ m.completions ++ record { job_id = job_id; status = outcome v } ∷ [])
      × (is_vm_running job_id (vm_task_impl job_id v m).0 ≡ false)
      × ((j : ℕ)
          → (job_id == j) ≡ false
          → is_vm_running j (vm_task_impl job_id v m).0 ≡ is_vm_running j m)
unfolding vm_task_impl boot await_exit send_completion close_channel is_vm_running contains_key
vm_task-completes job_id v m = (
  ground arith,
  ground (arith, get-remove job_id job_id m.control_channels, ==_refl job_id),
  λ j h. ground (arith, get-remove job_id j m.control_channels, h),
)
