-- ===== src/Runner/MainLoop/Tests.antt =====
-- Runs of the main loop of runner/src/bin/runner.rs on small inputs.
use cloud_devenv_sh.Runner.MainLoop.Messages.{claim_only_if_fits, left}
use cloud_devenv_sh.Runner.Jobs
use cloud_devenv_sh.Base.{refl, some, [], ◌∷◌, ◌≡◌, true, ◌≤◌, false, none, ◌⊎◌, ℕ, ◌++◌}
use cloud_devenv_sh.Runner.Resources.Tests.{limits, small}
use cloud_devenv_sh.Runner.Jobs.{
  update_job_status, JobInfo, active_job_count, get_job, new_info, register_job, set_job_running,
  send_event, complete_job, set_status, transition_allowed,
}
use cloud_devenv_sh.Runner.MainLoop.Rounds.{
  main_round, new_runner, all_done, nth, resume, LoopEvent, select_arm, Loop, after_message, Reach,
  Step,
}
use cloud_devenv_sh.Runner.MainLoop.Reports.{reports}
use cloud_devenv_sh.Runner.MainLoop.{
  Runner, claimed_config, handle_server_message, handle_job_claimed, handle_job_cancelled,
  send_message, handle_completion, handle_status_event,
}
use cloud_devenv_sh.Base.Maps.{get, insert, remove, contains_key, update}
use cloud_devenv_sh.Protocol.{
  JobStatus, Platform, CompletionStatus, ServerMessage, status_eq, Vm, ClientMessage,
}
use cloud_devenv_sh.Runner.MainLoop.AtMostOnce.{end_reported_at_most_once}
use cloud_devenv_sh.Runner.MainLoop.Exit.{requests, last_end_unreported, shutting_down_asks_nothing}
use cloud_devenv_sh.Runner.Vms.{
  launch_vm, is_vm_running, shutdown_vm, Machine, VmCompletionEvent, vm_task_impl, Selected,
  VmExitStatus, boot, exit_to_completion, send_completion, new_manager,
}
use cloud_devenv_sh.Runner.Resources.{can_allocate}

-- A runner with the machine of the running job 4.
abbrev running_job : JobInfo
running_job = record (new_info 4 (claimed_config 4)) { status = JobStatus.running }

abbrev idle_runner : Runner
idle_runner = new_runner Platform.x86_64_linux limits

abbrev busy_runner : Runner
busy_runner = record idle_runner {
  jobs = record { jobs = (4, running_job) ∷ []; sent = []; receiver_alive = true };
  vms = record { control_channels = (4, []) ∷ []; completions = [] };
}

abbrev stopping_runner : Runner
stopping_runner = record busy_runner { shutting_down = true }

abbrev offered_runner : Runner
offered_runner =
    left (handle_server_message (ServerMessage.new_job_available 4 small) true idle_runner)

shutting_down_asks_nothing_example :
    (stopping_runner.shutting_down ≡ true)
    × (requests stopping_runner.client_sent ≡ requests stopping_runner.client_sent)
unfolding main_round all_done select_arm handle_server_message active_job_count nth new_runner
    send_message
shutting_down_asks_nothing_example =
    shutting_down_asks_nothing LoopEvent.metrics_tick (record stopping_runner { connected = false })
      (record stopping_runner { connected = false }) refl refl

abbrev claimed_runner : Runner
claimed_runner = resume idle_runner (
    main_round (LoopEvent.message_received (ServerMessage.job_claimed 4 small "u") true)
      idle_runner)

claimed-Reach : Reach Platform.x86_64_linux limits claimed_runner
unfolding main_round all_done select_arm handle_server_message handle_job_claimed launch_vm
    after_message get_job get new_runner Jobs.new active_job_count
claimed-Reach =
    Reach.next Reach.here (
      Step.round (LoopEvent.message_received (ServerMessage.job_claimed 4 small "u") true) refl
        refl)

abbrev cancelled_runner : Runner
cancelled_runner =
    resume claimed_runner
      (main_round (LoopEvent.message_received (ServerMessage.job_cancelled 4) true) claimed_runner)

cancelled-Reach : Reach Platform.x86_64_linux limits cancelled_runner
unfolding main_round all_done select_arm handle_server_message handle_job_claimed launch_vm
    after_message get_job get new_runner Jobs.new active_job_count handle_job_cancelled shutdown_vm
    insert remove
cancelled-Reach =
    Reach.next claimed-Reach
      (Step.round (LoopEvent.message_received (ServerMessage.job_cancelled 4) true) tt refl)

end_reported_at_most_once_example : reports 4 cancelled_runner.client_sent ≤ 1
end_reported_at_most_once_example = end_reported_at_most_once 4 cancelled-Reach

-- Job 4 is claimed, its two first events are read, the runner is told to shut down, the machine's task
-- ends and its completion is handled; the end of the job is not read yet.
abbrev after : LoopEvent → Runner → Runner
after e r = resume r (main_round e r)

abbrev failed_machine : Machine
failed_machine = record {
  create_ok = false;
  set_job_config_ok = true;
  start_ok = true;
  selected = Selected.exited none;
  shutdown_ok = true;
  wait_again = none;
}

abbrev waiting_runner : Runner
waiting_runner =
    after LoopEvent.shutdown_signal
      (after LoopEvent.status_event (after LoopEvent.status_event claimed_runner))

abbrev exited_runner : Runner
exited_runner = record waiting_runner { vms = (vm_task_impl 4 failed_machine waiting_runner.vms).0 }

abbrev ended_event : VmCompletionEvent
ended_event = record { job_id = 4; status = VmExitStatus.failure }

abbrev ended_runner : Runner
ended_runner = handle_completion ended_event exited_runner

ended-Reach : Reach Platform.x86_64_linux limits ended_runner
unfolding main_round all_done select_arm handle_server_message handle_job_claimed launch_vm
    after_message get_job get new_runner Jobs.new active_job_count register_job set_job_running
    update_job_status send_event nth handle_status_event vm_task_impl boot send_completion
    is_vm_running contains_key insert remove new_info claimed_config status_eq transition_allowed
    new_manager
ended-Reach =
    Reach.next
      (Reach.next
        (Reach.next
          (Reach.next (Reach.next claimed-Reach (Step.round LoopEvent.status_event tt refl))
            (Step.round LoopEvent.status_event tt refl))
          (Step.round LoopEvent.shutdown_signal tt refl))
        (Step.vm_task 4 failed_machine refl refl))
      (Step.completion ended_event refl refl)

last_end_unreported_example :
    ((e : LoopEvent) → main_round e ended_runner ≡ some (Loop.leaves ended_runner))
    × (reports 4 ended_runner.client_sent ≡ 0)
unfolding main_round all_done select_arm handle_server_message handle_job_claimed launch_vm
    after_message get_job get new_runner Jobs.new active_job_count register_job set_job_running
    update_job_status send_event nth handle_status_event handle_completion complete_job
    exit_to_completion insert remove update new_info set_status claimed_config transition_allowed
    status_eq
last_end_unreported_example =
    last_end_unreported 4 CompletionStatus.failed
      (record { job_id = 4; status = JobStatus.complete CompletionStatus.failed }) ended-Reach refl
      refl refl refl refl

claim_only_if_fits_example :
    (offered_runner.client_sent ≡ idle_runner.client_sent)
    ⊎ ((id : ℕ) × (vm : Vm) × (ServerMessage.new_job_available 4 small
          ≡ ServerMessage.new_job_available id vm)
        × (idle_runner.shutting_down ≡ false)
        × (can_allocate idle_runner.resources.limits vm.cpu_count vm.memory_size_mb
              idle_runner.resources.allocation
            ≡ true)
        × (offered_runner.client_sent
            ≡ idle_runner.client_sent ++ ClientMessage.claim_job id vm ∷ []))
claim_only_if_fits_example =
    claim_only_if_fits (ServerMessage.new_job_available 4 small) true idle_runner
