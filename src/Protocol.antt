-- ===== src/Protocol.antt =====
-- runner/src/protocol.rs: the messages between the backend, the runner and the guest.
-- A `Uuid` is a number; a text is a `String`, and a `HashMap<String, String>` a list of pairs.
use Prim.Native.String.{String}
use text.Mathlib.Text.{◌==◌ as str_eq}
use cloud_devenv_sh.Base.{ℕ, Bool, List, Option, none, some, if◌then◌else◌}

pub data Platform : Type 0 where
  x86_64_linux aarch64_darwin : Platform

-- `Display for Platform`.
unfoldable pub platform_to_string : Platform → String
platform_to_string Platform.x86_64_linux = "x86_64-linux"
platform_to_string Platform.aarch64_darwin = "aarch64-darwin"

-- `FromStr for Platform`; the text of the error is left out.
unfoldable pub platform_from_str : String → Option Platform
platform_from_str s =
    if str_eq s "x86_64-linux"
    then some Platform.x86_64_linux
    else if str_eq s "aarch64-darwin"
    then some Platform.aarch64_darwin
    else none

pub record Vm : Type 0 where
  pub cpu_count : ℕ
  pub memory_size_mb : ℕ
  pub platform : Platform

pub record JobConfig : Type 0 where
  pub id : ℕ
  pub project_url : String
  pub git_ref : Option String
  pub tasks : List String
  pub cachix_push : Bool
  pub clone_depth : Option ℕ

pub data VsockHostMessage : Type 0 where
  job_config : JobConfig → VsockHostMessage

pub record LogEntry : Type 0 where
  pub level : String
  pub target : String
  pub message : String
  pub fields : List (String × String)

pub data VsockGuestMessage : Type 0 where
  ready : ℕ → VsockGuestMessage
  complete : ℕ → Bool → VsockGuestMessage
  log : ℕ → LogEntry → VsockGuestMessage

pub data CompletionStatus : Type 0 where
  failed success cancelled timed_out skipped : CompletionStatus

pub data JobStatus : Type 0 where
  queued running : JobStatus
  complete : CompletionStatus → JobStatus

pub data ServerMessage : Type 0 where
  new_job_available : ℕ → Vm → ServerMessage
  job_claimed : ℕ → Vm → String → ServerMessage
  job_timed_out : ℕ → ServerMessage
  job_cancelled : ℕ → ServerMessage

-- The two `f32` percentages are left out: they are computed from the fields kept here, and are
-- only shown.
pub record RunnerMetrics : Type 0 where
  pub platform : Platform
  pub cpu_count : ℕ
  pub memory_size_mb : ℕ
  pub used_cpu_count : ℕ
  pub used_memory_mb : ℕ
  pub active_jobs : ℕ
  pub queued_jobs : ℕ
  pub running_jobs : ℕ
  pub max_instances : Option ℕ

pub data ClientMessage : Type 0 where
  claim_job : ℕ → Vm → ClientMessage
  update_job_status : ℕ → JobStatus → ClientMessage
  request_job : ClientMessage
  report_metrics : RunnerMetrics → ClientMessage

-- The derived equality of `CompletionStatus`.
unfoldable pub completion_eq : CompletionStatus → CompletionStatus → Bool
completion_eq CompletionStatus.failed CompletionStatus.failed = Bool.true
completion_eq CompletionStatus.success CompletionStatus.success = Bool.true
completion_eq CompletionStatus.cancelled CompletionStatus.cancelled = Bool.true
completion_eq CompletionStatus.timed_out CompletionStatus.timed_out = Bool.true
completion_eq CompletionStatus.skipped CompletionStatus.skipped = Bool.true
completion_eq _ _ = Bool.false

-- The derived equality of `JobStatus`.
unfoldable pub status_eq : JobStatus → JobStatus → Bool
unfolding completion_eq
status_eq JobStatus.queued JobStatus.queued = Bool.true
status_eq JobStatus.running JobStatus.running = Bool.true
status_eq (JobStatus.complete c) (JobStatus.complete d) = completion_eq c d
status_eq _ _ = Bool.false
