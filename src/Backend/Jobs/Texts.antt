-- ===== src/Backend/Jobs/Texts.antt =====
-- backend/src/job/model.rs, `ToSql` and `FromSql`, and runner/src/protocol.rs, the two traits of
-- `Platform`: the texts that stand for statuses and platforms.
use cloud_devenv_sh.Base.{◌≡◌, some, true, arith, refl}
use Prim.Native.String.{String}
use text.Mathlib.Text.{◌==◌ as str_eq}
use cloud_devenv_sh.Protocol.{
  platform_from_str, platform_to_string, JobStatus, Platform, CompletionStatus,
}
use cloud_devenv_sh.Backend.Jobs.{status_from_sql, status_to_sql}

-- The text of a status is read back as that status, and a text that is read as some status is its text.
pub status_from_sql-status_to_sql :
    (s : JobStatus)
    → (status_from_sql (status_to_sql s) ≡ some s)
      × ((text : String) → status_from_sql text ≡ some s → str_eq text (status_to_sql s) ≡ true)
unfolding status_from_sql status_to_sql
status_from_sql-status_to_sql JobStatus.queued = (refl, λ t e. ground (arith, e))
status_from_sql-status_to_sql JobStatus.running = (refl, λ t e. ground (arith, e))
status_from_sql-status_to_sql (JobStatus.complete CompletionStatus.failed) =
    (refl, λ t e. ground (arith, e))
status_from_sql-status_to_sql (JobStatus.complete CompletionStatus.success) =
    (refl, λ t e. ground (arith, e))
status_from_sql-status_to_sql (JobStatus.complete CompletionStatus.cancelled) =
    (refl, λ t e. ground (arith, e))
status_from_sql-status_to_sql (JobStatus.complete CompletionStatus.timed_out) =
    (refl, λ t e. ground (arith, e))
status_from_sql-status_to_sql (JobStatus.complete CompletionStatus.skipped) =
    (refl, λ t e. ground (arith, e))

-- The text of a platform is read back as that platform, and a text that is read as some platform is its
-- text.
pub platform_from_str-platform_to_string :
    (p : Platform)
    → (platform_from_str (platform_to_string p) ≡ some p)
      × ((text : String)
          → platform_from_str text ≡ some p
          → str_eq text (platform_to_string p) ≡ true)
unfolding platform_from_str platform_to_string
platform_from_str-platform_to_string Platform.x86_64_linux = (refl, λ t e. ground (arith, e))
platform_from_str-platform_to_string Platform.aarch64_darwin = (refl, λ t e. ground (arith, e))
