-- ===== src/Backend/CloudConfig/Tests.antt =====
-- Runs of backend/src/runner/cloudconfig.rs on small documents.
use cloud_devenv_sh.Backend.CloudConfig.Machines.{final_cloud_new-exact_bytes, Means, resolve_exact}
use cloud_devenv_sh.Base.{◌≡◌, ◌↔◌, refl, [], ◌∷◌, some, none, List, Option, All, ◌*◌}
use cloud_devenv_sh.Base.Texts.{
  Text, is_whitespace, is_digit, ends_with, trim, to_lowercase, trim_end, trim_start, text_eq,
  parse_u32, trim_end_matches, is_repeated,
}
use cloud_devenv_sh.Backend.CloudConfig.{
  Cloud, parse_memory, resolve, Parsed, PlatformConfig, x86_64_linux_name, aarch64_darwin_name,
  final_cloud_new, machines_of,
}
use cloud_devenv_sh.Protocol.{Vm, Platform}
use cloud_devenv_sh.Backend.CloudConfig.Memory.{parse_memory-numeral}
use cloud_devenv_sh.Runner.Resources.{memory_bytes}

-- A gigabyte more than 32 bits of megabytes hold.
parse_memory_wraps :
    parse_memory (b'4' ∷ b'1' ∷ b'9' ∷ b'4' ∷ b'3' ∷ b'0' ∷ b'4' ∷ b'g' ∷ b'b' ∷ []) ≡ Parsed.ok 0
unfolding parse_memory trim ends_with to_lowercase trim_end trim_start is_whitespace text_eq
    parse_u32 trim_end_matches is_repeated is_digit
parse_memory_wraps = refl

parse_memory-numeral_example :
    parse_memory (b' ' ∷ b'8' ∷ b'0' ∷ b' ' ∷ b'G' ∷ b'b' ∷ []) ≡ Parsed.ok 81920
unfolding is_whitespace is_digit
parse_memory-numeral_example =
    parse_memory-numeral (b' ' ∷ []) b'8' (b'0' ∷ []) (b' ' ∷ []) b'G' b'b' [] 1024 (refl, tt)
      (refl, (refl, tt)) (refl, tt) tt refl refl

-- One machine of the cloud's memory and one of its own.
abbrev sample : Cloud
sample = record {
  memory = some (b'2' ∷ b'0' ∷ b'0' ∷ b'm' ∷ b'b' ∷ []);
  cpus = none;
  platforms = some (
      PlatformConfig.detailed x86_64_linux_name (some (b'1' ∷ b'g' ∷ b'b' ∷ [])) (some 4)
      ∷ PlatformConfig.simple aarch64_darwin_name
      ∷ []);
}

abbrev sample_machines : List Vm
sample_machines =
    record { cpu_count = 4; memory_size_mb = 1024; platform = Platform.x86_64_linux }
    ∷ record { cpu_count = 2; memory_size_mb = 200; platform = Platform.aarch64_darwin }
    ∷ []

resolve_exact_example : (resolve sample ≡ Parsed.ok sample_machines) ↔ Means sample sample_machines
resolve_exact_example = resolve_exact sample sample_machines

abbrev from_sample : Text → Option Cloud
from_sample s = some sample

final_cloud_new-exact_bytes_example :
    All
      (λ (vm : Vm). memory_bytes vm.memory_size_mb ≡ vm.memory_size_mb * (1024 * 1024))
      sample_machines
unfolding final_cloud_new resolve machines_of parse_memory ends_with to_lowercase trim_end
    trim_start is_whitespace text_eq parse_u32 trim_end_matches is_repeated is_digit
final_cloud_new-exact_bytes_example =
    final_cloud_new-exact_bytes from_sample [] sample_machines refl
