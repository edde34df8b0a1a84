-- ===== src/Runner/Resources/Platforms.antt =====
-- runner/src/resource_manager.rs: the limits of a runner by its platform. What the system has is a
-- parameter.
use cloud_devenv_sh.Runner.Resources.{ResourceLimits}
use cloud_devenv_sh.Base.{ℕ, List, Option, length, some, none}
use cloud_devenv_sh.Protocol.{Platform}

unfoldable pub limits_new : ℕ → ℕ → Option ℕ → ResourceLimits
limits_new max_cpus max_memory_bytes max_instances = record {
  max_cpus = max_cpus;
  max_memory_bytes = max_memory_bytes;
  max_instances = max_instances;
}

abbrev pub instances_of : Platform → Option ℕ
instances_of Platform.aarch64_darwin = some 1
instances_of Platform.x86_64_linux = none

unfoldable pub from_system_resources : Platform → ℕ → ℕ → ResourceLimits
from_system_resources platform max_cpus max_memory_bytes = record {
  max_cpus = max_cpus;
  max_memory_bytes = max_memory_bytes;
  max_instances = instances_of platform;
}

-- Of the processors and the memory that sysinfo finds.
unfoldable pub with_platform_defaults : Platform → List ℕ → ℕ → ResourceLimits
with_platform_defaults platform cpus total_memory = record {
  max_cpus = length cpus;
  max_memory_bytes = total_memory;
  max_instances = instances_of platform;
}
