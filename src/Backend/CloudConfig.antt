-- ===== src/Backend/CloudConfig.antt =====
-- backend/src/runner/cloudconfig.rs: the machines of a devenv.yaml. The parser of YAML (serde_yaml) is a
-- parameter, which gives what `Config` derives from the document.
mod Memory
mod Machines
mod Tests
use cloud_devenv_sh.Base.{
  ℕ, none, some, Bool, Option, List, ◌∷◌, [], true, false, if◌then◌else◌, ◌*◌, ◌%◌, ◌^◌,
}
use cloud_devenv_sh.Base.Texts.{
  Text, to_lowercase, trim, ends_with, text_eq, parse_u32, trim_end_matches,
}
use cloud_devenv_sh.Protocol.{Vm, Platform}

pub data ConfigError : Type 0 where
  invalid_yaml : ConfigError
  invalid_memory_size : ConfigError
  memory_without_unit : ConfigError
  unsupported_platform : Text → ConfigError

pub data Parsed {ℓ} (A : Type ℓ) : Type ℓ where
  ok : A → Parsed A
  err : ConfigError → Parsed A

pub data PlatformConfig : Type 0 where
  simple : Text → PlatformConfig
  -- the name, and what overrides the memory and the processors of the cloud
  detailed : Text → Option Text → Option ℕ → PlatformConfig

pub record Cloud : Type 0 where
  pub memory : Option Text
  pub cpus : Option ℕ
  pub platforms : Option (List PlatformConfig)

abbrev pub num_or_invalid : Option ℕ → (ℕ → ℕ) → Parsed ℕ
num_or_invalid none f = Parsed.err ConfigError.invalid_memory_size
num_or_invalid (some num) f = Parsed.ok (f num)

-- In megabytes; the product is one of `u32`.
unfoldable pub parse_memory : Text → Parsed ℕ
parse_memory text =
    let s = to_lowercase (trim text) in
    if ends_with s (b'g' ∷ b'b' ∷ [])
    then num_or_invalid (parse_u32 (trim (trim_end_matches b'g' b'b' s)))
        (λ (num : ℕ). num * 1024 % 2 ^ 32)
    else if ends_with s (b'm' ∷ b'b' ∷ [])
    then num_or_invalid (parse_u32 (trim (trim_end_matches b'm' b'b' s))) (λ (num : ℕ). num)
    else Parsed.err ConfigError.memory_without_unit

abbrev pub x86_64_linux_name : Text
x86_64_linux_name =
    b'x' ∷ b'8' ∷ b'6' ∷ b'_' ∷ b'6' ∷ b'4' ∷ b'-' ∷ b'l' ∷ b'i' ∷ b'n' ∷ b'u' ∷ b'x' ∷ []

abbrev pub aarch64_darwin_name : Text
aarch64_darwin_name =
    b'a' ∷ b'a' ∷ b'r' ∷ b'c' ∷ b'h' ∷ b'6' ∷ b'4' ∷ b'-' ∷ b'd' ∷ b'a' ∷ b'r' ∷ b'w' ∷ b'i' ∷ b'n'
    ∷ []

unfoldable pub platform_of : Text → Option Platform
platform_of name =
    if text_eq name x86_64_linux_name
    then some Platform.x86_64_linux
    else if text_eq name aarch64_darwin_name
    then some Platform.aarch64_darwin
    else none

abbrev pub name_of : PlatformConfig → Text
name_of (PlatformConfig.simple name) = name
name_of (PlatformConfig.detailed name memory cpus) = name

abbrev pub memory_of : PlatformConfig → Option Text
memory_of (PlatformConfig.simple name) = none
memory_of (PlatformConfig.detailed name memory cpus) = memory

abbrev pub cpus_of : PlatformConfig → Option ℕ
cpus_of (PlatformConfig.simple name) = none
cpus_of (PlatformConfig.detailed name memory cpus) = cpus

abbrev pub unwrap_or {ℓ} : {A : Type ℓ} → Option A → A → A
unwrap_or none d = d
unwrap_or (some a) d = a

-- The closure that makes the machine of one platform from the settings of the cloud.
unfoldable pub machine_of : ℕ → ℕ → PlatformConfig → Parsed Vm
unfolding platform_of parse_memory
machine_of cloud_memory_mb cloud_cpus p = elim (platform_of (name_of p)) [
  | none ↦ Parsed.err (ConfigError.unsupported_platform (name_of p))
  | some platform ↦
      let memory : Parsed ℕ = elim (memory_of p) [
        | none ↦ Parsed.ok cloud_memory_mb
        | some s ↦ parse_memory s
      ] in
      elim memory [
        | Parsed.err e ↦ Parsed.err e
        | Parsed.ok memory_mb ↦ Parsed.ok (record {
          cpu_count = unwrap_or (cpus_of p) cloud_cpus;
          memory_size_mb = memory_mb;
          platform = platform;
        })
      ]
]

-- `collect` into a result: the first error ends it.
unfoldable pub machines_of : ℕ → ℕ → List PlatformConfig → Parsed (List Vm)
unfolding machine_of
machines_of memory cpus [] = Parsed.ok []
machines_of memory cpus (p ∷ ps) =
    let rest = machines_of memory cpus ps in
    elim (machine_of memory cpus p) [
      | Parsed.err e ↦ Parsed.err e
      | Parsed.ok vm ↦ elim rest [
        | Parsed.err e ↦ Parsed.err e
        | Parsed.ok vms ↦ Parsed.ok (vm ∷ vms)
      ]
    ]

abbrev pub default_memory : Text
default_memory = b'4' ∷ b'g' ∷ b'b' ∷ []

abbrev pub default_platforms : List PlatformConfig
default_platforms =
    PlatformConfig.simple x86_64_linux_name ∷ PlatformConfig.simple aarch64_darwin_name ∷ []

-- What follows the parser.
unfoldable pub resolve : Cloud → Parsed (List Vm)
unfolding parse_memory machines_of
resolve cloud = elim (parse_memory (unwrap_or cloud.memory default_memory)) [
  | Parsed.err e ↦ Parsed.err e
  | Parsed.ok memory ↦
      machines_of memory (unwrap_or cloud.cpus 2) (unwrap_or cloud.platforms default_platforms)
]

module _ (from_str : Text → Option Cloud) where
  unfoldable pub final_cloud_new : Text → Parsed (List Vm)
  unfolding resolve trim
  final_cloud_new s =
      let yaml = if text_eq (trim s) [] then b'{' ∷ b'}' ∷ [] else s in
      elim (from_str yaml) [
        | none ↦ Parsed.err ConfigError.invalid_yaml
        | some cloud ↦ resolve cloud
      ]
