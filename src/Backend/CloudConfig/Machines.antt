-- ===== src/Backend/CloudConfig/Machines.antt =====
-- backend/src/runner/cloudconfig.rs: the machines that a document asks for.
use cloud_devenv_sh.Base.{
  ℕ, All, ◌≡◌, ◌≢◌, refl, arith, [], ◌∷◌, List, some, none, Option-cases, ◌<◌, ◌↔◌, inl, ◌^◌, inr,
  Option, ◌⊎◌, ◌*◌, if◌then◌else◌, All-imp,
}
use cloud_devenv_sh.Backend.CloudConfig.{
  PlatformConfig, machine_of, machines_of, Parsed, platform_of, name_of, memory_of, parse_memory,
  unwrap_or, cpus_of, Cloud, resolve, default_platforms, ConfigError, default_memory,
  final_cloud_new,
}
use cloud_devenv_sh.Protocol.{Vm}
use cloud_devenv_sh.Base.Texts.{Text, text_eq, trim}
use cloud_devenv_sh.Backend.CloudConfig.Memory.{parse_memory-bound}
use cloud_devenv_sh.Runner.Resources.{memory_bytes}
use cloud_devenv_sh.Runner.Resources.Refusals.{memory_bytes_exact}

-- The machine that one platform means, where the cloud means `memory` megabytes and `cpus` processors.
pub record IsMachineOf (memory cpus : ℕ) (p : PlatformConfig) (vm : Vm) : Type 0 where
  pub platform_named : platform_of (name_of p) ≡ some vm.platform
  pub own_memory : (s : Text) → memory_of p ≡ some s → parse_memory s ≡ Parsed.ok vm.memory_size_mb
  pub cloud_memory : memory_of p ≡ none → vm.memory_size_mb ≡ memory
  pub cpus_chosen : vm.cpu_count ≡ unwrap_or (cpus_of p) cpus

-- The machines in the order of the platforms, one for each.
pub data AreMachines (memory cpus : ℕ) : List PlatformConfig → List Vm → Type 0 where
  nil : AreMachines memory cpus [] []
  cons :
      {p : PlatformConfig} {vm : Vm} {ps : List PlatformConfig} {vms : List Vm}
      → IsMachineOf memory cpus p vm
      → AreMachines memory cpus ps vms
      → AreMachines memory cpus (p ∷ ps) (vm ∷ vms)

module _ (memory cpus : ℕ) where
  machine_of-IsMachineOf :
      (p : PlatformConfig) (vm : Vm)
      → machine_of memory cpus p ≡ Parsed.ok vm
      → IsMachineOf memory cpus p vm
  unfolding machine_of
  machine_of-IsMachineOf p vm h = record {
    platform_named = ground arith;
    own_memory = λ (s : Text) (e : memory_of p ≡ some s). ground arith;
    cloud_memory = λ (e : memory_of p ≡ none). ground arith;
    cpus_chosen = ground arith;
  }

  IsMachineOf-machine_of :
      (p : PlatformConfig) (vm : Vm)
      → IsMachineOf memory cpus p vm
      → machine_of memory cpus p ≡ Parsed.ok vm
  unfolding machine_of
  IsMachineOf-machine_of p vm h = elim (Option-cases (memory_of p)) [
    | inl e ↦ ground (arith, e, h.platform_named, h.cloud_memory e, h.cpus_chosen)
    | inr (s, e) ↦ ground (arith, e, h.platform_named, h.own_memory s e, h.cpus_chosen)
  ]

  machines_of-cons :
      (p : PlatformConfig) (ps : List PlatformConfig) (vm : Vm) (vms : List Vm)
      → (machines_of memory cpus (p ∷ ps) ≡ Parsed.ok (vm ∷ vms))
        ↔ ((machine_of memory cpus p ≡ Parsed.ok vm) × (machines_of memory cpus ps ≡ Parsed.ok vms))
  unfolding machines_of
  machines_of-cons p ps vm vms = ground arith

  machines_of-nothing :
      (vm : Vm) (vms : List Vm) → machines_of memory cpus [] ≢ Parsed.ok (vm ∷ vms)
  unfolding machines_of
  machines_of-nothing vm vms = ground arith

  machines_of-not_empty :
      (p : PlatformConfig) (ps : List PlatformConfig)
      → machines_of memory cpus (p ∷ ps) ≢ Parsed.ok []
  unfolding machines_of
  machines_of-not_empty p ps = ground arith

  machines_of-AreMachines :
      (ps : List PlatformConfig) (vms : List Vm)
      → machines_of memory cpus ps ≡ Parsed.ok vms
      → AreMachines memory cpus ps vms
  unfolding machines_of
  machines_of-AreMachines [] [] h = AreMachines.nil
  machines_of-AreMachines [] (vm ∷ vms) h = elim (machines_of-nothing vm vms h) [ ]
  machines_of-AreMachines (p ∷ ps) [] h = elim (machines_of-not_empty p ps h) [ ]
  machines_of-AreMachines (p ∷ ps) (vm ∷ vms) h =
      let (head, tail) = (machines_of-cons p ps vm vms).0 h in
      AreMachines.cons (machine_of-IsMachineOf p vm head) (machines_of-AreMachines ps vms tail)

  AreMachines-machines_of :
      {ps : List PlatformConfig} {vms : List Vm}
      → AreMachines memory cpus ps vms
      → machines_of memory cpus ps ≡ Parsed.ok vms
  unfolding machines_of
  AreMachines-machines_of AreMachines.nil = refl
  AreMachines-machines_of (AreMachines.cons {p} {vm} {ps} {vms} m ms) =
      (machines_of-cons p ps vm vms).1 (IsMachineOf-machine_of p vm m, AreMachines-machines_of ms)

  AreMachines-fit :
      {ps : List PlatformConfig} {vms : List Vm}
      → memory < 2 ^ 32
      → AreMachines memory cpus ps vms
      → All (λ (vm : Vm). vm.memory_size_mb < 2 ^ 32) vms
  AreMachines-fit lt AreMachines.nil = tt
  AreMachines-fit lt (AreMachines.cons {p} {vm} {ps} {vms} m ms) = (fits, AreMachines-fit lt ms)
    where
      fits : vm.memory_size_mb < 2 ^ 32
      fits = elim (Option-cases (memory_of p)) [
        | inl e ↦ ground (arith, m.cloud_memory e)
        | inr (s, e) ↦ parse_memory-bound s vm.memory_size_mb (m.own_memory s e)
      ]

Parsed-cases {ℓ} :
    {A : Type ℓ} (r : Parsed A)
    → ((e : ConfigError) × (r ≡ Parsed.err e)) ⊎ ((a : A) × (r ≡ Parsed.ok a))
Parsed-cases (Parsed.err e) = inl (e, refl)
Parsed-cases (Parsed.ok a) = inr (a, refl)

-- The settings of the cloud that the platforms inherit are 4 gigabytes and 2 processors where it names
-- none, and its platforms are the two that are supported where it names none.
abbrev pub Means : Cloud → List Vm → Type 0
Means cloud vms =
    (memory : ℕ) × (parse_memory (unwrap_or cloud.memory default_memory) ≡ Parsed.ok memory)
    × AreMachines memory (unwrap_or cloud.cpus 2) (unwrap_or cloud.platforms default_platforms) vms

-- What follows the parser gives a list of machines just where the document means it: the memory of the
-- cloud can be read, used or not, and the machines are those of its platforms, one for each and in
-- their order, each with its supported platform, its own memory and processors, or else the cloud's.
pub resolve_exact :
    (cloud : Cloud) (vms : List Vm) → (resolve cloud ≡ Parsed.ok vms) ↔ Means cloud vms
unfolding resolve
resolve_exact cloud vms = (forth, back)
  where
    refused :
        (reason : ConfigError)
        → parse_memory (unwrap_or cloud.memory default_memory) ≡ Parsed.err reason
        → resolve cloud ≢ Parsed.ok vms
    refused reason e = ground (arith, e)

    forth : resolve cloud ≡ Parsed.ok vms → Means cloud vms
    forth h = elim (Parsed-cases (parse_memory (unwrap_or cloud.memory default_memory))) [
      | inl (reason, e) ↦ elim (refused reason e h) [ ]
      | inr (memory, e) ↦ (
        memory,
        e,
        machines_of-AreMachines memory (unwrap_or cloud.cpus 2)
            (unwrap_or cloud.platforms default_platforms) vms (ground (arith, e, h)),
      )
    ]

    back : Means cloud vms → resolve cloud ≡ Parsed.ok vms
    back (memory, e, ms) =
        ground (arith, e, AreMachines-machines_of memory (unwrap_or cloud.cpus 2) ms)

-- The machines of a document are never too large for the runner to count: where a document gives
-- machines, the bytes that the resource manager reserves for each are its megabytes, without a carry.
pub final_cloud_new-exact_bytes :
    (from_str : Text → Option Cloud) (s : Text) (vms : List Vm)
    → final_cloud_new from_str s ≡ Parsed.ok vms
    → All (λ (vm : Vm). memory_bytes vm.memory_size_mb ≡ vm.memory_size_mb * (1024 * 1024)) vms
unfolding final_cloud_new
final_cloud_new-exact_bytes from_str s vms h = elim (Option-cases (from_str yaml)) [
  | inl e ↦ elim (unparsed e h) [ ]
  | inr (cloud, e) ↦
      let (memory, m, ms) = (resolve_exact cloud vms).0 (ground (arith, e, h)) in
      All-imp (λ (vm : Vm). vm.memory_size_mb < 2 ^ 32)
        (λ (vm : Vm). memory_bytes vm.memory_size_mb ≡ vm.memory_size_mb * (1024 * 1024)) vms
        (λ (vm : Vm) (lt : vm.memory_size_mb < 2 ^ 32). memory_bytes_exact vm.memory_size_mb lt)
        (AreMachines-fit memory (unwrap_or cloud.cpus 2)
          (parse_memory-bound (unwrap_or cloud.memory default_memory) memory m) ms)
]
  where
    yaml : Text
    yaml = if text_eq (trim s) [] then b'{' ∷ b'}' ∷ [] else s

    unparsed : from_str yaml ≡ none → final_cloud_new from_str s ≢ Parsed.ok vms
    unparsed e = ground (arith, e)
