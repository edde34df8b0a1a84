-- ===== src/Runner/Network.antt =====
-- runner/src/vm_impl/linux_networking.rs, the guest's side, and the command line of the kernel that `new`
-- of runner/src/vm_impl/linux.rs gives the machine. What the commands answer is a parameter.
mod Addresses
mod Tests
use cloud_devenv_sh.Base.{
  ℕ, zero, suc, none, some, Bool, Option, List, ◌∷◌, [], ◌++◌, true, false, map, if◌then◌else◌,
  filterb, ltb, ◌/◌, ◌==◌, ◌%◌, ◌+◌,
}
use cloud_devenv_sh.Base.Texts.{Text, is_whitespace, text_eq, strip_prefix}
use cloud_devenv_sh.Base.Texts.Codes.{codes}

-- The pieces of a text between the signs that pass a test.
unfoldable pub split_on : (ℕ → Bool) → Text → List Text
split_on p [] = [] ∷ []
split_on p (c ∷ cs) =
    let rest = split_on p cs in
    if p c then [] ∷ rest else elim rest [ [] ↦ (c ∷ []) ∷ [] | w ∷ ws ↦ (c ∷ w) ∷ ws ]

abbrev pub not_empty : Text → Bool
not_empty [] = false
not_empty (c ∷ cs) = true

unfoldable pub split_whitespace : Text → List Text
unfolding split_on is_whitespace
split_whitespace s = filterb not_empty (split_on is_whitespace s)

-- The first word that starts with a prefix, without it.
unfoldable pub find_prefixed : Text → List Text → Option Text
unfolding strip_prefix
find_prefixed prefix [] = none
find_prefixed prefix (w ∷ ws) =
    let rest = find_prefixed prefix ws in
    elim (strip_prefix prefix w) [ none ↦ rest | some s ↦ some s ]

pub record IpConfig : Type 0 where
  pub address : Text
  pub gateway : Text
  pub netmask : Text

abbrev config_of : List Text → Option IpConfig
config_of (a ∷ server ∷ g ∷ n ∷ more) = some (record { address = a; gateway = g; netmask = n })
config_of _ = none

unfoldable pub config_in : List Text → Option IpConfig
unfolding find_prefixed split_on
config_in words = elim (find_prefixed (codes "ip=") words) [
  | none ↦ none
  | some config ↦ config_of (split_on (λ (c : ℕ). c == b':') config)
]

unfoldable pub parse_ip_from_cmdline : Text → Option IpConfig
unfolding split_whitespace config_in
parse_ip_from_cmdline cmdline = config_in (split_whitespace cmdline)

-- The decimal digits of a byte.
unfoldable pub byte_to_string : ℕ → Text
byte_to_string b =
    if ltb b 10
    then (b'0' + b) ∷ []
    else if ltb b 100
    then (b'0' + b / 10) ∷ (b'0' + b % 10) ∷ []
    else (b'0' + b / 100) ∷ (b'0' + b / 10 % 10) ∷ (b'0' + b % 10) ∷ []

-- `Display for Ipv4Addr`, of its 32 bits.
unfoldable pub ip_to_string : ℕ → Text
unfolding byte_to_string
ip_to_string ip =
    byte_to_string (ip / 16777216 % 256)
    ++ b'.'
      ∷ (byte_to_string (ip / 65536 % 256)
          ++ b'.' ∷ (byte_to_string (ip / 256 % 256) ++ b'.' ∷ byte_to_string (ip % 256)))

abbrev pub vm_gateway_ip : Text
vm_gateway_ip = codes "10.0.0.1"

abbrev pub vm_subnet_mask : Text
vm_subnet_mask = codes "255.255.255.0"

-- What `new` writes after the address.
abbrev pub cmdline_end : Text
cmdline_end = codes "::" ++ (vm_gateway_ip ++ (codes ":" ++ (vm_subnet_mask ++ codes "::eth0:off")))

-- With the text of the address.
unfoldable pub cmdline_with : Text → Text
cmdline_with address =
    codes "console=hvc0 rootfstype=virtiofs root=rootfs ip=" ++ (address ++ cmdline_end)

unfoldable pub cmdline : ℕ → Text
unfolding ip_to_string cmdline_with
cmdline guest_ip = cmdline_with (ip_to_string guest_ip)

-- The commands that are run, and what they answer: no output, an error that says that the thing is there
-- already, or another failure.
pub data Command : Type 0 where
  -- the address with its prefix, and the interface
  addr_add : Text → Text → Command
  link_up : Text → Command
  default_route : Text → Command
  nslookup : Command

pub data Answer : Type 0 where
  done exists failed : Answer

pub data Configured : Type 0 where
  configured : Configured
  unsupported_netmask : Text → Configured
  command_failed : Command → Configured

abbrev pub tolerates : Command → Bool
tolerates (Command.addr_add a i) = true
tolerates (Command.default_route g) = true
tolerates _ = false

-- The commands in their order, up to the first that fails; those that were run.
unfoldable pub run_commands : (Command → Answer) → List Command → Configured × List Command
run_commands answer [] = (Configured.configured, [])
run_commands answer (c ∷ cs) =
    let (end, ran) = run_commands answer cs in
    elim (answer c) [
      | Answer.done ↦ (end, c ∷ ran)
      | Answer.exists ↦
          if tolerates c then (end, c ∷ ran) else (Configured.command_failed c, c ∷ [])
      | Answer.failed ↦ (Configured.command_failed c, c ∷ [])
    ]

unfoldable pub configure_static_ip :
    (Command → Answer) → Text → IpConfig → Configured × List Command
unfolding run_commands
configure_static_ip answer interface config =
    if text_eq config.netmask vm_subnet_mask
    then run_commands answer (
        Command.addr_add (config.address ++ codes "/24") interface
        ∷ Command.link_up interface
        ∷ Command.default_route config.gateway
        ∷ Command.nslookup
        ∷ [])
    else (Configured.unsupported_netmask config.netmask, [])

-- What follows is run only after success.
abbrev pub followed_by :
    Configured × List Command → Configured × List Command → Configured × List Command
followed_by (Configured.configured, ran) (end, more) = (end, ran ++ more)
followed_by (Configured.unsupported_netmask m, ran) next = (Configured.unsupported_netmask m, ran)
followed_by (Configured.command_failed c, ran) next = (Configured.command_failed c, ran)

abbrev pub bring_interface_up : (Command → Answer) → Text → Configured × List Command
bring_interface_up answer interface = run_commands answer (Command.link_up interface ∷ [])

abbrev pub test_dns_resolution : (Command → Answer) → Configured × List Command
test_dns_resolution answer = run_commands answer (Command.nslookup ∷ [])

abbrev pub configure_with : (Command → Answer) → Text → Option IpConfig → Configured × List Command
configure_with answer interface none = bring_interface_up answer interface
configure_with answer interface (some config) = configure_static_ip answer interface config

-- Once the interface is there, with the command line that the kernel shows; the name is looked up once
-- more at the end.
unfoldable pub configure_network : (Command → Answer) → Text → Text → Configured × List Command
unfolding configure_static_ip parse_ip_from_cmdline run_commands
configure_network answer interface shown =
    followed_by (configure_with answer interface (parse_ip_from_cmdline shown))
      (test_dns_resolution answer)

-- Whether the interface is there at the looks from `i` on, of which `left` are left, one a second.
unfoldable pub look_for_interface : (ℕ → Bool) → ℕ → ℕ → Bool
look_for_interface is_there zero i = false
look_for_interface is_there (suc left) i =
    let later = look_for_interface is_there left (suc i) in if is_there i then true else later

-- The name of the interface; `none` is the error after ten looks.
unfoldable pub wait_for_network_interface : (ℕ → Bool) → Option Text
unfolding look_for_interface
wait_for_network_interface is_there =
    if look_for_interface is_there 10 0 then some (codes "eth0") else none
