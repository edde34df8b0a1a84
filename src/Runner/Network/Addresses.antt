-- ===== src/Runner/Network/Addresses.antt =====
-- runner/src/vm_impl: the guest reads from the command line the address that the host has given it.
use mathlib.Core.List.{nil≢cons}
use cloud_devenv_sh.Base.{
  ℕ, some, Bool, Option, List, ◌∷◌, [], ◌++◌, true, false, ◌≡◌, refl, arith, ◌==◌, All, ◌<◌,
  Bool-cases, ◌+◌, ltb, inl, ltb→lt, inr, All-append, All-imp, ◌/◌, filterb, ◌%◌, ap, ◌∙◌, sym, ◌⊎◌,
}
use cloud_devenv_sh.Runner.Network.{
  byte_to_string, split_on, ip_to_string, parse_ip_from_cmdline, cmdline, split_whitespace,
  find_prefixed, cmdline_end, cmdline_with, vm_gateway_ip, not_empty, vm_subnet_mask, config_in,
  config_of, Command, configure_network, run_commands, Answer, configure_static_ip, Configured,
  tolerates, IpConfig, followed_by, configure_with,
}
use cloud_devenv_sh.Base.Texts.{Text, is_whitespace, text_eq, strip_prefix}
use cloud_devenv_sh.Base.Texts.Codes.{codes}
use cloud_devenv_sh.Base.Texts.Trim.{IsPadding}

-- No sign of the text passes the test.
abbrev Avoids : (ℕ → Bool) → Text → Type 0
Avoids p s = All (λ (c : ℕ). p c ≡ false) s

-- A piece without separators, and a separator after it or the end.
split_on-piece :
    (p : ℕ → Bool) (w : Text) (c : ℕ) (rest : Text)
    → Avoids p w
    → p c ≡ true
    → split_on p (w ++ c ∷ rest) ≡ w ∷ split_on p rest
unfolding split_on
split_on-piece p [] c rest h e = rw (split_on, e) refl
split_on-piece p (d ∷ w) c rest h e = rw (split_on, h.0, split_on-piece p w c rest h.1 e) refl

-- A sign of an address is neither a colon nor white space.
abbrev IsAddressSign : ℕ → Type 0
IsAddressSign c = (is_whitespace c ≡ false) × ((c == b':') ≡ false)

digit-sign : (d : ℕ) → d < 10 → IsAddressSign (b'0' + d)
unfolding is_whitespace
digit-sign d lt = (ground arith, ground arith)

byte-signs : (b : ℕ) → b < 256 → All IsAddressSign (byte_to_string b)
unfolding byte_to_string
byte-signs b lt = elim (Bool-cases (ltb b 10)) [
  | inl small ↦ rw (byte_to_string, small) (digit-sign b (ltb→lt b 10 small), tt)
  | inr large ↦ elim (Bool-cases (ltb b 100)) [
    | inl two ↦
        rw (byte_to_string, large, two)
          (
            digit-sign (b / 10) (omega (arith, ltb→lt b 100 two)),
            (digit-sign (b % 10) (omega arith), tt),
          )
    | inr three ↦
        rw (byte_to_string, large, three)
          (
            digit-sign (b / 100) (omega arith),
            (digit-sign (b / 10 % 10) (omega arith), (digit-sign (b % 10) (omega arith), tt)),
          )
  ]
]

dot-sign : IsAddressSign b'.'
unfolding is_whitespace
dot-sign = (refl, refl)

ip-signs : (ip : ℕ) → All IsAddressSign (ip_to_string ip)
unfolding ip_to_string
ip-signs ip =
    All-append IsAddressSign (byte_to_string (ip / 16777216 % 256))
      (b'.'
        ∷ (byte_to_string (ip / 65536 % 256)
            ++ b'.' ∷ (byte_to_string (ip / 256 % 256) ++ b'.' ∷ byte_to_string (ip % 256))))
      (byte-signs (ip / 16777216 % 256) (omega arith))
      (
        dot-sign,
        All-append IsAddressSign (byte_to_string (ip / 65536 % 256))
            (b'.' ∷ (byte_to_string (ip / 256 % 256) ++ b'.' ∷ byte_to_string (ip % 256)))
            (byte-signs (ip / 65536 % 256) (omega arith))
            (
              dot-sign,
              All-append IsAddressSign (byte_to_string (ip / 256 % 256))
                  (b'.' ∷ byte_to_string (ip % 256)) (byte-signs (ip / 256 % 256) (omega arith))
                  (dot-sign, byte-signs (ip % 256) (omega arith)),
            ),
      )

only_padding :
    (after : Text) → IsPadding after → filterb not_empty (split_on is_whitespace after) ≡ []
unfolding split_on
only_padding [] h = refl
only_padding (c ∷ after) h = rw (split_on, h.0) (only_padding after h.1)

-- The last word of a text, with white space after it.
last_word :
    (w after : Text)
    → Avoids is_whitespace w
    → IsPadding after
    → (rest : List Text) × (split_on is_whitespace (w ++ after) ≡ w ∷ rest)
      × (filterb not_empty rest ≡ [])
unfolding split_on
last_word [] [] hw ha = ([], refl, refl)
last_word [] (c ∷ after) hw ha =
    (split_on is_whitespace after, rw (split_on, ha.0) refl, only_padding after ha.1)
last_word (c ∷ w) after hw ha =
    let (rest, e, none_left) = last_word w after hw.1 ha in
    (rest, rw (split_on, hw.0, e) refl, none_left)

address-white : (a : Text) → All IsAddressSign a → Avoids is_whitespace a
address-white a h =
    All-imp IsAddressSign (λ (c : ℕ). is_whitespace c ≡ false) a
      (λ (c : ℕ) (s : IsAddressSign c). s.0) h

address-colon : (a : Text) → All IsAddressSign a → Avoids (λ (c : ℕ). c == b':') a
address-colon a h =
    All-imp IsAddressSign (λ (c : ℕ). (c == b':') ≡ false) a (λ (c : ℕ) (s : IsAddressSign c). s.1)
      h

-- A test that no sign of a text passes, by a run.
none_pass : (p : ℕ → Bool) (s : Text) → filterb p s ≡ [] → Avoids p s
none_pass p [] h = tt
none_pass p (c ∷ s) h = elim (Bool-cases (p c)) [
  | inl pass ↦ elim (passed pass) [ ]
  | inr stay ↦ (stay, none_pass p s (sym (rw stay refl) ∙ h))
]
  where
    passed : p c ≡ true → ⊥
    passed pass = nil≢cons {x = c} {xs = filterb p s} (sym h ∙ rw pass refl)

end-white : Avoids is_whitespace cmdline_end
unfolding is_whitespace
end-white = none_pass is_whitespace cmdline_end refl

abbrev console : Text
console = codes "console=hvc0"

abbrev rootfstype : Text
rootfstype = codes "rootfstype=virtiofs"

abbrev root : Text
root = codes "root=rootfs"

abbrev ip_word : Text → Text
ip_word a = codes "ip=" ++ (a ++ cmdline_end)

console-white : Avoids is_whitespace console
unfolding is_whitespace
console-white = none_pass is_whitespace console refl

rootfstype-white : Avoids is_whitespace rootfstype
unfolding is_whitespace
rootfstype-white = none_pass is_whitespace rootfstype refl

root-white : Avoids is_whitespace root
unfolding is_whitespace
root-white = none_pass is_whitespace root refl

ip_prefix-white : Avoids is_whitespace (codes "ip=")
unfolding is_whitespace
ip_prefix-white = none_pass is_whitespace (codes "ip=") refl

ip_word-white : (a : Text) → All IsAddressSign a → Avoids is_whitespace (ip_word a)
ip_word-white a h =
    All-append (λ (c : ℕ). is_whitespace c ≡ false) (codes "ip=") (a ++ cmdline_end) ip_prefix-white
      (All-append (λ (c : ℕ). is_whitespace c ≡ false) a cmdline_end (address-white a h) end-white)

words-cmdline :
    (a after : Text)
    → All IsAddressSign a
    → IsPadding after
    → split_whitespace (cmdline_with a ++ after) ≡ console ∷ rootfstype ∷ root ∷ ip_word a ∷ []
unfolding split_whitespace cmdline_with
words-cmdline a after ha hp =
    let (rest, e, none_left) = last_word (ip_word a) after (ip_word-white a ha) hp in
    ap (λ (ws : List Text). filterb not_empty ws)
      (split_on-piece is_whitespace console b' '
          (rootfstype ++ b' ' ∷ (root ++ b' ' ∷ (ip_word a ++ after))) console-white refl
        ∙ ap (λ (ws : List Text). console ∷ ws)
            (split_on-piece is_whitespace rootfstype b' ' (root ++ b' ' ∷ (ip_word a ++ after))
              rootfstype-white refl)
        ∙ ap (λ (ws : List Text). console ∷ rootfstype ∷ ws)
            (split_on-piece is_whitespace root b' ' (ip_word a ++ after) root-white refl)
        ∙ ap (λ (ws : List Text). console ∷ rootfstype ∷ root ∷ ws) e)
    ∙ ap (λ (ws : List Text). console ∷ rootfstype ∷ root ∷ ip_word a ∷ ws) none_left

config_in-words :
    (a : Text)
    → All IsAddressSign a
    → config_in (console ∷ rootfstype ∷ root ∷ ip_word a ∷ [])
      ≡ some (record { address = a; gateway = vm_gateway_ip; netmask = vm_subnet_mask })
unfolding config_in find_prefixed strip_prefix split_on
config_in-words a ha = ap config_of (
    split_on-piece (λ (c : ℕ). c == b':') a b':' (codes ":10.0.0.1:255.255.255.0::eth0:off")
      (address-colon a ha) refl)

-- The guest reads from its command line, with white space after it or not, the address that the host
-- has written there, the gateway and the mask.
pub parse_ip-cmdline :
    (ip : ℕ) (after : Text)
    → IsPadding after
    → parse_ip_from_cmdline (cmdline ip ++ after)
      ≡ some
          (record { address = ip_to_string ip; gateway = vm_gateway_ip; netmask = vm_subnet_mask })
unfolding parse_ip_from_cmdline cmdline
parse_ip-cmdline ip after hp =
    ap config_in (words-cmdline (ip_to_string ip) after (ip-signs ip) hp)
    ∙ config_in-words (ip_to_string ip) (ip-signs ip)

-- Each command succeeds, or says that what it adds is there already where that is tolerated.
abbrev pub Succeeds : (Command → Answer) → Command → Type 0
Succeeds answer c = (answer c ≡ Answer.done) ⊎ ((answer c ≡ Answer.exists) × (tolerates c ≡ true))

every_command_runs :
    (answer : Command → Answer) (cs : List Command)
    → All (λ (c : Command). Succeeds answer c) cs
    → run_commands answer cs ≡ (Configured.configured, cs)
unfolding run_commands
every_command_runs answer [] h = refl
every_command_runs answer (c ∷ cs) h = elim h.0 [
  | inl e ↦ rw (run_commands, e, every_command_runs answer cs h.1) refl
  | inr (e, ok) ↦ rw (run_commands, e, ok, every_command_runs answer cs h.1) refl
]

-- What the guest runs on the command line of its host.
abbrev pub commands_for : ℕ → Text → List Command
commands_for ip interface =
    Command.addr_add (ip_to_string ip ++ codes "/24") interface
    ∷ Command.link_up interface
    ∷ Command.default_route vm_gateway_ip
    ∷ Command.nslookup
    ∷ []

static-mask :
    (answer : Command → Answer) (interface address : Text)
    → configure_static_ip answer interface
        (record { address = address; gateway = vm_gateway_ip; netmask = vm_subnet_mask })
      ≡ run_commands answer (
          Command.addr_add (address ++ codes "/24") interface
          ∷ Command.link_up interface
          ∷ Command.default_route vm_gateway_ip
          ∷ Command.nslookup
          ∷ [])
unfolding configure_static_ip text_eq
static-mask answer interface address = refl

-- On the command line that its host has written, the guest takes the address of the host's guard, with
-- the gateway for its route, and is configured where its commands succeed; an address or a route that
-- is there already does not keep it from that.
pub configure_network-cmdline :
    (answer : Command → Answer) (interface : Text) (ip : ℕ) (after : Text)
    → IsPadding after
    → All (λ (c : Command). Succeeds answer c) (commands_for ip interface)
    → configure_network answer interface (cmdline ip ++ after)
      ≡ (Configured.configured, commands_for ip interface ++ Command.nslookup ∷ [])
unfolding configure_network
configure_network-cmdline answer interface ip after hp h =
    ap
      (λ (c : Option IpConfig).
        followed_by (configure_with answer interface c)
          (run_commands answer (Command.nslookup ∷ [])))
      (parse_ip-cmdline ip after hp)
    ∙ ap
        (λ (r : Configured × List Command).
          followed_by r (run_commands answer (Command.nslookup ∷ [])))
        (static-mask answer interface (ip_to_string ip)
          ∙ every_command_runs answer (commands_for ip interface) h)
    ∙ ap
        (λ (r : Configured × List Command).
          followed_by (Configured.configured, commands_for ip interface) r)
        (every_command_runs answer (Command.nslookup ∷ []) (h.1.1.1.0, tt))
