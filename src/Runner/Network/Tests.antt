-- ===== src/Runner/Network/Tests.antt =====
-- A run of runner/src/vm_impl/linux_networking.rs, in a guest that is configured a second time.
use cloud_devenv_sh.Base.{◌∷◌, [], ◌++◌, ◌≡◌, refl, inl, inr}
use cloud_devenv_sh.Base.Texts.Codes.{codes}
use cloud_devenv_sh.Runner.Network.{
  Command, ip_to_string, Answer, byte_to_string, configure_network, cmdline, Configured,
}
use cloud_devenv_sh.Base.Texts.{is_whitespace}
use cloud_devenv_sh.Runner.Network.Addresses.{configure_network-cmdline}

abbrev answers : Command → Answer
answers (Command.addr_add a i) = Answer.exists
answers (Command.default_route g) = Answer.exists
answers _ = Answer.done

configure_network-cmdline_example :
    configure_network answers (codes "eth0") (cmdline 167772162 ++ b' ' ∷ []) ≡ (
      Configured.configured,
      Command.addr_add (codes "10.0.0.2/24") (codes "eth0")
          ∷ Command.link_up (codes "eth0")
          ∷ Command.default_route (codes "10.0.0.1")
          ∷ Command.nslookup
          ∷ Command.nslookup
          ∷ [],
    )
unfolding ip_to_string byte_to_string is_whitespace
configure_network-cmdline_example =
    configure_network-cmdline answers (codes "eth0") 167772162 (b' ' ∷ []) (refl, tt)
      (inr (refl, refl), (inl refl, (inr (refl, refl), (inl refl, tt))))
