-- ===== src/Runner/Client.antt =====
-- runner/src/client.rs, `WebSocketClient::new`: the request by which a runner connects to the backend.
use Prim.Native.String.{String}
use cloud_devenv_sh.Base.{Option, List, none, some, ◌∷◌, []}
use cloud_devenv_sh.Protocol.{platform_to_string, Platform}

-- The target that the runner was compiled for.
pub data Os : Type 0 where
  macos linux other_os : Os

pub data Arch : Type 0 where
  aarch64 x86_64 other_arch : Arch

-- `none` is the error UnsupportedPlatform.
unfoldable pub target_platform : Os → Arch → Option Platform
target_platform Os.macos Arch.aarch64 = some Platform.aarch64_darwin
target_platform Os.linux Arch.x86_64 = some Platform.x86_64_linux
target_platform _ _ = none

-- `host` and `key`: the host of the address, or "localhost", and the key that is generated.
unfoldable pub request_headers : String → String → Platform → List (String × String)
unfolding platform_to_string
request_headers host key platform =
    ("Host", host)
    ∷ ("Upgrade", "websocket")
    ∷ ("Connection", "upgrade")
    ∷ ("X-Runner-Platform", platform_to_string platform)
    ∷ ("Sec-Websocket-Key", key)
    ∷ ("Sec-Websocket-Version", "13")
    ∷ []

-- What `connect_async` answers within the time, if it does.
pub data Answer : Type 0 where
  connects connection_error times_out : Answer

pub data Connected : Type 0 where
  connected : Connected
  unsupported_platform connection_failed connection_timeout : Connected

-- With the headers of the request, if one is made.
unfoldable pub new_client :
    Os → Arch → String → String → Answer → Connected × Option (List (String × String))
unfolding target_platform request_headers
new_client os arch host key answer = elim (target_platform os arch) [
  | none ↦ (Connected.unsupported_platform, none)
  | some platform ↦
      let headers = request_headers host key platform in
      elim answer [
        | Answer.connects ↦ (Connected.connected, some headers)
        | Answer.connection_error ↦ (Connected.connection_failed, some headers)
        | Answer.times_out ↦ (Connected.connection_timeout, some headers)
      ]
]
