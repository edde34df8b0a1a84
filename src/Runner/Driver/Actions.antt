-- ===== src/Runner/Driver/Actions.antt =====
-- The calls of runner/src/bin/driver.rs to the system, the clone and devenv, and what they change.
use Prim.Native.String.{String}
use text.Mathlib.Text.{◌==◌ as str_eq}
use cloud_devenv_sh.Base.{Bool, List, if◌then◌else◌, ℕ, ◌∷◌, Option, false, true, []}
use cloud_devenv_sh.Protocol.{JobConfig, VsockGuestMessage}

pub data Command : Type 0 where
  -- `chown -R 1000:100 /nix`, the first and the second time
  chown_nix : ℕ → Command
  -- `nix-store --load-db`, by the path of the nix store
  load_db : String → Command

pub data Call : Type 0 where
  launch_pid1 receive_config : Call
  configure_network read_nix_binary_path open_registration : Call
  create_dir_all : String → Call
  run_command : Command → Call
  setgid setuid : ℕ → Call
  prepare_clone with_ref_name : String → Call
  -- with the depth, where the clone is shallow
  fetch_then_checkout : Option ℕ → Call
  main_worktree : Call
  set_current_dir load_config : String → Call
  assemble build : Call
  report_complete : Bool → Call
  sync reboot spawn_shutdown : Call

-- What the world around the driver answers, and what it holds.
pub record World : Type 0 where
  -- whether the call works
  pub call : Call → Bool
  -- whether the command that was run ended well
  pub status : Command → Bool
  pub nix_binary_path_exists : Bool
  pub nix_store_path : String
  pub cert_path_exists : Bool
  -- what the host sends
  pub job_config : JobConfig

-- The process and its connection to the host; the steps and the variables that were set last stand first.
pub record Process : Type 0 where
  pub uid : ℕ
  pub gid : ℕ
  pub vars : List (String × String)
  -- each call with the user and the group that it was made by
  pub steps : List (Call × ℕ × ℕ)
  -- what the host was told
  pub reports : List VsockGuestMessage

pub data Result (A : Type 0) : Type 0 where
  ok : A → Result A
  err : Result A

abbrev pub Action : Type 0 → Type 0
Action A = Process → Result A × Process

infixl 5 ◌>>=◌ ◌>>◌
abbrev pub ◌>>=◌ : {A B : Type 0} → Action A → (A → Action B) → Action B
◌>>=◌ m f g = let (r, g') = m g in elim r [ ok a ↦ f a g' | err ↦ (err, g') ]

abbrev pub ◌>>◌ : {B : Type 0} → Action (Unit {0}) → Action B → Action B
m >> k = m >>= λ _. k

abbrev pub pure : {A : Type 0} → A → Action A
pure a g = (ok a, g)

abbrev pub raise : {A : Type 0} → Action A
raise g = (err, g)

-- A test that ends the driver with an error.
abbrev pub require : Bool → Action (Unit {0})
require b g = (if b then ok tt else err, g)

abbrev pub modify : (Process → Process) → Action (Unit {0})
modify f g = (ok tt, f g)

-- A call whose error is passed on with `?`.
unfoldable pub perform : World → Call → Action (Unit {0})
perform w c g = (if w.call c then ok tt else err, record g { steps = (c, g.uid, g.gid) ∷ g.steps })

-- A call whose error is ignored, or only logged; with whether it worked.
unfoldable pub ignore : World → Call → Action Bool
ignore w c g = (ok (w.call c), record g { steps = (c, g.uid, g.gid) ∷ g.steps })

-- Whether the action works, where its error is kept.
abbrev pub is_ok : {A : Type 0} → Result A → Bool
is_ok (ok a) = true
is_ok err = false

unfoldable pub attempt : {A : Type 0} → Action A → Action Bool
attempt m g = let (r, g') = m g in (ok (is_ok r), g')

-- The command is run, and has to end well.
unfoldable pub run_status : World → Command → Action (Unit {0})
unfolding perform
run_status w c = do perform w (Call.run_command c); require (w.status c)

abbrev pub set_var : String → String → Action (Unit {0})
set_var name value = modify (λ (g : Process). record g { vars = (name, value) ∷ g.vars })

unfoldable pub is_set : String → List (String × String) → Bool
is_set name [] = false
is_set name ((n, v) ∷ vars) = if str_eq n name then true else is_set name vars
