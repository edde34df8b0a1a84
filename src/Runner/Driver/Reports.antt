-- ===== src/Runner/Driver/Reports.antt =====
-- runner/src/bin/driver.rs: what the host is told of a job, and whether the machine is halted.
use Prim.Native.String.{String}
use cloud_devenv_sh.Runner.Driver.Actions.{
  ok, err, ◌>>=◌, Call, Process, World, Command, modify, perform, run_status, set_var, Result,
  is_ok, ignore, attempt, Action,
}
use cloud_devenv_sh.Runner.Driver.Keeps.{
  Keeps-then, Keeps-require, IsInvariant, Keeps-pure, Keeps, Keeps-perform, Keeps-run_status,
  Keeps-ensure_cert, Keeps-with_ref, Ends-keep, then-err, then-ok,
}
use cloud_devenv_sh.Base.{
  [], ◌∷◌, List, Bool, ℕ, ◌≡◌, false, true, Option, ap, Bool-cases, ◌||◌, ◌∙◌, inl, refl, inr,
  if◌then◌else◌, arith, ◌⊎◌, subst, sym, ◌&&◌,
}
use mathlib.Core.Bool.{false≢true}
use cloud_devenv_sh.Protocol.{VsockGuestMessage, Platform}
use cloud_devenv_sh.Runner.Driver.{
  create_nix_dirs, drop_privileges, ensure_cert, fetch_project, prepare, run_devenv, setup_nix,
  start_up, clone_repository, with_ref, finish, report, halt_machine, main, project_dir,
}

abbrev pub halts : Call → Bool
halts Call.reboot = true
halts Call.spawn_shutdown = true
halts _ = false

-- Whether the system was asked to halt.
abbrev pub asked_to_halt : List (Call × ℕ × ℕ) → Bool
asked_to_halt [] = false
asked_to_halt ((c, uid, gid) ∷ steps) = halts c || asked_to_halt steps

-- Whether it was asked to halt by a call that works.
abbrev pub is_halted : World → List (Call × ℕ × ℕ) → Bool
is_halted w [] = false
is_halted w ((c, uid, gid) ∷ steps) = (halts c && w.call c) || is_halted w steps

-- Nothing was reported since `rs`, and the system was not asked to halt.
abbrev pub IsSilent : List VsockGuestMessage → Process → Type 0
IsSilent rs g = (g.reports ≡ rs) × (asked_to_halt g.steps ≡ false)

abbrev GoesOn : Call → Type 0
GoesOn c = halts c ≡ false

IsSilent-IsInvariant : (rs : List VsockGuestMessage) → IsInvariant GoesOn (IsSilent rs)
IsSilent-IsInvariant rs = record {
  step = λ c g a (r, h). (r, ap (λ b. b || asked_to_halt g.steps) a ∙ h);
  var = λ vars g p. p;
}

module _ (rs : List VsockGuestMessage) (w : World) where
  IsSilent-perform : (c : Call) → GoesOn c → Keeps (IsSilent rs) (perform w c)
  IsSilent-perform c a = Keeps-perform (IsSilent-IsInvariant rs) w c a

  IsSilent-run_status : (c : Command) → Keeps (IsSilent rs) (run_status w c)
  IsSilent-run_status c = Keeps-run_status (IsSilent-IsInvariant rs) w c refl

  IsSilent-set_var : (name value : String) → Keeps (IsSilent rs) (set_var name value)
  IsSilent-set_var name value g p = p

  IsSilent-setgid : (n : ℕ) → Keeps (IsSilent rs) (modify (λ (g : Process). record g { gid = n }))
  IsSilent-setgid n g p = p

  IsSilent-setuid : (n : ℕ) → Keeps (IsSilent rs) (modify (λ (g : Process). record g { uid = n }))
  IsSilent-setuid n g p = p

ruleset says_nothing = (
  Keeps-then, Keeps-require, Keeps-pure, IsSilent-perform, IsSilent-run_status, IsSilent-set_var,
  IsSilent-setgid, IsSilent-setuid, refl,
)

module _ (rs : List VsockGuestMessage) (w : World) where
  create_nix_dirs-IsSilent : Keeps (IsSilent rs) (create_nix_dirs w)
  unfolding create_nix_dirs
  create_nix_dirs-IsSilent = search says_nothing depth 12

  setup_nix-IsSilent : Keeps (IsSilent rs) (setup_nix w)
  unfolding setup_nix
  setup_nix-IsSilent = search (create_nix_dirs-IsSilent, says_nothing) depth 30 fits 2000

  start_up-IsSilent : (platform : Platform) → Keeps (IsSilent rs) (start_up w platform)
  unfolding start_up
  start_up-IsSilent Platform.x86_64_linux = search (setup_nix-IsSilent, says_nothing) depth 12
  start_up-IsSilent Platform.aarch64_darwin = search says_nothing depth 12

  drop_privileges-IsSilent : Keeps (IsSilent rs) (drop_privileges w)
  unfolding drop_privileges
  drop_privileges-IsSilent = search says_nothing depth 12

  ensure_cert-IsSilent : (name : String) → Keeps (IsSilent rs) (ensure_cert w name)
  ensure_cert-IsSilent name = Keeps-ensure_cert (IsSilent-IsInvariant rs) w name

  with_ref-IsSilent : (git_ref : Option String) → Keeps (IsSilent rs) (with_ref w git_ref)
  with_ref-IsSilent git_ref = Keeps-with_ref (IsSilent-IsInvariant rs) w (λ r. refl) git_ref

  fetch_project-IsSilent : (platform : Platform) → Keeps (IsSilent rs) (fetch_project w platform)
  unfolding fetch_project clone_repository
  fetch_project-IsSilent platform =
      search (ensure_cert-IsSilent, with_ref-IsSilent, says_nothing) depth 20 fits 2000

  run_devenv-IsSilent : (dir : String) → Keeps (IsSilent rs) (run_devenv w dir)
  unfolding run_devenv
  run_devenv-IsSilent dir = search says_nothing depth 12

  pub prepare-IsSilent : (platform : Platform) → Keeps (IsSilent rs) (prepare w platform)
  unfolding prepare
  prepare-IsSilent Platform.x86_64_linux =
      search (start_up-IsSilent, drop_privileges-IsSilent, fetch_project-IsSilent, says_nothing)
        depth 12
  prepare-IsSilent Platform.aarch64_darwin =
      search (start_up-IsSilent, fetch_project-IsSilent, says_nothing) depth 12

-- The reports after one more that is sent, if it is.
abbrev pub reported : World → Bool → List VsockGuestMessage → List VsockGuestMessage
reported w success rs =
    if w.call (Call.report_complete success)
    then VsockGuestMessage.complete w.job_config.id success ∷ rs
    else rs

-- The call that halts the machine.
abbrev pub halt_call : Platform → Call
halt_call Platform.x86_64_linux = Call.reboot
halt_call Platform.aarch64_darwin = Call.spawn_shutdown

-- The run of devenv, its report, the halt and the result.
abbrev pub Finished :
    World → Platform → Bool → List VsockGuestMessage → Result (Unit {0}) × Process → Type 0
Finished w platform success rs (r, g') =
    (is_ok r ≡ success)
    × (g'.reports ≡ reported w success rs)
    × (asked_to_halt g'.steps ≡ true)
    × (is_halted w g'.steps ≡ w.call (halt_call platform))

neither : (a b : Bool) → (a || b) ≡ false → (a ≡ false) × (b ≡ false)
neither false b h = (refl, h)
neither true b h = elim (false≢true (sym h)) [ ]

not_asked-not_halted :
    (w : World) (steps : List (Call × ℕ × ℕ))
    → asked_to_halt steps ≡ false
    → is_halted w steps ≡ false
not_asked-not_halted w [] h = refl
not_asked-not_halted w ((c, uid, gid) ∷ steps) h =
    let (e, later) = neither (halts c) (asked_to_halt steps) h in
    rw e (not_asked-not_halted w steps later)

finish-Finished :
    (w : World) (platform : Platform) (success : Bool) (g : Process)
    → is_halted w g.steps ≡ false
    → Finished w platform success g.reports (finish w platform success g)
unfolding finish report halt_machine ignore
finish-Finished w Platform.x86_64_linux success g h =
    elim (Bool-cases (w.call (Call.report_complete success))) [
      | inl e ↦ ground (arith, e, h)
      | inr e ↦ ground (arith, e, h)
    ]
finish-Finished w Platform.aarch64_darwin success g h =
    elim (Bool-cases (w.call (Call.report_complete success))) [
      | inl e ↦ ground (arith, e, h)
      | inr e ↦ ground (arith, e, h)
    ]

-- How the driver ends, by whether it comes to the run of devenv.
abbrev pub Told : World → Platform → Process → Type 0
Told w platform g =
    ((g' : Process) × (prepare w platform g ≡ (ok tt, g'))
      × Finished w platform (is_ok (run_devenv w (project_dir platform) g').0) g.reports
          (main w platform g))
    ⊎ ((g' : Process) × (prepare w platform g ≡ (err, g'))
        × (main w platform g ≡ (err, g'))
        × IsSilent g.reports g')

pub told_prepared :
    (w : World) (platform : Platform) (g g' : Process)
    → prepare w platform g ≡ (ok tt, g')
    → IsSilent g.reports g'
    → Finished w platform
        (is_ok (run_devenv w (project_dir platform) g').0)
        g.reports
        (main w platform g)
unfolding main attempt
told_prepared w platform g g' e h =
    let run : Action (Unit {0}) = run_devenv w (project_dir platform) in
    let k : Action (Unit {0}) = attempt run >>= finish w platform in
    let s : IsSilent g.reports (run g').1 =
      run_devenv-IsSilent g.reports w (project_dir platform) g' h in
    subst (Finished w platform (is_ok (run g').0) g.reports)
      (sym (then-ok (prepare w platform) (λ u. k) g g' tt e))
      (subst (λ rs. Finished w platform (is_ok (run g').0) rs (k g')) s.0
        (finish-Finished w platform (is_ok (run g').0) (run g').1
          (not_asked-not_halted w (run g').1.steps s.1)))

-- If everything up to the run of devenv works, the driver asks the system to halt, and the machine is
-- halted just if that call works (its error is ignored); the driver ends well exactly if devenv did, and
-- tells the host just that, once, where the message can be written. If something before fails, it ends
-- with an error, with nothing said to the host and the system not asked to halt.
pub main-Told :
    (w : World) (platform : Platform) (g : Process)
    → asked_to_halt g.steps ≡ false
    → Told w platform g
unfolding main
main-Told w platform g h =
    elim (Ends-keep (prepare w platform) g (IsSilent g.reports) (IsSilent g.reports)
      (IsSilent g.reports) (prepare-IsSilent g.reports w platform) (λ u p. p) (λ u p. p)
      (refl, h)) [
        | inl (g', e, s) ↦ inl (g', e, told_prepared w platform g g' e s)
        | inr (g', e, s) ↦ inr (
          g',
          e,
          then-err (prepare w platform)
              (λ u. attempt (run_devenv w (project_dir platform)) >>= finish w platform) g g' e,
          s,
        )
      ]
