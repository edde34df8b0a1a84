-- ===== src/Runner/Driver/Privileges.antt =====
-- runner/src/bin/driver.rs: as which user the project's own code is fetched and run.
use Prim.Native.String.{String}
use cloud_devenv_sh.Runner.Driver.Actions.{
  ◌>>=◌, ◌>>◌, Call, Process, World, Command, ignore, perform, set_var, run_status, Action, Result,
  attempt,
}
use cloud_devenv_sh.Runner.Driver.Keeps.{
  IsInvariant, Keeps, Keeps-then, Keeps-require, Keeps-perform, Keeps-run_status, Keeps-pure,
  Keeps-attempt, Keeps-ignore, then-ok, then-err, Ends, Ends-then, Ends-keep, Keeps-bind,
  Keeps-ensure_cert, Keeps-with_ref,
}
use cloud_devenv_sh.Runner.Driver.{
  setup_nix, create_nix_dirs, run_devenv, start_up, ensure_cert, fetch_project, report,
  clone_repository, with_ref, drop_privileges, halt_machine, finish, main, prepare, project_dir,
}
use cloud_devenv_sh.Base.{
  All, Bool, ap, arith, ℕ, ◌≡◌, false, not, true, ◌||◌, ◌==◌, ◌&&◌, Option, Bool-cases, inl, inr,
  subst, ◌∷◌, List, sym, refl,
}
use cloud_devenv_sh.Protocol.{Platform}

-- The calls that handle the project: its repository, and devenv, which runs its code.
abbrev pub is_project : Call → Bool
is_project (Call.prepare_clone url) = true
is_project (Call.with_ref_name git_ref) = true
is_project (Call.fetch_then_checkout depth) = true
is_project Call.main_worktree = true
is_project (Call.set_current_dir dir) = true
is_project (Call.load_config dir) = true
is_project Call.assemble = true
is_project Call.build = true
is_project _ = false

-- Made by the user and the group of devenv, if the call handles the project.
abbrev pub is_unprivileged : Call × ℕ × ℕ → Bool
is_unprivileged (c, uid, gid) = not (is_project c) || (uid == 1000 && gid == 100)

abbrev pub AllUnprivileged : Process → Type 0
AllUnprivileged g = All (λ s. is_unprivileged s ≡ true) g.steps

abbrev Dropped : Process → Type 0
Dropped g = (g.uid ≡ 1000) × (g.gid ≡ 100) × AllUnprivileged g

abbrev IsSystem : Call → Type 0
IsSystem c = is_project c ≡ false

abbrev Anything : Call → Type 0
Anything c = Unit

IsSystem-IsInvariant : IsInvariant IsSystem AllUnprivileged
IsSystem-IsInvariant = record {
  step = λ c g a p. (ap (λ b. not b || (g.uid == 1000 && g.gid == 100)) a, p);
  var = λ vars g p. p;
}

Dropped-IsInvariant : IsInvariant Anything Dropped
Dropped-IsInvariant = record {
  step = λ c g a (u, i, p). (u, i, (ground (arith, u, i), p));
  var = λ vars g p. p;
}

IsSystem-perform : (w : World) (c : Call) → IsSystem c → Keeps AllUnprivileged (perform w c)
IsSystem-perform w c a = Keeps-perform IsSystem-IsInvariant w c a

IsSystem-run_status :
    (w : World) (c : Command)
    → IsSystem (Call.run_command c)
    → Keeps AllUnprivileged (run_status w c)
IsSystem-run_status w c a = Keeps-run_status IsSystem-IsInvariant w c a

IsSystem-set_var : (name value : String) → Keeps AllUnprivileged (set_var name value)
IsSystem-set_var name value g p = p

Dropped-perform : (w : World) (c : Call) → Keeps Dropped (perform w c)
Dropped-perform w c = Keeps-perform Dropped-IsInvariant w c tt

Dropped-ignore : (w : World) (c : Call) → Keeps Dropped (ignore w c)
Dropped-ignore w c = Keeps-ignore Dropped-IsInvariant w c tt

Dropped-set_var : (name value : String) → Keeps Dropped (set_var name value)
Dropped-set_var name value g p = p

ruleset system =
    (Keeps-then, Keeps-require, IsSystem-set_var, IsSystem-perform, IsSystem-run_status, refl)

ruleset dropped = (
  Keeps-then, Keeps-require, Keeps-pure, Keeps-attempt, Dropped-set_var, Dropped-perform,
  Dropped-ignore,
)

create_nix_dirs-Keeps : (w : World) → Keeps AllUnprivileged (create_nix_dirs w)
unfolding create_nix_dirs
create_nix_dirs-Keeps w = search system depth 12

setup_nix-Keeps : (w : World) → Keeps AllUnprivileged (setup_nix w)
unfolding setup_nix
setup_nix-Keeps w = search (create_nix_dirs-Keeps w, system) depth 30 fits 2000

start_up-Keeps : (w : World) → Keeps AllUnprivileged (start_up w Platform.x86_64_linux)
unfolding start_up
start_up-Keeps w = search (setup_nix-Keeps w, system) depth 12

run_devenv-Keeps : (w : World) (dir : String) → Keeps Dropped (run_devenv w dir)
unfolding run_devenv
run_devenv-Keeps w dir = search dropped depth 12

ensure_cert-Keeps : (w : World) (name : String) → Keeps Dropped (ensure_cert w name)
ensure_cert-Keeps w name = Keeps-ensure_cert Dropped-IsInvariant w name

with_ref-Keeps : (w : World) (git_ref : Option String) → Keeps Dropped (with_ref w git_ref)
with_ref-Keeps w git_ref = Keeps-with_ref Dropped-IsInvariant w (λ r. tt) git_ref

fetch_project-Keeps : (w : World) (platform : Platform) → Keeps Dropped (fetch_project w platform)
unfolding fetch_project clone_repository
fetch_project-Keeps w platform =
    search (ensure_cert-Keeps, with_ref-Keeps, dropped) depth 20 fits 2000

report-Keeps : (w : World) (success : Bool) → Keeps Dropped (report w success)
unfolding report ignore
report-Keeps w success g (u, i, p) = elim (Bool-cases (w.call (Call.report_complete success))) [
  | inl e ↦ ground (arith, e, u, i, p)
  | inr e ↦ ground (arith, e, u, i, p)
]

halt_machine-Keeps : (w : World) (platform : Platform) → Keeps Dropped (halt_machine w platform)
unfolding halt_machine ignore
halt_machine-Keeps w Platform.x86_64_linux g (u, i, p) = ground (arith, u, i, p)
halt_machine-Keeps w Platform.aarch64_darwin g (u, i, p) = ground (arith, u, i, p)

drop_privileges_lem :
    (w : World) (g : Process)
    → AllUnprivileged g
    → Ends (drop_privileges w) g AllUnprivileged Dropped
unfolding drop_privileges perform
drop_privileges_lem w g p = elim (Bool-cases (w.call (Call.setgid 100))) [
  | inr e ↦
      inr (
        record g { steps = (Call.setgid 100, g.uid, g.gid) ∷ g.steps },
        ground (arith, e),
        (refl, p),
      )
  | inl e ↦
      let s : List (Call × ℕ × ℕ) =
        (Call.setuid 1000, g.uid, 100) ∷ (Call.setgid 100, g.uid, g.gid) ∷ g.steps in
      elim (Bool-cases (w.call (Call.setuid 1000))) [
        | inr f ↦ inr (record g { gid = 100; steps = s }, ground (arith, e, f), (refl, (refl, p)))
        | inl f ↦ inl (
          record g { uid = 1000; gid = 100; steps = s },
          ground (arith, e, f),
          (refl, refl, (refl, (refl, p))),
        )
      ]
]

prepare_lem :
    (w : World) (g : Process)
    → AllUnprivileged g
    → Ends (prepare w Platform.x86_64_linux) g AllUnprivileged Dropped
unfolding prepare
prepare_lem w g p =
    Ends-then (start_up w Platform.x86_64_linux)
      (drop_privileges w >> fetch_project w Platform.x86_64_linux) g AllUnprivileged AllUnprivileged
      Dropped
      (Ends-keep (start_up w Platform.x86_64_linux) g AllUnprivileged AllUnprivileged
        AllUnprivileged (start_up-Keeps w) (λ h q. q) (λ h q. q) p)
      (λ g' q.
        Ends-then (drop_privileges w) (fetch_project w Platform.x86_64_linux) g' AllUnprivileged
          Dropped Dropped (drop_privileges_lem w g' q)
          (λ h d.
            Ends-keep (fetch_project w Platform.x86_64_linux) h AllUnprivileged Dropped Dropped
              (fetch_project-Keeps w Platform.x86_64_linux) (λ u r. r.2) (λ u r. r) d))

finish-Keeps : (w : World) (success : Bool) → Keeps Dropped (finish w Platform.x86_64_linux success)
unfolding finish
finish-Keeps w success = search (report-Keeps, halt_machine-Keeps, dropped) depth 12

-- On Linux, whatever the world answers and wherever the driver fails, the repository is cloned and devenv
-- is run only by the user and the group of devenv, if that was so of the calls before.
pub main-AllUnprivileged :
    (w : World) (g : Process)
    → AllUnprivileged g
    → AllUnprivileged (main w Platform.x86_64_linux g).1
unfolding main
main-AllUnprivileged w g p =
    let k : Action (Unit {0}) =
      attempt (run_devenv w (project_dir Platform.x86_64_linux))
      >>= finish w Platform.x86_64_linux in
    let h : Keeps Dropped k =
      Keeps-bind Dropped (attempt (run_devenv w (project_dir Platform.x86_64_linux)))
        (finish w Platform.x86_64_linux)
        (Keeps-attempt Dropped (run_devenv w (project_dir Platform.x86_64_linux))
          (run_devenv-Keeps w (project_dir Platform.x86_64_linux)))
        (finish-Keeps w) in
    elim (prepare_lem w g p) [
      | inl (g', e, d) ↦
          subst (λ (r : Result (Unit {0}) × Process). AllUnprivileged r.1)
            (sym (then-ok (prepare w Platform.x86_64_linux) (λ u. k) g g' tt e)) (h g' d).2
      | inr (g', e, d) ↦
          subst (λ (r : Result (Unit {0}) × Process). AllUnprivileged r.1)
            (sym (then-err (prepare w Platform.x86_64_linux) (λ u. k) g g' e)) d
    ]
