-- ===== src/Runner/Macos/Listening.antt =====
-- runner/src/vm_impl/macos.rs, the listener of a job: the connections that it keeps.
use cloud_devenv_sh.Runner.Macos.{
  Listener, ListenerStep, ListenerReach, MacosVm, receive, set_job_config, should_accept_connection,
  offer, received, serves, shuts_down, here, next,
}
use cloud_devenv_sh.Runner.Vsock.Server.{Guest}
use cloud_devenv_sh.Protocol.{JobConfig}
use cloud_devenv_sh.Base.{
  Bool, ℕ, ◌≡◌, Bool-cases, arith, some, inr, true, inl, length, ltb, ◌≤◌, length-append, refl, ◌∷◌,
  [],
}

-- The job's configuration is there, and the channel keeps to its bound.
abbrev pub IsListening : JobConfig → Listener → Type 0
IsListening config l =
    (l.vm.job_config ≡ some config) × (l.has_notifier ≡ true) × (length l.channel ≤ 10)

offer-IsListening :
    (config : JobConfig) (duplicated : Bool) (g : Guest) (l : Listener)
    → IsListening config l
    → IsListening config (should_accept_connection duplicated g l).0
unfolding should_accept_connection
offer-IsListening config duplicated g l (j, n, h) = elim (Bool-cases duplicated) [
  | inr e ↦ ground (arith, e, j, n, h)
  | inl e ↦ elim (Bool-cases (ltb (length l.channel) 10)) [
    | inl f ↦ ground (arith, e, f, j, n, length-append l.channel (g ∷ []))
    | inr f ↦ ground (arith, e, f, j, n, h)
  ]
]

receive-IsListening :
    (config : JobConfig) (converts : Bool) (l : Listener)
    → IsListening config l
    → IsListening config (receive converts l)
unfolding receive
receive-IsListening config converts l (j, n, h) = ground (arith, j, n, h)

Step-IsListening :
    {job_id : ℕ} (config : JobConfig) {s t : Listener}
    → ListenerStep job_id s t
    → IsListening config s
    → IsListening config t
Step-IsListening config {s = s} (offer duplicated g e) h =
    rw e (offer-IsListening config duplicated g s h)
Step-IsListening config {s = s} (received converts l e) h =
    rw e (receive-IsListening config converts s h)
Step-IsListening config (serves xs ys g e f) h = rw f h
Step-IsListening config (shuts_down l n e) h = rw e h

Reach-IsListening :
    {job_id : ℕ} (config : JobConfig) {s t : Listener}
    → ListenerReach job_id s t
    → IsListening config s
    → IsListening config t
Reach-IsListening config here h = h
Reach-IsListening config (next r st) h = Step-IsListening config st (Reach-IsListening config r h)

-- From the moment that the job is set, whatever the framework, the task and the connections do, the
-- machine keeps the job's configuration, its delegate has a notifier, and no more than ten connections
-- wait in the channel.
pub listener-IsListening :
    (job_id : ℕ) (config : JobConfig) (vm : MacosVm) (l : Listener)
    → ListenerReach job_id (set_job_config config vm) l
    → IsListening config l
unfolding set_job_config
listener-IsListening job_id config vm l r = Reach-IsListening config r (refl, refl, omega arith)
