-- ===== src/Runner/Vsock/Shutdown.antt =====
-- runner/src/vsock.rs, `start_unix_config_server`: when the server stops, and what is stored by then.
use cloud_devenv_sh.Base.{ℕ, Bool, List, ◌≡◌, [], true, ◌⊎◌, false, some, ◌∷◌, none, not}
use cloud_devenv_sh.Runner.Vsock.Server.{
  here, next, accepted, accept_failed, served, shut_down, ServerReach, Guest, Server,
}
use cloud_devenv_sh.Runner.Vsock.{Connection, is_ready, receive_result, tail}

-- The guest was ready for the job and reported its end.
abbrev pub Reports : ℕ → Guest → Bool → Type 0
Reports job_id g b =
    (g.written ≡ true)
    × (is_ready job_id g.messages ≡ true)
    × ((receive_result job_id (tail g.messages)).0 ≡ some b)

abbrev pub Among : Guest → List Guest → Type 0
Among g [] = ⊥
Among g (x ∷ gs) = (g ≡ x) ⊎ Among g gs

-- Among `all`, a guest whose report is what the shared state holds.
abbrev pub Reported : ℕ → List Guest → Connection → Type 0
Reported job_id all c =
    (g : Guest) × (b : Bool) × Among g all × Reports job_id g b × (c.job_result ≡ some (some b))

abbrev pub Waits : Server → Type 0
Waits s =
    (s.listening ≡ true) × (s.connection.notified ≡ false) × (s.connection.job_result ≡ some none)

-- The guests that a run has accepted, the last one first.
abbrev pub accepted_guests : {job_id : ℕ} {s t : Server} → ServerReach job_id s t → List Guest
accepted_guests here = []
accepted_guests (next r (accepted g l e)) = g ∷ accepted_guests r
accepted_guests (next r (accept_failed l e)) = accepted_guests r
accepted_guests (next r (served xs ys g e f)) = accepted_guests r
accepted_guests (next r (shut_down removed l n e)) = accepted_guests r

-- A file stands in the socket's place while the server listens; after that it is gone exactly if the
-- function returned without an error.
abbrev pub IsCleanedUp : Server → Type 0
IsCleanedUp s = s.returned ≡ some (not s.socket_file)

abbrev pub State : ℕ → List Guest → Server → Type 0
State job_id all s =
    (((s.listening ≡ true) × (s.socket_file ≡ true)) ⊎ ((s.listening ≡ false) × IsCleanedUp s))
    × ((g : Guest) → Among g s.guests → Among g all)
    × (Waits s ⊎ Reported job_id all s.connection)
