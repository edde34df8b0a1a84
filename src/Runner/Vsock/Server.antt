-- ===== src/Runner/Vsock/Server.antt =====
-- runner/src/vsock.rs, `start_unix_config_server`: a task for each guest that connects, and the loop that
-- waits for the next one or for the end. The tasks run at any time; the log of one stands together here.
use cloud_devenv_sh.Base.{
  Bool, ℕ, List, ◌≡◌, Option, true, if◌then◌else◌, ◌∷◌, ◌&&◌, ◌++◌, false, not, none, some, [],
}
use cloud_devenv_sh.Runner.Vsock.{handle_guest_connection, Connection}
use cloud_devenv_sh.Protocol.{VsockGuestMessage}

-- A guest's connection: whether the configuration could be written, and the reads that follow.
pub record Guest : Type 0 where
  pub written : Bool
  pub messages : List (Option VsockGuestMessage)

pub record Server : Type 0 where
  pub listening : Bool
  pub socket_file : Bool
  -- connections that are being served
  pub guests : List Guest
  pub connection : Connection
  -- whether the function has returned, and without an error
  pub returned : Option Bool

-- `removed`: the old socket file could be removed; `bound`: the new one could be bound.
unfoldable pub start_server : Bool → Bool → Bool → Connection → Option Server
start_server exists removed bound c =
    if exists && not removed
    then none
    else if bound
    then some (record {
      listening = true;
      socket_file = true;
      guests = [];
      connection = c;
      returned = none;
    })
    else none

-- The task of one connection.
unfoldable pub serve : ℕ → Guest → Connection → Connection
unfolding handle_guest_connection
serve job_id g c = (handle_guest_connection job_id g.written g.messages c).0

-- After the loop: a socket file that is there is removed, which can fail; the error is returned.
unfoldable pub clean_up : Bool → Server → Server
clean_up removed s = record s {
  socket_file = s.socket_file && not removed;
  returned = some (not (s.socket_file && not removed));
}

-- What the loop and its tasks do. `accept` fails without an effect; `notified` takes the permit.
pub data ServerStep (job_id : ℕ) (s t : Server) : Type 0 where
  accepted :
      (g : Guest)
      → s.listening ≡ true
      → t ≡ record s { guests = g ∷ s.guests }
      → ServerStep job_id s t
  accept_failed : s.listening ≡ true → t ≡ s → ServerStep job_id s t
  served :
      (xs ys : List Guest) (g : Guest)
      → s.guests ≡ xs ++ g ∷ ys
      → t ≡ record s { guests = xs ++ ys; connection = serve job_id g s.connection }
      → ServerStep job_id s t
  -- with whether the file could be removed
  shut_down :
      (removed : Bool)
      → s.listening ≡ true
      → s.connection.notified ≡ true
      → t
        ≡ clean_up removed
            (record s { listening = false; connection = record s.connection { notified = false } })
      → ServerStep job_id s t

pub data ServerReach (job_id : ℕ) (s : Server) : Server → Type 0 where
  here : ServerReach job_id s s
  next : {t u : Server} → ServerReach job_id s t → ServerStep job_id t u → ServerReach job_id s u
