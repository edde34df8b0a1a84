-- ===== src/Runner/Vsock/Tests.antt =====
-- Runs of runner/src/vsock.rs on small inputs.
use cloud_devenv_sh.Backend.Accounts.{Json, Fields}
use cloud_devenv_sh.Base.{
  ◌==◌, if◌then◌else◌, ℕ, refl, none, some, [], ◌∷◌, true, false, List, Option, ◌≡◌, arith,
}
use cloud_devenv_sh.Runner.Vsock.{Connection, receive_result, handle_guest_connection, store_result}
use cloud_devenv_sh.Runner.Vsock.Guests.{EndsAt, receive_result-EndsAt}
use cloud_devenv_sh.Protocol.{VsockGuestMessage, JobConfig, LogEntry, VsockHostMessage}
use cloud_devenv_sh.Runner.Vsock.Buffer.{run, Act, Splits, entries, run-Splits}
use cloud_devenv_sh.Runner.Vsock.Server.{
  here, next, served, accepted, shut_down, Guest, Server, ServerReach, clean_up, serve,
}
use cloud_devenv_sh.Runner.Vsock.Sessions.{Serves, session-Serves}
use cloud_devenv_sh.Runner.Vsock.Reporter.{JobReporter}

-- A coding of numbers as one byte each.
abbrev code : ℕ → Option (List ℕ)
code n = some (n ∷ [])

abbrev decode : List ℕ → Option ℕ
decode (n ∷ []) = some n
decode _ = none

abbrev messages : List (Option VsockGuestMessage)
messages =
    some (VsockGuestMessage.ready 4)
    ∷ some (VsockGuestMessage.complete 5 false)
    ∷ some (VsockGuestMessage.complete 4 true)
    ∷ none
    ∷ []

receive_result-EndsAt_example : EndsAt 4 messages (receive_result 4 messages)
receive_result-EndsAt_example = receive_result-EndsAt 4 messages

abbrev opened : Connection
opened = record { job_result = some none; notified = false; logs = [] }

abbrev closed : Connection
closed = record { job_result = some (some true); notified = true; logs = [] }

abbrev entry : LogEntry
entry = record { level = "INFO"; target = ""; message = "building"; fields = [] }

abbrev config : JobConfig
config = record {
  id = 4;
  project_url = "https://example.org/repo";
  git_ref = none;
  tasks = [];
  cachix_push = false;
  clone_depth = none;
}

-- A coding of the messages with this one entry.
abbrev guest_to_vec : VsockGuestMessage → Option (List ℕ)
guest_to_vec (VsockGuestMessage.ready id) = some (0 ∷ id ∷ [])
guest_to_vec (VsockGuestMessage.complete id false) = some (1 ∷ id ∷ [])
guest_to_vec (VsockGuestMessage.complete id true) = some (2 ∷ id ∷ [])
guest_to_vec (VsockGuestMessage.log id e) = some (3 ∷ id ∷ [])

abbrev guest_from_slice : List ℕ → Option VsockGuestMessage
guest_from_slice (kind ∷ id ∷ []) =
    if kind == 0
    then some (VsockGuestMessage.ready id)
    else if kind == 1
    then some (VsockGuestMessage.complete id false)
    else if kind == 2
    then some (VsockGuestMessage.complete id true)
    else some (VsockGuestMessage.log id entry)
guest_from_slice _ = none

abbrev host_to_vec : VsockHostMessage → Option (List ℕ)
host_to_vec m = some (9 ∷ [])

abbrev host_from_slice : List ℕ → Option VsockHostMessage
host_from_slice bytes = some (VsockHostMessage.job_config config)

session-Serves_example :
    Serves host_to_vec host_from_slice guest_to_vec guest_from_slice config
      (entry ∷ entry ∷ [])
      true
      opened
session-Serves_example =
    session-Serves host_to_vec host_from_slice guest_to_vec guest_from_slice config (9 ∷ [])
      (entry ∷ entry ∷ []) true opened refl refl (omega arith) (0 ∷ 4 ∷ [], refl, refl, omega arith)
      (
        (3 ∷ 4 ∷ [], refl, refl, omega arith),
        ((3 ∷ 4 ∷ [], refl, refl, omega arith), ((2 ∷ 4 ∷ [], refl, refl, omega arith), tt)),
      )

abbrev guest : Guest
guest = record {
  written = true;
  messages = some (VsockGuestMessage.ready 4) ∷ some (VsockGuestMessage.complete 4 false) ∷ [];
}

abbrev server : Server
server = record {
  listening = true;
  socket_file = true;
  guests = [];
  connection = opened;
  returned = none;
}

abbrev serving : Server
serving = record server { guests = guest ∷ [] }

abbrev told : Server
told = record server {
  connection = record opened { job_result = some (some false); notified = true };
}

abbrev stopped : Server
stopped = record {
  listening = false;
  socket_file = true;
  guests = [];
  connection = record opened { job_result = some (some false) };
  returned = some false;
}

serving-told : told ≡ record serving { guests = []; connection = serve 4 guest serving.connection }
unfolding serve handle_guest_connection receive_result store_result
serving-told = refl

-- The file cannot be removed.
abbrev history : ServerReach 4 server stopped
unfolding clean_up
history =
    let r : ServerReach 4 server serving = next here (accepted guest refl refl) in
    let q : ServerReach 4 server told = next r (served [] [] guest refl serving-told) in
    next q (shut_down false refl refl refl)

abbrev parsed : List ℕ → Option Json
parsed [] = none
parsed (b ∷ bs) = some (Json.object Fields.no_field)

abbrev reporter : JobReporter
reporter = record { job_id = 4; stream = []; connected = true }

abbrev acts : List Act
acts = Act.turn ∷ Act.line (1 ∷ []) ∷ Act.line [] ∷ Act.line (2 ∷ []) ∷ []

run-Splits_example :
    Splits guest_to_vec parsed
      (λ j. "")
      reporter
      (entries guest_to_vec parsed (λ j. "") acts)
      (run guest_to_vec parsed (λ j. "") reporter acts)
run-Splits_example = run-Splits guest_to_vec parsed (λ j. "") reporter acts
