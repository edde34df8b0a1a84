-- ===== src/Runner/Vsock.antt =====
-- runner/src/vsock.rs: what the host and the guest say to each other. A byte is a number; the coding of
-- a message by serde_json is a pair of parameters. Reading gives a message or an error, and a stream that
-- ends is an error too.
mod Framing
mod Guests
pub mod Reporter
pub mod Sessions
mod Writer
pub mod Server
pub mod Shutdown
mod Buffer
mod Tests
use cloud_devenv_sh.Base.{
  ℕ, [], ◌∷◌, none, some, Bool, List, Option, if◌then◌else◌, length, ◌%◌, ◌+◌, true, ◌*◌, ◌++◌, ◌/◌,
  ◌==◌, false, ◌-◌,
}
use cloud_devenv_sh.Protocol.{LogEntry, VsockGuestMessage}

-- `u32::to_le_bytes` of a length, which is cast to 32 bits.
unfoldable pub to_le_bytes : ℕ → List ℕ
to_le_bytes n = n % 256 ∷ n / 256 % 256 ∷ n / 65536 % 256 ∷ n / 16777216 % 256 ∷ []

unfoldable pub from_le_bytes : List ℕ → ℕ
from_le_bytes [] = 0
from_le_bytes (b ∷ bs) = b + 256 * from_le_bytes bs

-- `none` when the stream ends too early; else the bytes and what is left.
unfoldable pub read_exact : List ℕ → ℕ → Option (List ℕ × List ℕ)
read_exact [] n = if n == 0 then some ([], []) else none
read_exact (b ∷ bs) n =
    let rest = read_exact bs (n - 1) in
    if n == 0
    then some ([], b ∷ bs)
    else elim rest [ none ↦ none | some (xs, ys) ↦ some (b ∷ xs, ys) ]

module _ {T : Type 0} (to_vec : T → Option (List ℕ)) where
  -- The bytes that are written; `none` when the message cannot be serialized.
  unfoldable pub write_message : T → Option (List ℕ)
  write_message message = elim (to_vec message) [
    | none ↦ none
    | some bytes ↦ some (to_le_bytes (length bytes) ++ bytes)
  ]

module _ {T : Type 0} (from_slice : List ℕ → Option T) where
  unfoldable pub read_message : List ℕ → Option (T × List ℕ)
  read_message stream = elim (read_exact stream 4) [
    | none ↦ none
    | some (len_buf, rest) ↦ elim (read_exact rest (from_le_bytes len_buf)) [
      | none ↦ none
      | some (buf, left) ↦ elim (from_slice buf) [ none ↦ none | some m ↦ some (m, left) ]
    ]
  ]

-- The loop that waits for the result: the result, and the log entries that were passed on. `none` in the
-- list is a read that failed.
unfoldable pub receive_result : ℕ → List (Option VsockGuestMessage) → Option Bool × List LogEntry
receive_result job_id [] = (none, [])
receive_result job_id (none ∷ ms) = (none, [])
receive_result job_id (some (VsockGuestMessage.ready id) ∷ ms) = receive_result job_id ms
receive_result job_id (some (VsockGuestMessage.complete id success) ∷ ms) =
    let rest = receive_result job_id ms in if id == job_id then (some success, []) else rest
receive_result job_id (some (VsockGuestMessage.log id entry) ∷ ms) =
    let (result, entries) = receive_result job_id ms in
    if id == job_id then (result, entry ∷ entries) else (result, entries)

-- What a connection leaves: the shared state of the result, if one was given, whether the server is told
-- to shut down, and the log.
pub record Connection : Type 0 where
  pub job_result : Option (Option Bool)
  pub notified : Bool
  pub logs : List LogEntry

unfoldable pub store_result : Option Bool → List LogEntry → Connection → Connection
store_result none entries c = record c { logs = c.logs ++ entries }
store_result (some success) entries c = record c {
  job_result = elim c.job_result [ none ↦ none | some old ↦ some (some success) ];
  notified = true;
  logs = c.logs ++ entries;
}

-- The first message; `false` when the connection ends with an error.
abbrev pub is_ready : ℕ → List (Option VsockGuestMessage) → Bool
is_ready job_id (some (VsockGuestMessage.ready id) ∷ ms) = id == job_id
is_ready job_id _ = false

abbrev pub tail : List (Option VsockGuestMessage) → List (Option VsockGuestMessage)
tail [] = []
tail (m ∷ ms) = ms

-- With whether the function returns without an error. `written`: the configuration was sent.
unfoldable pub handle_guest_connection :
    ℕ → Bool → List (Option VsockGuestMessage) → Connection → Connection × Bool
unfolding receive_result store_result
handle_guest_connection job_id written ms c =
    let (result, entries) = receive_result job_id (tail ms) in
    if written
    then (if is_ready job_id ms then (store_result result entries c, true) else (c, false))
    else (c, false)
