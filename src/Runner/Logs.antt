-- ===== src/Runner/Logs.antt =====
-- runner/src/bin/runner.rs, `setup_log_stream`: the lines that a job's log sends to the logger. The coding
-- by serde_json, the texts of an id and of a number, and the time of each line are parameters.
mod Pipeline
mod Tests
use Prim.Native.String.{String, ◌++◌ as str_append}
use cloud_devenv_sh.Base.{List, Option, ℕ, [], none, ◌++◌, ◌∷◌, some, suc}
use cloud_devenv_sh.Protocol.{LogEntry}
use cloud_devenv_sh.Logger.{Log}

-- `{}={}` of each field, joined by a space.
unfoldable pub fields_str : List (String × String) → String
fields_str [] = ""
fields_str ((k, v) ∷ []) = str_append k (str_append "=" v)
fields_str ((k, v) ∷ f ∷ fields) =
    let rest = fields_str (f ∷ fields) in
    str_append k (str_append "=" (str_append v (str_append " " rest)))

-- `[{}] {}: {}`, of the level, the target and the message.
unfoldable pub formatted : LogEntry → String
formatted e =
    str_append "["
      (str_append e.level (str_append "] " (str_append e.target (str_append ": " e.message))))

unfoldable pub formatted_message : LogEntry → String
unfolding formatted fields_str
formatted_message e = elim e.fields [
  | [] ↦ formatted e
  | f ∷ fields ↦ str_append (formatted e) (str_append " " (fields_str (f ∷ fields)))
]

-- The first message of a job.
unfoldable pub initial_entry : (ℕ → String) → (ℕ → String) → ℕ → ℕ → ℕ → LogEntry
initial_entry uuid_text decimal job_id cpu_count memory_mb = record {
  level = "INFO";
  target = "runner";
  message = str_append "Job " (
      str_append (uuid_text job_id) (
        str_append " claimed, starting VM with " (
          str_append (decimal cpu_count)
            (str_append " CPUs and " (str_append (decimal memory_mb) "MB RAM")))));
  fields = [];
}

module _ (entry_from_str : String → Option LogEntry) (now : ℕ → String) where
  -- The `i`-th line. A message that is no entry is a line of its own.
  unfoldable pub to_log : ℕ → String → Log
  unfolding formatted_message
  to_log i message = elim (entry_from_str message) [
    | none ↦ record { message = message; timestamp = now i; level = "INFO" }
    | some e ↦ record { message = formatted_message e; timestamp = now i; level = e.level }
  ]

  unfoldable pub to_logs : ℕ → List String → List Log
  unfolding to_log
  to_logs i [] = []
  to_logs i (m ∷ ms) = to_log i m ∷ to_logs (suc i) ms

-- A line of the body; nothing where the log cannot be serialized.
unfoldable pub ndjson : (Log → Option (List ℕ)) → Log → List ℕ
ndjson log_to_string log = elim (log_to_string log) [ none ↦ [] | some bytes ↦ bytes ++ 10 ∷ [] ]

unfoldable pub body : (Log → Option (List ℕ)) → List Log → List ℕ
unfolding ndjson
body log_to_string [] = []
body log_to_string (l ∷ ls) = ndjson log_to_string l ++ body log_to_string ls

-- What is put in the channel: the first message is sent by a task of its own, so that others may come
-- before it; it is missing where it cannot be serialized.
unfoldable pub channel : Option String → List String → List String → List String
channel none earlier later = earlier ++ later
channel (some first) earlier later = earlier ++ first ∷ later

-- The body of the request, as far as the messages in the channel go: the task holds a sender of its own
-- channel, so that the code never ends the body.
unfoldable pub setup_log_stream :
    (LogEntry → Option String)
    → (String → Option LogEntry)
    → (Log → Option (List ℕ))
    → (ℕ → String)
    → (ℕ → String)
    → (ℕ → String)
    → ℕ
    → ℕ
    → ℕ
    → List String
    → List String
    → List ℕ
unfolding to_logs body channel
setup_log_stream entry_to_string entry_from_str log_to_string now uuid_text decimal job_id cpu_count
      memory_mb earlier later =
    body log_to_string (
      to_logs entry_from_str now 0 (
        channel (entry_to_string (initial_entry uuid_text decimal job_id cpu_count memory_mb))
          earlier later))
