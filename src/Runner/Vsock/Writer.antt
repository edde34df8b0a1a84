-- ===== src/Runner/Vsock/Writer.antt =====
-- runner/src/vsock.rs, `VsockWriter`: the log lines of the guest's program, on their way to the reporter.
-- The JSON values are those of the backend's webhooks; the parser and the printer of serde_json are
-- parameters, and so is what the reporter answers.
use Prim.Native.String.{String}
use text.Mathlib.Text.{◌==◌ as str_eq}
use cloud_devenv_sh.Backend.Accounts.{Json, Fields, get_field, and_then, as_str, as_object}
use cloud_devenv_sh.Base.{List, Option, ℕ, [], ◌∷◌, if◌then◌else◌, none, some, length, ltb, ◌++◌}
use cloud_devenv_sh.Runner.Vsock.Reporter.{JobReporter, send_log}
use cloud_devenv_sh.Protocol.{LogEntry, VsockGuestMessage}

-- Split at the key, the pairs but for the message.
unfoldable pub other_fields : (Json → String) → Fields → List (String × String)
other_fields to_string Fields.no_field = []
other_fields to_string (Fields.field key value fields) =
    let rest = other_fields to_string fields in
    if str_eq key "message" then rest else (key, to_string value) ∷ rest

abbrev pub unwrap_or : Option String → String → String
unwrap_or none default = default
unwrap_or (some s) default = s

abbrev pub or_else : Option String → Option String → Option String
or_else none other = other
or_else (some s) other = some s

-- The entry of a line that was parsed.
unfoldable pub entry_of : (Json → String) → Json → LogEntry
unfolding other_fields get_field
entry_of to_string json_value = record {
  level = unwrap_or (and_then (get_field "level" json_value) as_str) "INFO";
  target = unwrap_or (and_then (get_field "target" json_value) as_str) "";
  message =
      unwrap_or
        (or_else (and_then (and_then (get_field "fields" json_value) (get_field "message")) as_str)
          (and_then (get_field "message" json_value) as_str))
        "";
  fields = elim (and_then (get_field "fields" json_value) as_object) [
    | none ↦ []
    | some json_fields ↦ other_fields to_string json_fields
  ];
}

-- The channel that the clones of the writer share, oldest entry first, with the entries that did not fit,
-- and the end of the task that drains it.
pub record VsockWriter : Type 0 where
  pub channel : List LogEntry
  pub dropped : List LogEntry
  pub reporter : JobReporter

abbrev pub capacity : ℕ
capacity = 100

unfoldable pub new_writer : JobReporter → VsockWriter
new_writer r = record { channel = []; dropped = []; reporter = r }

module _ (from_str : List ℕ → Option Json) (to_string : Json → String) where
  -- With the number of bytes that it says were written.
  unfoldable pub write : List ℕ → VsockWriter → VsockWriter × ℕ
  unfolding entry_of
  write buf w = elim (from_str buf) [
    | none ↦ (w, length buf)
    | some json_value ↦
        let entry = entry_of to_string json_value in
        if ltb (length w.channel) capacity
        then (record w { channel = w.channel ++ entry ∷ [] }, length buf)
        else (record w { dropped = w.dropped ++ entry ∷ [] }, length buf)
  ]

-- One turn of the task: an entry that cannot be sent is only printed.
unfoldable pub forward : (VsockGuestMessage → Option (List ℕ)) → VsockWriter → VsockWriter
unfolding send_log
forward to_vec w = elim w.channel [
  | [] ↦ w
  | entry ∷ rest ↦ record w { channel = rest; reporter = (send_log to_vec entry w.reporter).0 }
]
