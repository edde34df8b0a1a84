-- ===== src/Runner/Logs/Pipeline.antt =====
-- A job's log, from runner/src/bin/runner.rs to the lines that logger/src finds in its database.
use mathlib.Core.List.{append_assoc, cons≢nil}
use Prim.Native.String.{String, ◌++◌ as str_append}
use cloud_devenv_sh.Logger.{Log, Received, Database, u64_max, format_key, post_logs}
use cloud_devenv_sh.Runner.Logs.{
  formatted, fields_str, formatted_message, to_log, initial_entry, body, ndjson, setup_log_stream,
  to_logs, channel,
}
use cloud_devenv_sh.Base.{
  ◌⊎◌, ◌≢◌, inl, inr, suc, none, Option-cases, List, Option, ℕ, All, [], ◌≡◌, some, ◌==◌, false,
  ◌∷◌, true, ◌++◌, ap, ◌∙◌, refl, length, ◌<◌, ◌^◌,
}
use cloud_devenv_sh.Logger.Posts.{all_written, Holds, lines_from, scan-post_logs}
use cloud_devenv_sh.Base.Texts.{Text}
use cloud_devenv_sh.Protocol.{LogEntry}

-- What the logger relies on of the reader of a body: it splits the body at the line ends, and reads each
-- line by itself.
pub record ReadsLines (json_lines : List ℕ → List Received) (read : List ℕ → Received)
    : Type 0 where
  pub no_line : json_lines [] ≡ []
  pub next_line :
      (line rest : List ℕ)
      → All (λ c. (c == 10) ≡ false) line
      → json_lines (line ++ 10 ∷ rest) ≡ read line ∷ json_lines rest

-- A line is written without a line end, and is read back; the database takes it.
abbrev pub IsLine : (Log → Option (List ℕ)) → (List ℕ → Received) → Log → Type 0
IsLine log_to_string read l =
    (line : List ℕ) × (log_to_string l ≡ some line)
    × All (λ c. (c == 10) ≡ false) line
    × (read line ≡ Received.line l true)

json_lines-body :
    (json_lines : List ℕ → List Received) (read : List ℕ → Received)
    (log_to_string : Log → Option (List ℕ)) (ls : List Log)
    → ReadsLines json_lines read
    → All (IsLine log_to_string read) ls
    → json_lines (body log_to_string ls) ≡ all_written ls
unfolding body
json_lines-body json_lines read log_to_string [] r a = r.no_line
json_lines-body json_lines read log_to_string (l ∷ ls) r ((line, e, n, f), a) =
    ap json_lines (
      ap (λ (bytes : List ℕ). bytes ++ body log_to_string ls) (written_line log_to_string l line e)
      ∙ append_assoc line (10 ∷ []) (body log_to_string ls))
    ∙ r.next_line line (body log_to_string ls) n
    ∙ ap (λ (x : Received). x ∷ json_lines (body log_to_string ls)) f
    ∙ ap (λ (xs : List Received). Received.line l true ∷ xs)
        (json_lines-body json_lines read log_to_string ls r a)
  where
    written_line :
        (log_to_string : Log → Option (List ℕ)) (l : Log) (line : List ℕ)
        → log_to_string l ≡ some line
        → ndjson log_to_string l ≡ line ++ 10 ∷ []
    written_line log_to_string l line e = rw (ndjson, e) refl

-- What the code promises of the `i`-th message: a text that is no entry stands as it is, under "INFO"; an
-- entry keeps its level and has the text `[level] target: message`, with its fields behind it.
abbrev pub IsLogOf : (String → Option LogEntry) → (ℕ → String) → ℕ → String → Log → Type 0
IsLogOf entry_from_str now i m l =
    (l.timestamp ≡ now i)
    × (((entry_from_str m ≡ none) × (l.message ≡ m) × (l.level ≡ "INFO"))
        ⊎ ((e : LogEntry) × (entry_from_str m ≡ some e)
            × (l.level ≡ e.level)
            × (((e.fields ≡ []) × (l.message ≡ formatted e))
                ⊎ ((e.fields ≢ [])
                    × (l.message
                        ≡ str_append (formatted e) (str_append " " (fields_str e.fields)))))))

-- One log for each message, in their order, from the number `i` on.
abbrev pub AreLogsOf :
    (String → Option LogEntry) → (ℕ → String) → ℕ → List String → List Log → Type 0
AreLogsOf entry_from_str now i [] [] = Unit
AreLogsOf entry_from_str now i (m ∷ ms) (l ∷ ls) =
    IsLogOf entry_from_str now i m l × AreLogsOf entry_from_str now (suc i) ms ls
AreLogsOf entry_from_str now i _ _ = ⊥

abbrev HasText : LogEntry → List (String × String) → String → Type 0
HasText e fields text =
    ((fields ≡ []) × (text ≡ formatted e))
    ⊎ ((fields ≢ []) × (text ≡ str_append (formatted e) (str_append " " (fields_str fields))))

formatted_message-HasText :
    (e : LogEntry) (fields : List (String × String))
    → e.fields ≡ fields
    → HasText e fields (formatted_message e)
unfolding formatted_message
formatted_message-HasText e [] h = inl (refl, rw (formatted_message, h) refl)
formatted_message-HasText e (f ∷ fields) h = inr ((λ x. cons≢nil x), rw (formatted_message, h) refl)

to_log-IsLogOf :
    (entry_from_str : String → Option LogEntry) (now : ℕ → String) (i : ℕ) (m : String)
    → IsLogOf entry_from_str now i m (to_log entry_from_str now i m)
unfolding to_log
to_log-IsLogOf entry_from_str now i m = elim (Option-cases (entry_from_str m)) [
  | inl n ↦ rw (to_log, n) (refl, inl (refl, refl, refl))
  | inr (e, p) ↦
      rw (to_log, p) (refl, inr (e, refl, refl, formatted_message-HasText e e.fields refl))
]

to_logs-AreLogsOf :
    (entry_from_str : String → Option LogEntry) (now : ℕ → String) (i : ℕ) (ms : List String)
    → AreLogsOf entry_from_str now i ms (to_logs entry_from_str now i ms)
unfolding to_logs
to_logs-AreLogsOf entry_from_str now i [] = tt
to_logs-AreLogsOf entry_from_str now i (m ∷ ms) =
    (to_log-IsLogOf entry_from_str now i m, to_logs-AreLogsOf entry_from_str now (suc i) ms)

-- The log of a job arrives: once the logger has read what the runner sent, a scan finds, in order and
-- numbered from 1, just one line for each message in the channel, where the logger's database had no line
-- of this log before: a plain text as it is, under "INFO", and an entry with its own level and its text.
-- Each line has to be one that the codings read back, and there are fewer than a u64 counts.
pub setup_log_stream-lines {ℓ κ} :
    {Db : Type ℓ} {V : Type κ} (store : Database Db V) (uuid : Text) (encode : Log → ℕ → V)
    (json_lines : List ℕ → List Received) (read : List ℕ → Received)
    (entry_to_string : LogEntry → Option String) (entry_from_str : String → Option LogEntry)
    (log_to_string : Log → Option (List ℕ)) (now uuid_text decimal : ℕ → String)
    (job_id cpu_count memory_mb : ℕ) (earlier later : List String) (db : Db) (k : ℕ)
    → ReadsLines json_lines read
    → All (IsLine log_to_string read) (
        to_logs entry_from_str now 0 (
          channel
            (entry_to_string (initial_entry uuid_text decimal job_id cpu_count memory_mb))
            earlier
            later))
    → length (
        to_logs entry_from_str now 0 (
          channel
            (entry_to_string (initial_entry uuid_text decimal job_id cpu_count memory_mb))
            earlier
            later))
      < u64_max
    → Holds store uuid encode [] db
    → k < 2 ^ 64
    → (ls : List Log) × AreLogsOf entry_from_str now 0
        (channel
          (entry_to_string (initial_entry uuid_text decimal job_id cpu_count memory_mb))
          earlier
          later)
        ls
      × (store.scan (format_key uuid k) (format_key uuid u64_max) (
            post_logs store uuid encode 0
              (json_lines (
                setup_log_stream entry_to_string entry_from_str log_to_string now uuid_text decimal
                  job_id cpu_count memory_mb earlier later))
              db)
          ≡ lines_from store uuid encode k 1 ls)
unfolding setup_log_stream
setup_log_stream-lines store uuid encode json_lines read entry_to_string entry_from_str
      log_to_string now uuid_text decimal job_id cpu_count memory_mb earlier later db k r a lt h
      hk =
    let ls : List Log = to_logs entry_from_str now 0 (
      channel (entry_to_string (initial_entry uuid_text decimal job_id cpu_count memory_mb)) earlier
        later) in
    (
      ls,
      to_logs-AreLogsOf entry_from_str now 0 (
          channel (entry_to_string (initial_entry uuid_text decimal job_id cpu_count memory_mb))
            earlier later),
      ap
            (λ (received : List Received).
              store.scan (format_key uuid k) (format_key uuid u64_max)
                (post_logs store uuid encode 0 received db))
            (json_lines-body json_lines read log_to_string ls r a)
          ∙ scan-post_logs store uuid encode ls db k lt h hk,
    )
