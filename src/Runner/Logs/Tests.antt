-- ===== src/Runner/Logs/Tests.antt =====
-- A log of two lines, from the runner to the logger.
use Prim.Native.String.{String}
use text.Mathlib.Text.{◌==◌ as str_eq}
use cloud_devenv_sh.Logger.Tests.{replay, uuid, encode, nothing_held}
use cloud_devenv_sh.Logger.Posts.{lines_from}
use cloud_devenv_sh.Runner.Logs.Pipeline.{ReadsLines, IsLine, AreLogsOf, setup_log_stream-lines}
use cloud_devenv_sh.Base.{
  List, Option, [], ℕ, All, none, some, refl, true, ◌==◌, ◌∷◌, if◌then◌else◌, length, ◌≡◌, false,
  ◌<◌, arith, ◌++◌, ap, map,
}
use cloud_devenv_sh.Logger.{Log, format_key, Received, u64_max, post_logs}
use cloud_devenv_sh.Runner.Logs.{formatted_message, to_logs, to_log, channel, setup_log_stream}
use cloud_devenv_sh.Protocol.{LogEntry}

-- The runner sends an entry, and a text that is none.
abbrev failure : LogEntry
failure = record {
  level = "ERROR";
  target = "guest";
  message = "failed";
  fields = ("unit", "nix") ∷ [];
}

abbrev from_str : String → Option LogEntry
from_str s = if str_eq s "entry" then some failure else none

abbrev logs : List Log
logs = to_logs from_str (λ i. "t") 0 (channel (some "entry") [] ("text" ∷ []))

-- A coding in which a line is the code of its level.
abbrev log_to_string : Log → Option (List ℕ)
log_to_string l = some ((if str_eq l.level "ERROR" then 66 else 65) ∷ [])

abbrev text_log : Log
text_log = record { message = "text"; timestamp = "t"; level = "INFO" }

unfoldable read : List ℕ → Received
unfolding formatted_message
read [] = Received.line text_log true
read (c ∷ cs) =
    if c == 66
    then Received.line
        (record { message = formatted_message failure; timestamp = "t"; level = "ERROR" }) true
    else Received.line text_log true

-- Splits at the line ends; what follows the last one is left out.
abbrev push : ℕ → List (List ℕ) → List (List ℕ)
push c [] = []
push c (l ∷ ls) = (c ∷ l) ∷ ls

unfoldable split : List ℕ → List (List ℕ)
split [] = []
split (c ∷ cs) = let rest = split cs in if c == 10 then [] ∷ rest else push c rest

split_line :
    (line rest : List ℕ)
    → All (λ c. (c == 10) ≡ false) line
    → split (line ++ 10 ∷ rest) ≡ line ∷ split rest
unfolding split
split_line [] rest a = refl
split_line (c ∷ cs) rest (h, a) = rw (h, split_line cs rest a) refl

abbrev json_lines : List ℕ → List Received
json_lines bytes = map read (split bytes)

reads : ReadsLines json_lines read
unfolding split
reads = record { no_line = refl; next_line = λ line rest a. ap (map read) (split_line line rest a) }

lines : All (IsLine log_to_string read) logs
unfolding to_logs to_log channel read
lines = ((66 ∷ [], refl, (refl, tt), refl), ((65 ∷ [], refl, (refl, tt), refl), tt))

few : length logs < u64_max
unfolding to_logs to_log channel
few = omega arith

setup_log_stream-lines_example :
    (ls : List Log) × AreLogsOf from_str (λ i. "t") 0 (channel (some "entry") [] ("text" ∷ [])) ls
    × (replay.scan (format_key uuid 0) (format_key uuid u64_max) (
          post_logs replay uuid encode 0
            (json_lines (
              setup_log_stream
                (λ e. some "entry")
                from_str
                log_to_string
                (λ i. "t")
                (λ i. "id")
                (λ n. "n")
                7
                2
                1024
                []
                ("text" ∷ [])))
            [])
        ≡ lines_from replay uuid encode 0 1 ls)
setup_log_stream-lines_example =
    setup_log_stream-lines replay uuid encode json_lines read (λ e. some "entry") from_str
      log_to_string (λ i. "t") (λ i. "id") (λ n. "n") 7 2 1024 [] ("text" ∷ []) [] 0 reads lines few
      nothing_held (omega arith)
