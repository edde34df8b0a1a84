-- ===== src/Logger/Tests.antt =====
-- Runs of logger/src over a database that keeps all that was put and replays it for a scan.
use cloud_devenv_sh.Base.{ℕ, none, List, ◌∷◌, [], ◌≡◌, refl, arith, length, if◌then◌else◌, ◌<◌}
use cloud_devenv_sh.Logger.{
  format_key, Database, Log, Round, Yielded, into_stream, u64_max, post_logs, in_range,
  insert_sorted,
}
use cloud_devenv_sh.Logger.Streams.{into_stream-lines, Grows}
use cloud_devenv_sh.Base.Texts.{Text}
use cloud_devenv_sh.Logger.Posts.{Holds, all_written, post-Holds}

unfoldable pub replay_scan : Text → Text → List (Text × ℕ) → List (Text × ℕ)
replay_scan from to [] = []
replay_scan from to ((k, v) ∷ db) =
    let rest = replay_scan from to db in if in_range from to k then insert_sorted k v rest else rest

unfoldable pub replay : Database (List (Text × ℕ)) ℕ
unfolding replay_scan
replay = record {
  put = λ (k : Text) (v : ℕ) (db : List (Text × ℕ)). (k, v) ∷ db;
  scan = replay_scan;
  scan-put = λ (from to k : Text) (v : ℕ) (db : List (Text × ℕ)). refl;
}

abbrev pub uuid : Text
uuid = b'7' ∷ []

abbrev pub encode : Log → ℕ → ℕ
encode l n = n

abbrev sample : Log
sample = record { message = "built"; timestamp = "0"; level = "info" }

abbrev post : List Log → List (Text × ℕ)
post ls = post_logs replay uuid encode 0 (all_written ls) []

pub nothing_held : Holds replay uuid encode [] []
unfolding replay replay_scan
nothing_held k lt = refl

held : (ls : List Log) → length ls < u64_max → Holds replay uuid encode ls (post ls)
held ls lt = post-Holds replay uuid encode 0 [] ls [] refl (omega arith) nothing_held

-- One line when the stream finds the log, and another before its next pass.
into_stream-lines_example :
    into_stream replay uuid 0 (
      Round.scanned [] none
      ∷ Round.scanned (post (sample ∷ [])) none
      ∷ Round.scanned (post (sample ∷ sample ∷ [])) none
      ∷ [])
    ≡ Yielded.item (format_key uuid 1) 1
      ∷ Yielded.item (format_key uuid 1) 1
      ∷ Yielded.item (format_key uuid 2) 2
      ∷ []
into_stream-lines_example =
    into_stream-lines replay uuid encode ([] ∷ []) sample [] (sample ∷ []) (post (sample ∷ []))
      (post (sample ∷ sample ∷ [])) (nothing_held, tt) (held (sample ∷ []) (omega arith))
      (held (sample ∷ sample ∷ []) (omega arith)) Grows.done (omega arith)
