-- ===== src/Logger.antt =====
-- logger/src: the service that stores the lines of a job's log and streams them back. The database
-- (SlateDB) is an interface, the coding of a line by serde_json a parameter, and so is the text of an id.
use Prim.Native.String.{String}
mod Keys
pub mod Posts
mod Streams
pub mod Tests
use cloud_devenv_sh.Base.{
  ℕ, zero, suc, none, some, Bool, Option, List, ◌∷◌, [], ◌++◌, true, false, map, if◌then◌else◌, ltb,
  not, ◌+◌, ◌/◌, ◌≡◌, length, ◌&&◌, ◌-◌, ◌^◌, ◌||◌, ◌%◌, ◌==◌,
}
use cloud_devenv_sh.Base.Texts.{Text}

pub record Log : Type 0 where
  pub message : String
  pub timestamp : String
  pub level : String

-- A digit of `{:x}`.
unfoldable pub hex_digit : ℕ → ℕ
hex_digit d = if ltb d 10 then b'0' + d else b'a' + (d - 10)

-- The last `k` hexadecimal digits of a number.
unfoldable pub hex : ℕ → ℕ → Text
unfolding hex_digit
hex zero n = []
hex (suc k) n = hex_digit (n / 16 ^ k) ∷ hex k (n % 16 ^ k)

-- `{}-{:016x}`: 16 digits are all that a `u64` has.
unfoldable pub format_key : Text → ℕ → Text
unfolding hex
format_key uuid log_line = uuid ++ b'-' ∷ hex 16 log_line

abbrev pub u64_max : ℕ
u64_max = 18446744073709551615

-- The order of the database's keys, byte by byte.
unfoldable pub bytes_lt : Text → Text → Bool
bytes_lt [] [] = false
bytes_lt [] (d ∷ ds) = true
bytes_lt (c ∷ cs) [] = false
bytes_lt (c ∷ cs) (d ∷ ds) = ltb c d || c == d && bytes_lt cs ds

unfoldable pub in_range : Text → Text → Text → Bool
in_range from to k = not (bytes_lt k from) && bytes_lt k to

-- An entry put into a list of entries that is in the order of its keys.
unfoldable pub insert_sorted {ℓ} : {V : Type ℓ} → Text → V → List (Text × V) → List (Text × V)
insert_sorted k v [] = (k, v) ∷ []
insert_sorted k v ((j, w) ∷ es) =
    let rest = insert_sorted k v es in
    if bytes_lt j k
    then (j, w) ∷ rest
    else if bytes_lt k j
    then (k, v) ∷ (j, w) ∷ es
    else (k, v) ∷ es

-- What the logger relies on of its database: `scan` lists the entries whose keys are in the half-open
-- range, in the order of the keys, and `put` adds an entry or replaces that of its key.
pub record Database {ℓ κ} (Db : Type ℓ) (V : Type κ) : Type (ℓ ⊔ κ) where
  pub put : Text → V → Db → Db
  pub scan : Text → Text → Db → List (Text × V)
  pub scan-put :
      (from to k : Text) (v : V) (db : Db)
      → scan from to (put k v db)
        ≡ (if in_range from to k then insert_sorted k v (scan from to db) else scan from to db)

-- What the body of a post gives next: a line, with whether the database will take it, or what is no line.
pub data Received : Type 0 where
  line : Log → Bool → Received
  unparsed : Received

-- What one pass of the loop of a stream finds: a scan that fails, or the database as the scan sees it,
-- with the number of reads after which the iterator fails, if it does.
pub data Round {ℓ} (Db : Type ℓ) : Type ℓ where
  refused : Round Db
  scanned : Db → Option ℕ → Round Db

pub data Yielded {ℓ} (V : Type ℓ) : Type ℓ where
  item : Text → V → Yielded V
  error : Yielded V

pub data Event {ℓ} (V : Type ℓ) : Type ℓ where
  ready : Event V
  data_of : V → Event V

abbrev pub take {ℓ} : {A : Type ℓ} → ℕ → List A → List A
take zero xs = []
take (suc n) [] = []
take (suc n) (x ∷ xs) = x ∷ take n xs

abbrev pub read {ℓ} : {A : Type ℓ} → Option ℕ → List A → List A
read none xs = xs
read (some n) xs = take n xs

module _ {ℓ κ} {Db : Type ℓ} {V : Type κ} (store : Database Db V) (uuid : Text) where
  -- From the number of lines received so far on; the database after it.
  unfoldable pub post_logs : (Log → ℕ → V) → ℕ → List Received → Db → Db
  unfolding format_key
  post_logs encode line_counter [] db = db
  post_logs encode line_counter (Received.unparsed ∷ rest) db =
      post_logs encode line_counter rest db
  post_logs encode line_counter (Received.line log written ∷ rest) db =
      let n = (line_counter + 1) % 2 ^ 64 in
      post_logs encode n rest
        (if written then store.put (format_key uuid n) (encode log n) db else db)

  -- The stream from the key of `log_line` on, over the passes of its loop.
  unfoldable pub into_stream : ℕ → List (Round Db) → List (Yielded V)
  unfolding format_key
  into_stream log_line [] = []
  into_stream log_line (Round.refused ∷ rounds) = Yielded.error ∷ into_stream log_line rounds
  into_stream log_line (Round.scanned db stop ∷ rounds) =
      let items = read stop (store.scan (format_key uuid log_line) (format_key uuid u64_max) db) in
      map (λ (e : Text × V). Yielded.item e.0 e.1) items
      ++ into_stream ((log_line + length items) % 2 ^ 64) rounds

abbrev events_of {ℓ} : {V : Type ℓ} → List (Yielded V) → List (Event V)
events_of [] = []
events_of (Yielded.item k v ∷ ys) = Event.data_of v ∷ events_of ys
events_of (Yielded.error ∷ ys) = events_of ys

-- The events of a response, over the passes of its stream; the keep-alive is left out.
unfoldable pub get_logs {ℓ κ} :
    {Db : Type ℓ} {V : Type κ} → Database Db V → Text → List (Round Db) → List (Event V)
unfolding into_stream
get_logs store uuid rounds = Event.ready ∷ events_of (into_stream store uuid 0 rounds)
