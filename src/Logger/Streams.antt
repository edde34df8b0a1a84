-- ===== src/Logger/Streams.antt =====
-- logger/src/stream.rs, `into_stream`: what is streamed of a log that grows while it is read.
use mathlib.Core.List.{append-nil, append_assoc}
use cloud_devenv_sh.Base.{
  ℕ, suc, none, List, ◌∷◌, [], ◌++◌, map, ◌≡◌, refl, arith, ◌+◌, ◌≤◌, length, Bool-cases, ap, ◌==◌,
  inl, inr, sym, ◌<◌, ◌^◌, ◌%◌, All, length-append, subst, ◌∙◌,
}
use cloud_devenv_sh.Logger.{Database, Log, Round, Yielded, into_stream, u64_max}
use cloud_devenv_sh.Logger.Posts.{Holds, lines_from}
use cloud_devenv_sh.Base.Texts.{Text}

module _ {ℓ κ} {Db : Type ℓ} {V : Type κ} (store : Database Db V) (uuid : Text)
    (encode : Log → ℕ → V) where
  abbrev lines : ℕ → ℕ → List Log → List (Text × V)
  lines k i ls = lines_from store uuid encode k i ls

  abbrev pub items : List (Text × V) → List (Yielded V)
  items es = map (λ (e : Text × V). Yielded.item e.0 e.1) es

  lines-append :
      (k i : ℕ) (ls more : List Log)
      → lines k i (ls ++ more) ≡ lines k i ls ++ lines k (i + length ls) more
  lines-append k i [] more = ap (λ (j : ℕ). lines k j more) (omega arith)
  lines-append k i (l ∷ ls) more = ground (arith, lines-append k (suc i) ls more)

  lines_late : (k i : ℕ) (ls : List Log) → i + length ls ≤ k → lines k i ls ≡ []
  lines_late k i [] le = refl
  lines_late k i (l ∷ ls) le = ground (arith, lines_late k (suc i) ls (omega arith))

  lines_early : (j k i : ℕ) (ls : List Log) → j ≤ i → k ≤ i → lines j i ls ≡ lines k i ls
  lines_early j k i [] lej lek = refl
  lines_early j k i (l ∷ ls) lej lek =
      ground (arith, lines_early j k (suc i) ls (omega arith) (omega arith))

  length-lines :
      (k i : ℕ) (ls : List Log)
      → i ≤ k
      → k ≤ i + length ls
      → k + length (lines k i ls) ≡ i + length ls
  length-lines k i [] le le' = omega arith
  length-lines k i (l ∷ ls) le le' = elim (Bool-cases (k == i)) [
    | inl same ↦ ground (arith, length_all (suc i) ls, lines_early k (suc i) (suc i) ls)
    | inr later ↦ ground (arith, length-lines k (suc i) ls)
  ]
    where
      length_all : (j : ℕ) (xs : List Log) → length (lines j j xs) ≡ length xs
      length_all j [] = refl
      length_all j (x ∷ xs) =
          ground (arith, length_all (suc j) xs, lines_early j (suc j) (suc j) xs)

  -- From a line on that `xs` has or that comes next, what `xs` has and then what comes after.
  join :
      (k : ℕ) (xs rest : List Log)
      → k ≤ suc (length xs)
      → lines k 1 (xs ++ rest) ≡ lines k 1 xs ++ lines (suc (length xs)) 1 (xs ++ rest)
  join k xs rest le = ground (
    arith,
    lines-append k 1 xs rest,
    lines-append (suc (length xs)) 1 xs rest,
    lines_late (suc (length xs)) 1 xs (omega arith),
    lines_early k (suc (length xs)) (1 + length xs) rest (omega arith) (omega arith),
  )

  -- The passes of the loop, where no scan fails, over a log that grows: from the lines of the first list
  -- to those of the last.
  pub data Grows : List Log → List (Round Db) → List Log → Type (ℓ ⊔ κ) where
    done : {ls : List Log} → Grows ls [] ls
    grown :
        {ls all : List Log} {rounds : List (Round Db)} (more : List Log) (db : Db)
        → Holds store uuid encode (ls ++ more) db
        → Grows (ls ++ more) rounds all
        → Grows ls (Round.scanned db none ∷ rounds) all

  Grows-prefix :
      {ls all : List Log} {rounds : List (Round Db)}
      → Grows ls rounds all
      → (rest : List Log) × (all ≡ ls ++ rest)
  Grows-prefix (Grows.done {ls}) = ([], sym (append-nil ls))
  Grows-prefix (Grows.grown {ls} {all} {rounds} more db h g) =
      let (rest, e) = Grows-prefix g in (more ++ rest, e ∙ append_assoc ls more rest)

  one_round :
      (k : ℕ) (xs : List Log) (db : Db) (rounds : List (Round Db))
      → k < 2 ^ 64
      → Holds store uuid encode xs db
      → into_stream store uuid k (Round.scanned db none ∷ rounds)
        ≡ items (lines k 1 xs)
          ++ into_stream store uuid ((k + length (lines k 1 xs)) % 2 ^ 64) rounds
  unfolding into_stream
  one_round k xs db rounds lt h = rw (into_stream, h k lt) refl

  items-append : (es fs : List (Text × V)) → items (es ++ fs) ≡ items es ++ items fs
  items-append [] fs = refl
  items-append (e ∷ es) fs =
      ap (λ (r : List (Yielded V)). Yielded.item e.0 e.1 ∷ r) (items-append es fs)

  next_key :
      (k : ℕ) (xs : List Log)
      → 1 ≤ k
      → k ≤ suc (length xs)
      → length xs < u64_max
      → (k + length (lines k 1 xs)) % 2 ^ 64 ≡ suc (length xs)
  next_key k xs le le' lt = omega (arith, length-lines k 1 xs le (omega arith))

  Grows-length :
      {ls all : List Log} {rounds : List (Round Db)} → Grows ls rounds all → length ls ≤ length all
  Grows-length {ls = ls} g =
      let (rest, e) = Grows-prefix g in omega (arith, ap length e, length-append ls rest)

  -- A pass and those after it, where those after it give what comes after.
  continue :
      {xs all : List Log} {rounds : List (Round Db)} (k : ℕ) (db : Db)
      → 1 ≤ k
      → k ≤ suc (length xs)
      → Holds store uuid encode xs db
      → Grows xs rounds all
      → length all < u64_max
      → into_stream store uuid (suc (length xs)) rounds ≡ items (lines (suc (length xs)) 1 all)
      → into_stream store uuid k (Round.scanned db none ∷ rounds) ≡ items (lines k 1 all)
  continue {xs = xs} {all = all} {rounds = rounds} k db le le' h g lt ih =
      one_round k xs db rounds (omega (arith, Grows-length g)) h
      ∙ ap (λ (j : ℕ). items (lines k 1 xs) ++ into_stream store uuid j rounds)
          (next_key k xs le le' (omega (arith, Grows-length g)))
      ∙ ap (λ (ys : List (Yielded V)). items (lines k 1 xs) ++ ys) ih
      ∙ sym (items-append (lines k 1 xs) (lines (suc (length xs)) 1 all))
      ∙ ap items (sym joined)
    where
      joined : lines k 1 all ≡ lines k 1 xs ++ lines (suc (length xs)) 1 all
      joined =
          let (rest, e) = Grows-prefix g in
          subst (λ (ls : List Log). lines k 1 ls ≡ lines k 1 xs ++ lines (suc (length xs)) 1 ls)
            (sym e) (join k xs rest le')

  catch_up :
      {ls all : List Log} {rounds : List (Round Db)}
      → Grows ls rounds all
      → length all < u64_max
      → into_stream store uuid (suc (length ls)) rounds ≡ items (lines (suc (length ls)) 1 all)
  unfolding into_stream
  catch_up (Grows.done {ls}) lt = sym (ap items (lines_late (suc (length ls)) 1 ls (omega arith)))
  catch_up (Grows.grown {ls} {all} {rounds} more db h g) lt =
      continue (suc (length ls)) db (omega arith) (omega (arith, length-append ls more)) h g lt
        (catch_up g lt)

  -- While the log is empty nothing is yielded, and the stream stays at its first key.
  abbrev pub AllQuiet : List Db → Type κ
  AllQuiet dbs = All (λ (db : Db). Holds store uuid encode [] db) dbs

  -- The stream of a log that grows while it is read, where no scan fails: while there are no lines, it
  -- yields nothing; the first scan that finds lines yields them all; and what follows yields the last
  -- of these lines once more, and after it every line that was added, once and in order, up to the last
  -- that a scan has seen.
  pub into_stream-lines :
      {all : List Log} {rounds : List (Round Db)} (quiet : List Db) (first : Log)
      (others more : List Log) (db db' : Db)
      → AllQuiet quiet
      → Holds store uuid encode (first ∷ others) db
      → Holds store uuid encode ((first ∷ others) ++ more) db'
      → Grows ((first ∷ others) ++ more) rounds all
      → length all < u64_max
      → into_stream store uuid 0 (
          map (λ (q : Db). Round.scanned q none) quiet
          ++ Round.scanned db none ∷ Round.scanned db' none ∷ rounds)
        ≡ items (lines_from store uuid encode 1 1 (first ∷ others))
          ++ items (lines_from store uuid encode (suc (length others)) 1 all)
  into_stream-lines {all = all} {rounds = rounds} [] first others more db db' hq h h' g lt =
      one_round 0 ls db (Round.scanned db' none ∷ rounds) (omega arith) h
      ∙ ap
          (λ (es : List (Text × V)).
            items es
            ++ into_stream store uuid ((0 + length es) % 2 ^ 64) (Round.scanned db' none ∷ rounds))
          (lines_early 0 1 1 ls (omega arith) (omega arith))
      ∙ ap
          (λ (j : ℕ).
            items (lines 1 1 ls) ++ into_stream store uuid j (Round.scanned db' none ∷ rounds))
          key
      ∙ ap (λ (ys : List (Yielded V)). items (lines 1 1 ls) ++ ys)
          (continue (length ls) db' (omega arith) (omega (arith, length-append ls more)) h' g lt
            (catch_up g lt))
    where
      ls : List Log
      ls = first ∷ others

      bounded : length ls < u64_max
      bounded = omega (arith, Grows-length g, length-append ls more)

      key : (0 + length (lines 1 1 ls)) % 2 ^ 64 ≡ length ls
      key = omega (arith, length-lines 1 1 ls (omega arith) (omega arith), bounded)
  into_stream-lines {rounds = rounds} (q ∷ quiet) first others more db db' hq h h' g lt =
      one_round 0 [] q
        (map (λ (d : Db). Round.scanned d none) quiet
          ++ Round.scanned db none ∷ Round.scanned db' none ∷ rounds)
        (omega arith) hq.0
      ∙ into_stream-lines quiet first others more db db' hq.1 h h' g lt
