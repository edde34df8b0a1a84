-- ===== src/Logger/Posts.antt =====
-- logger/src/server.rs, `post_logs`: what a scan finds of the lines that were posted.
use mathlib.Core.List.{append-nil, append_assoc}
use cloud_devenv_sh.Base.{
  ℕ, suc, List, ◌∷◌, [], ◌++◌, true, map, ◌≡◌, refl, arith, if◌then◌else◌, length, ◌+◌, ◌<◌, leb,
  ◌^◌, ◌≤◌, ◌∙◌, subst, sym, ◌%◌, length-append,
}
use cloud_devenv_sh.Logger.{
  format_key, Database, Log, Received, in_range, insert_sorted, u64_max, post_logs,
}
use cloud_devenv_sh.Base.Texts.{Text}
use cloud_devenv_sh.Logger.Keys.{format_key-order}

abbrev pub all_written : List Log → List Received
all_written ls = map (λ (l : Log). Received.line l true) ls

module _ {ℓ κ} {Db : Type ℓ} {V : Type κ} (store : Database Db V) (uuid : Text)
    (encode : Log → ℕ → V) where
  abbrev pub entry : ℕ → Log → Text × V
  entry i l = (format_key uuid i, encode l i)

  -- The entries of lines that are numbered from `i`, but for those before the line `k`.
  abbrev pub lines_from : ℕ → ℕ → List Log → List (Text × V)
  lines_from k i [] = []
  lines_from k i (l ∷ ls) =
      let rest = lines_from k (suc i) ls in if leb k i then entry i l ∷ rest else rest

  -- A scan from any line on finds the lines `ls`, numbered from 1.
  abbrev pub Holds : List Log → Db → Type κ
  Holds ls db =
      (k : ℕ)
      → k < 2 ^ 64
      → store.scan (format_key uuid k) (format_key uuid u64_max) db ≡ lines_from k 1 ls

  lines_from-snoc :
      (k i : ℕ) (ls : List Log) (l : Log)
      → lines_from k i (ls ++ l ∷ []) ≡ lines_from k i ls ++ lines_from k (i + length ls) (l ∷ [])
  lines_from-snoc k i [] l = ground arith
  lines_from-snoc k i (x ∷ ls) l = ground (arith, lines_from-snoc k (suc i) ls l)

  -- An entry whose key is after all others goes to their end.
  insert_last :
      (k i n : ℕ) (ls : List Log) (v : V)
      → i + length ls ≤ n
      → n < 2 ^ 64
      → insert_sorted (format_key uuid n) v (lines_from k i ls)
        ≡ lines_from k i ls ++ (format_key uuid n, v) ∷ []
  unfolding insert_sorted
  insert_last k i n [] v le lt = refl
  insert_last k i n (l ∷ ls) v le lt =
      ground (arith, insert_last k (suc i) n ls v, format_key-order uuid i n (omega arith) lt)

  line_in_range :
      (k n : ℕ)
      → k < 2 ^ 64
      → n < u64_max
      → in_range (format_key uuid k) (format_key uuid u64_max) (format_key uuid n) ≡ leb k n
  unfolding in_range
  line_in_range k n hk hn = ground (
    arith,
    format_key-order uuid n k (omega arith) hk,
    format_key-order uuid n u64_max (omega arith) (omega arith),
  )

  put-Holds :
      (n : ℕ) (ls : List Log) (l : Log) (db : Db)
      → n ≡ suc (length ls)
      → n < u64_max
      → Holds ls db
      → Holds (ls ++ l ∷ []) (store.put (format_key uuid n) (encode l n) db)
  put-Holds n ls l db e lt h k hk =
      store.scan-put (format_key uuid k) (format_key uuid u64_max) (format_key uuid n) (encode l n)
        db
      ∙ rw (h k hk, line_in_range k n hk lt) ground
          (
            arith,
            insert_last k 1 n ls (encode l n) (omega arith) (omega arith),
            lines_from-snoc k 1 ls l,
            append-nil (lines_from k 1 ls),
          )

  pub post-Holds :
      (i : ℕ) (ls more : List Log) (db : Db)
      → i ≡ length ls
      → length ls + length more < u64_max
      → Holds ls db
      → Holds (ls ++ more) (post_logs store uuid encode i (all_written more) db)
  unfolding post_logs
  post-Holds i ls [] db e lt h = subst (λ (all : List Log). Holds all db) (sym (append-nil ls)) h
  post-Holds i ls (l ∷ more) db e lt h =
      subst
        (λ (all : List Log). Holds all (
          post_logs store uuid encode n (all_written more)
            (store.put (format_key uuid n) (encode l n) db)))
        (append_assoc ls (l ∷ []) more)
        (post-Holds n (ls ++ l ∷ []) more (store.put (format_key uuid n) (encode l n) db)
          (omega (arith, length-append ls (l ∷ []))) (omega (arith, length-append ls (l ∷ [])))
          (put-Holds n ls l db (omega arith) (omega arith) h))
    where
      n : ℕ
      n = (i + 1) % 2 ^ 64

  -- After the lines `ls` of a post, all written, a scan from the line `k` on finds the lines that are
  -- numbered `k` and up, counted from 1, each under its key and with its number, and in their order,
  -- where the database had no lines of this log and there are fewer of them than a `u64` counts.
  pub scan-post_logs :
      (ls : List Log) (db : Db) (k : ℕ)
      → length ls < u64_max
      → Holds [] db
      → k < 2 ^ 64
      → store.scan
          (format_key uuid k)
          (format_key uuid u64_max)
          (post_logs store uuid encode 0 (all_written ls) db)
        ≡ lines_from k 1 ls
  scan-post_logs ls db k lt h hk = post-Holds 0 [] ls db refl (omega arith) h k hk
