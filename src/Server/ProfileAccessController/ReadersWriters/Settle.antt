-- ===== src/Server/ProfileAccessController/ReadersWriters/Settle.antt =====
-- The lock once no thread makes a new request: how long its threads can go on.
use twitter_like_client_serv.Base.{
  ℕ, suc, ◌+◌, ◌*◌, ◌≤◌, ◌≡◌, refl, ap, List, [], ◌∷◌, map, set, length, length-set, arith,
}
use twitter_like_client_serv.Server.ProfileAccessController.ReadersWriters.{
  Pc, outside, asks_read, sleeps_read, reads, asks_write, sleeps_write, writes, gone, Lock, rouse,
  count, Step, start_read, grant_read, wait_read, wake_read, start_write, grant_write, wait_write,
  wake_write, leave_read, leave_read_signal, leave_read_quiet, leave_write_signal,
  leave_write_quiet, exit_write,
}
use twitter_like_client_serv.Server.ProfileAccessController.ReadersWriters.Counts.{count-set}

-- The steps that are neither a new request nor a wakeup with no signal.
abbrev pub Settles : {l k : Lock} → Step l k → Type 0
Settles (start_read i at) = ⊥
Settles (start_write i at) = ⊥
Settles (wake_read i at) = ⊥
Settles (wake_write i at) = ⊥
Settles _ = Unit {0}

-- So many such steps lead from `l` to another state.
pub data Run (l : Lock) : ℕ → Lock → Type 0 where
  rest : Run l 0 l
  more : {n : ℕ} {k m : Lock} → Run l n k → (s : Step k m) → Settles s → Run l (suc n) m

-- What a thread may still do, where there are `n` threads: it leaves once, which can rouse all others.
abbrev rank : ℕ → Pc → ℕ
rank n outside = 0
rank n gone = 0
rank n asks_read = n + 3
rank n asks_write = n + 3
rank n _ = n + 2

rank-le : (n : ℕ) (p : Pc) → rank n p ≤ n + 3
rank-le n outside = omega arith
rank-le n gone = omega arith
rank-le n asks_read = omega arith
rank-le n asks_write = omega arith
rank-le n _ = omega arith

rank-rouse : (n : ℕ) (p : Pc) → rank n (rouse p) ≤ rank n p + 1
rank-rouse n sleeps_read = omega arith
rank-rouse n outside = omega arith
rank-rouse n _ = omega arith

count-rouse-le :
    (n : ℕ) (ps : List Pc) → count (rank n) (map rouse ps) ≤ count (rank n) ps + length ps
unfolding count
count-rouse-le n [] = omega arith
count-rouse-le n (p ∷ ps) = omega (arith, rank-rouse n p, count-rouse-le n ps)

count-le-mul : (n : ℕ) (ps : List Pc) → count (rank n) ps ≤ length ps * (n + 3)
unfolding count
count-le-mul n [] = omega arith
count-le-mul n (p ∷ ps) = grind (arith, rank-le n p, count-le-mul n ps)

length-rouse : (ps : List Pc) → length (map rouse ps) ≡ length ps
length-rouse [] = refl
length-rouse (p ∷ ps) = ap suc (length-rouse ps)

-- Each such step takes something from the ranks, and no thread comes or goes.
Step-rank :
    (n : ℕ) {l k : Lock} (s : Step l k)
    → Settles s
    → n ≡ length l.threads
    → (n ≡ length k.threads) × (count (rank n) k.threads + 1 ≤ count (rank n) l.threads)
Step-rank n (start_read i at) h e = absurd h
Step-rank n (start_write i at) h e = absurd h
Step-rank n (wake_read i at) h e = absurd h
Step-rank n (wake_write i at) h e = absurd h
Step-rank n {l} (grant_read i at free) h e =
    omega (arith, length-set l.threads i reads, count-set (rank n) l.threads i asks_read reads at)
Step-rank n {l} (wait_read i at busy) h e = omega (
  arith,
  length-set l.threads i sleeps_read,
  count-set (rank n) l.threads i asks_read sleeps_read at,
)
Step-rank n {l} (grant_write i at nr nw) h e =
    omega
      (arith, length-set l.threads i writes, count-set (rank n) l.threads i asks_write writes at)
Step-rank n {l} (wait_write i at busy) h e = omega (
  arith,
  length-set l.threads i sleeps_write,
  count-set (rank n) l.threads i asks_write sleeps_write at,
)
Step-rank n {l} (leave_read i at many) h e =
    omega (arith, length-set l.threads i outside, count-set (rank n) l.threads i reads outside at)
Step-rank n {l} (leave_read_signal i j at last asleep) h e = omega (
  arith,
  length-set l.threads i outside,
  length-set (set l.threads i outside) j asks_write,
  count-set (rank n) l.threads i reads outside at,
  count-set (rank n) (set l.threads i outside) j sleeps_write asks_write asleep,
)
Step-rank n {l} (leave_read_quiet i at last quiet) h e =
    omega (arith, length-set l.threads i outside, count-set (rank n) l.threads i reads outside at)
Step-rank n {l} (leave_write_signal i j at asleep) h e = omega (
  arith,
  length-set l.threads i outside,
  length-set (set l.threads i outside) j asks_write,
  length-rouse (set (set l.threads i outside) j asks_write),
  count-set (rank n) l.threads i writes outside at,
  count-set (rank n) (set l.threads i outside) j sleeps_write asks_write asleep,
  count-rouse-le n (set (set l.threads i outside) j asks_write),
)
Step-rank n {l} (leave_write_quiet i at quiet) h e = omega (
  arith,
  length-set l.threads i outside,
  length-rouse (set l.threads i outside),
  count-set (rank n) l.threads i writes outside at,
  count-rouse-le n (set l.threads i outside),
)
Step-rank n {l} (exit_write i at) h e =
    omega (arith, length-set l.threads i gone, count-set (rank n) l.threads i writes gone at)

Run-rank :
    (n : ℕ) {l : Lock} {steps : ℕ} {k : Lock}
    → Run l steps k
    → n ≡ length l.threads
    → (n ≡ length k.threads) × (steps + count (rank n) k.threads ≤ count (rank n) l.threads)
Run-rank n rest e = (e, omega arith)
Run-rank n (more r s h) e =
    let (same, less) = Run-rank n r e in
    let (same', less') = Step-rank n s h same in (same', omega arith)

-- From any state of the lock, its threads can make only so many steps without a new request and
-- without a wakeup that nobody has signalled: n times n + 3, for n threads.
pub Run-bounds :
    (steps : ℕ) {l k : Lock} → Run l steps k → steps ≤ length l.threads * (length l.threads + 3)
Run-bounds steps {l} r =
    let (same, less) = Run-rank (length l.threads) r refl in
    omega (arith, count-le-mul (length l.threads) l.threads)
