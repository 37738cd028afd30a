-- ===== src/Server/ProfileAccessController/ReadersWriters/Exclusion.antt =====
-- What the lock promises in every state that its threads can reach.
use twitter_like_client_serv.Base.{
  ℕ, ◌+◌, ◌≤◌, ◌<◌, ◌≡◌, ◌⊎◌, inl, inr, refl, ap, some, List, map, get_elem?, set, arith,
}
use native.Mathlib.Decide.{ℕ_discrete}
use twitter_like_client_serv.Server.ProfileAccessController.ReadersWriters.{
  Pc, outside, asks_read, sleeps_read, reads, asks_write, sleeps_write, writes, gone, Lock, rouse,
  count, is_reading, is_writing, is_sleeping_reader, is_sleeping_writer, is_asking_writer, At, Step,
  start_read, grant_read, wait_read, wake_read, start_write, grant_write, wait_write, wake_write,
  leave_read, leave_read_signal, leave_read_quiet, leave_write_signal, leave_write_quiet,
  exit_write, init, Reach, start, later,
}
use twitter_like_client_serv.Server.ProfileAccessController.ReadersWriters.Counts.{
  count-set, le-count, add-le-count, count-rouse, count_zero, count-idle,
}

-- The counts of the program are those of the threads, a writer is alone, and whoever sleeps has
-- somebody to wake it: a reader a writer inside, a writer somebody inside or a writer that asks.
pub record Inv (l : Lock) : Type 0 where
  pub readers : l.num_readers ≡ count is_reading l.threads
  pub writers : l.num_writers ≡ count is_writing l.threads
  pub one_writer : l.num_writers ≤ 1
  pub alone : (l.num_writers ≡ 0) ⊎ (l.num_readers ≡ 0)
  pub reader_woken : (count is_sleeping_reader l.threads ≡ 0) ⊎ (0 < l.num_writers)
  pub writer_woken :
      (count is_sleeping_writer l.threads ≡ 0)
      ⊎ (0 < l.num_readers + l.num_writers + count is_asking_writer l.threads)

-- The counts when one thread has gone from `p` to `q`.
record Moved (ps qs : List Pc) (p q : Pc) : Type 0 where
  reading : count is_reading qs + is_reading p ≡ count is_reading ps + is_reading q
  writing : count is_writing qs + is_writing p ≡ count is_writing ps + is_writing q
  readers_asleep :
      count is_sleeping_reader qs + is_sleeping_reader p
      ≡ count is_sleeping_reader ps + is_sleeping_reader q
  writers_asleep :
      count is_sleeping_writer qs + is_sleeping_writer p
      ≡ count is_sleeping_writer ps + is_sleeping_writer q
  writers_asking :
      count is_asking_writer qs + is_asking_writer p
      ≡ count is_asking_writer ps + is_asking_writer q

moved : (ps : List Pc) (i : ℕ) (p q : Pc) → get_elem? ps i ≡ some p → Moved ps (set ps i q) p q
moved ps i p q e = record {
  reading = count-set is_reading ps i p q e;
  writing = count-set is_writing ps i p q e;
  readers_asleep = count-set is_sleeping_reader ps i p q e;
  writers_asleep = count-set is_sleeping_writer ps i p q e;
  writers_asking = count-set is_asking_writer ps i p q e;
}

-- The counts after a broadcast to the readers.
record Roused (ps qs : List Pc) : Type 0 where
  reading : count is_reading qs ≡ count is_reading ps
  writing : count is_writing qs ≡ count is_writing ps
  readers_asleep : count is_sleeping_reader qs ≡ 0
  writers_asleep : count is_sleeping_writer qs ≡ count is_sleeping_writer ps
  writers_asking : count is_asking_writer qs ≡ count is_asking_writer ps

same_reading : (p : Pc) → is_reading (rouse p) ≡ is_reading p
same_reading sleeps_read = refl
same_reading outside = refl
same_reading _ = refl

same_writing : (p : Pc) → is_writing (rouse p) ≡ is_writing p
same_writing sleeps_read = refl
same_writing outside = refl
same_writing _ = refl

none_asleep : (p : Pc) → is_sleeping_reader (rouse p) ≡ 0
none_asleep sleeps_read = refl
none_asleep outside = refl
none_asleep _ = refl

same_asleep : (p : Pc) → is_sleeping_writer (rouse p) ≡ is_sleeping_writer p
same_asleep sleeps_read = refl
same_asleep outside = refl
same_asleep _ = refl

same_asking : (p : Pc) → is_asking_writer (rouse p) ≡ is_asking_writer p
same_asking sleeps_read = refl
same_asking outside = refl
same_asking _ = refl

roused : (ps : List Pc) → Roused ps (map rouse ps)
roused ps = record {
  reading = count-rouse is_reading same_reading ps;
  writing = count-rouse is_writing same_writing ps;
  readers_asleep = count_zero is_sleeping_reader none_asleep ps;
  writers_asleep = count-rouse is_sleeping_writer same_asleep ps;
  writers_asking = count-rouse is_asking_writer same_asking ps;
}

-- Each step of each thread keeps the invariant.
pub Step-Inv : {l k : Lock} → Step l k → Inv l → Inv k
Step-Inv {l} (start_read i at) v = omega (arith, moved l.threads i outside asks_read at)
Step-Inv {l} (grant_read i at free) v = omega (arith, moved l.threads i asks_read reads at)
Step-Inv {l} (wait_read i at busy) v = omega (arith, moved l.threads i asks_read sleeps_read at)
Step-Inv {l} (wake_read i at) v = omega (arith, moved l.threads i sleeps_read asks_read at)
Step-Inv {l} (start_write i at) v = omega (arith, moved l.threads i outside asks_write at)
Step-Inv {l} (grant_write i at nr nw) v = omega (arith, moved l.threads i asks_write writes at)
Step-Inv {l} (wait_write i at busy) v = omega (arith, moved l.threads i asks_write sleeps_write at)
Step-Inv {l} (wake_write i at) v = omega (arith, moved l.threads i sleeps_write asks_write at)
Step-Inv {l} (leave_read i at more) v = omega (arith, moved l.threads i reads outside at)
Step-Inv {l} (leave_read_signal i j at last asleep) v = omega (
  arith,
  moved l.threads i reads outside at,
  moved (set l.threads i outside) j sleeps_write asks_write asleep,
)
Step-Inv {l} (leave_read_quiet i at last quiet) v =
    omega (arith, moved l.threads i reads outside at)
Step-Inv {l} (leave_write_signal i j at asleep) v = omega (
  arith,
  moved l.threads i writes outside at,
  moved (set l.threads i outside) j sleeps_write asks_write asleep,
  roused (set (set l.threads i outside) j asks_write),
)
Step-Inv {l} (leave_write_quiet i at quiet) v =
    omega (arith, moved l.threads i writes outside at, roused (set l.threads i outside))
Step-Inv {l} (exit_write i at) v = omega (arith, moved l.threads i writes gone at)

pub init-Inv : (n : ℕ) → Inv (init n)
init-Inv n = omega (
  arith,
  count-idle is_reading n refl,
  count-idle is_writing n refl,
  count-idle is_sleeping_reader n refl,
  count-idle is_sleeping_writer n refl,
)

pub Reach-Inv : (n : ℕ) {l : Lock} → Reach (init n) l → Inv l
Reach-Inv n start = init-Inv n
Reach-Inv n (later r st) = Step-Inv st (Reach-Inv n r)

-- In every state that the threads can reach from outside the lock, in any number and any order, a
-- thread in the write section is alone: no other thread is in a section.
pub writer_alone :
    (n : ℕ) {l : Lock}
    → Reach (init n) l
    → (i j : ℕ) → At l i writes
    → At l j writes ⊎ At l j reads
    → i ≡ j
writer_alone n {l} r i j at (inl writer) = elim (ℕ_discrete i j) [
  | yes e ↦ e
  | no ne ↦ absurd (
      omega
        (arith, Reach-Inv n r, add-le-count is_writing l.threads i j writes writes at writer ne))
]
writer_alone n {l} r i j at (inr reader) = absurd (
    omega (
      arith,
      Reach-Inv n r,
      le-count is_writing l.threads i writes at,
      le-count is_reading l.threads j reads reader,
    ))

-- No wakeup is lost: in every reachable state where both counts are 0, no reader sleeps, and if a
-- writer sleeps, another writer is awake and asks.
pub no_lost_wakeup :
    (n : ℕ) {l : Lock}
    → Reach (init n) l
    → l.num_readers ≡ 0
    → l.num_writers ≡ 0
    → (count is_sleeping_reader l.threads ≡ 0)
      × ((count is_sleeping_writer l.threads ≡ 0) ⊎ (0 < count is_asking_writer l.threads))
no_lost_wakeup n r nr nw = omega (arith, Reach-Inv n r)

-- A thread that has ended inside the write section bars all: in a reachable state with such a thread,
-- no thread is in a section.
pub gone_bars :
    (n : ℕ) {l : Lock}
    → Reach (init n) l
    → (i j : ℕ) → At l i gone
    → (¬ (At l j writes)) × (¬ (At l j reads))
gone_bars n {l} r i j at = (
  λ writer. absurd (
      omega (
        arith,
        Reach-Inv n r,
        add-le-count is_writing l.threads i j gone writes at writer
            (λ e. apart (ap (get_elem? l.threads) e) writer),
      )),
  λ reader. absurd (
      omega (
        arith,
        Reach-Inv n r,
        le-count is_writing l.threads i gone at,
        le-count is_reading l.threads j reads reader,
      )),
)
  where
    apart : get_elem? l.threads i ≡ get_elem? l.threads j → get_elem? l.threads j ≡ some writes → ⊥
    apart same_place writer = cc at
