-- ===== src/Server/ProfileAccessController/ReadersWriters.antt =====
-- server/ProfileAccessController.cpp: the lock with all its threads. Each request and each release
-- holds the mutex from its start to its end or to its wait, so it is one step.
pub mod Counts
pub mod Exclusion
pub mod Settle
pub mod Progress
pub mod Finish
pub mod Calls
use twitter_like_client_serv.Base.{
  ℕ, zero, suc, ◌+◌, ◌-◌, ◌<◌, ◌≡◌, ◌⊎◌, some, List, [], ◌∷◌, map, get_elem?, set,
}

-- Where a thread stands: outside, in a request, asleep in its wait, inside, or ended inside the write
-- section by `pthread_exit`.
pub data Pc : Type 0 where
  outside asks_read sleeps_read reads asks_write sleeps_write writes gone : Pc

pub record Lock : Type 0 where
  pub num_readers : ℕ
  pub num_writers : ℕ
  pub threads : List Pc

-- `pthread_cond_broadcast(&ok_to_read)`
abbrev pub rouse : Pc → Pc
rouse sleeps_read = asks_read
rouse p = p

-- How many threads stand at a place that `w` counts.
unfoldable pub count : (Pc → ℕ) → List Pc → ℕ
count w [] = 0
count w (p ∷ ps) = w p + count w ps

abbrev pub is_reading : Pc → ℕ
is_reading reads = 1
is_reading _ = 0

-- The threads that `num_writers` counts.
abbrev pub is_writing : Pc → ℕ
is_writing writes = 1
is_writing gone = 1
is_writing _ = 0

abbrev pub is_sleeping_reader : Pc → ℕ
is_sleeping_reader sleeps_read = 1
is_sleeping_reader _ = 0

abbrev pub is_sleeping_writer : Pc → ℕ
is_sleeping_writer sleeps_write = 1
is_sleeping_writer _ = 0

abbrev pub is_asking_writer : Pc → ℕ
is_asking_writer asks_write = 1
is_asking_writer _ = 0

-- `At l i p`: thread `i` stands at `p`.
abbrev pub At : Lock → ℕ → Pc → Type 0
At l i p = get_elem? l.threads i ≡ some p

-- The lock after thread `i` has gone to `p`.
abbrev pub go : Lock → ℕ → Pc → Lock
go l i p = record l { threads = set l.threads i p }

-- One step of one thread. A signal wakes one thread that sleeps on the condition, if there is one;
-- a thread may also wake with no signal.
pub data Step (l : Lock) : Lock → Type 0 where
  start_read : (i : ℕ) → At l i outside → Step l (go l i asks_read)
  grant_read :
      (i : ℕ)
      → At l i asks_read
      → l.num_writers ≡ 0
      → Step l (record (go l i reads) { num_readers = l.num_readers + 1 })
  wait_read : (i : ℕ) → At l i asks_read → 0 < l.num_writers → Step l (go l i sleeps_read)
  wake_read : (i : ℕ) → At l i sleeps_read → Step l (go l i asks_read)
  start_write : (i : ℕ) → At l i outside → Step l (go l i asks_write)
  grant_write :
      (i : ℕ)
      → At l i asks_write
      → l.num_readers ≡ 0
      → l.num_writers ≡ 0
      → Step l (record (go l i writes) { num_writers = l.num_writers + 1 })
  wait_write :
      (i : ℕ)
      → At l i asks_write
      → (0 < l.num_readers) ⊎ (0 < l.num_writers)
      → Step l (go l i sleeps_write)
  wake_write : (i : ℕ) → At l i sleeps_write → Step l (go l i asks_write)
  -- `releaseRead`: the last reader signals `ok_to_write`.
  leave_read :
      (i : ℕ)
      → At l i reads
      → 1 < l.num_readers
      → Step l (record (go l i outside) { num_readers = l.num_readers - 1 })
  leave_read_signal :
      (i j : ℕ)
      → At l i reads
      → l.num_readers ≡ 1
      → At (go l i outside) j sleeps_write
      → Step l (record (go (go l i outside) j asks_write) { num_readers = l.num_readers - 1 })
  leave_read_quiet :
      (i : ℕ)
      → At l i reads
      → l.num_readers ≡ 1
      → count is_sleeping_writer l.threads ≡ 0
      → Step l (record (go l i outside) { num_readers = l.num_readers - 1 })
  -- `releaseWrite`: signal `ok_to_write`, broadcast `ok_to_read`.
  leave_write_signal :
      (i j : ℕ)
      → At l i writes
      → At (go l i outside) j sleeps_write
      → Step l (record l {
        num_writers = l.num_writers - 1;
        threads = map rouse (set (set l.threads i outside) j asks_write);
      })
  leave_write_quiet :
      (i : ℕ)
      → At l i writes
      → count is_sleeping_writer l.threads ≡ 0
      → Step l (record l {
        num_writers = l.num_writers - 1;
        threads = map rouse (set l.threads i outside);
      })
  -- `pthread_exit` inside `createProfileIfNotExists`.
  exit_write : (i : ℕ) → At l i writes → Step l (go l i gone)

-- `n` threads outside, and the states that they can reach.
abbrev pub idle : ℕ → List Pc
idle zero = []
idle (suc n) = outside ∷ idle n

abbrev pub init : ℕ → Lock
init n = record { num_readers = 0; num_writers = 0; threads = idle n }

pub data Reach (s : Lock) : Lock → Type 0 where
  start : Reach s s
  later : {l k : Lock} → Reach s l → Step l k → Reach s k
