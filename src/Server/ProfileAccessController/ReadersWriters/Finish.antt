-- ===== src/Server/ProfileAccessController/ReadersWriters/Finish.antt =====
-- The lock once no thread makes a new request: its threads go on until all of them are outside.
use twitter_like_client_serv.Base.{ℕ, ◌+◌, ◌*◌, ◌<◌, ◌≤◌, ◌≡◌, ◌⊎◌, inl, inr, length, arith}
use native.Mathlib.Decide.{dec_lt}
use twitter_like_client_serv.Server.ProfileAccessController.ReadersWriters.{
  Pc, outside, asks_read, sleeps_read, reads, asks_write, sleeps_write, writes, gone, Lock, count,
  is_reading, At, start_read, grant_read, wait_read, wake_read, start_write, grant_write,
  wait_write, wake_write, leave_read, leave_read_signal, leave_read_quiet, leave_write_signal,
  leave_write_quiet, exit_write, init, Reach, later,
}
use twitter_like_client_serv.Server.ProfileAccessController.ReadersWriters.Counts.{
  Counted, count-Counted, le-count,
}
use twitter_like_client_serv.Server.ProfileAccessController.ReadersWriters.Exclusion.{
  Inv, Reach-Inv,
}
use twitter_like_client_serv.Server.ProfileAccessController.ReadersWriters.Settle.{
  Run, rest, more, Run-bounds,
}
use twitter_like_client_serv.Server.ProfileAccessController.ReadersWriters.Progress.{
  IsStill, GoesOn, last_leaves, still_outside,
}

-- The threads that are inside or in a request, and not asleep.
abbrev is_active : Pc → ℕ
is_active asks_read = 1
is_active reads = 1
is_active asks_write = 1
is_active writes = 1
is_active _ = 0

-- Each active thread has such a step.
active-GoesOn : (l : Lock) (v : Inv l) (i : ℕ) (p : Pc) → At l i p → 0 < is_active p → GoesOn l
active-GoesOn l v i asks_read at a = elim (dec_lt 0 l.num_writers) [
  | yes busy ↦ (_, wait_read i at busy, tt)
  | no free ↦ (_, grant_read i at (omega arith), tt)
]
active-GoesOn l v i asks_write at a = elim (dec_lt 0 l.num_readers) [
  | yes busy ↦ (_, wait_write i at (inl busy), tt)
  | no no_reader ↦ elim (dec_lt 0 l.num_writers) [
    | yes busy ↦ (_, wait_write i at (inr busy), tt)
    | no free ↦ (_, grant_write i at (omega arith) (omega arith), tt)
  ]
]
active-GoesOn l v i reads at a = elim (dec_lt 1 l.num_readers) [
  | yes many ↦ (_, leave_read i at many, tt)
  | no one ↦
      last_leaves l i at (omega (arith, le-count is_reading l.threads i reads at, reading l v))
]
  where
    reading : (l : Lock) → Inv l → l.num_readers ≡ count is_reading l.threads
    reading l v = omega arith
active-GoesOn l v i writes at a = (_, exit_write i at, tt)
active-GoesOn l v i outside at a = absurd (omega arith)
active-GoesOn l v i sleeps_read at a = absurd (omega arith)
active-GoesOn l v i sleeps_write at a = absurd (omega arith)
active-GoesOn l v i gone at a = absurd (omega arith)

-- With no active thread there is none.
idle-IsStill : (l : Lock) → count is_active l.threads ≡ 0 → IsStill l
idle-IsStill l h k (start_read i at) s = s
idle-IsStill l h k (start_write i at) s = s
idle-IsStill l h k (wake_read i at) s = s
idle-IsStill l h k (wake_write i at) s = s
idle-IsStill l h k (grant_read i at free) s =
    omega (arith, le-count is_active l.threads i asks_read at)
idle-IsStill l h k (wait_read i at busy) s =
    omega (arith, le-count is_active l.threads i asks_read at)
idle-IsStill l h k (grant_write i at nr nw) s =
    omega (arith, le-count is_active l.threads i asks_write at)
idle-IsStill l h k (wait_write i at busy) s =
    omega (arith, le-count is_active l.threads i asks_write at)
idle-IsStill l h k (leave_read i at many) s = omega (arith, le-count is_active l.threads i reads at)
idle-IsStill l h k (leave_read_signal i j at last asleep) s =
    omega (arith, le-count is_active l.threads i reads at)
idle-IsStill l h k (leave_read_quiet i at last quiet) s =
    omega (arith, le-count is_active l.threads i reads at)
idle-IsStill l h k (leave_write_signal i j at asleep) s =
    omega (arith, le-count is_active l.threads i writes at)
idle-IsStill l h k (leave_write_quiet i at quiet) s =
    omega (arith, le-count is_active l.threads i writes at)
idle-IsStill l h k (exit_write i at) s = omega (arith, le-count is_active l.threads i writes at)

Run-Reach : {s l k : Lock} {steps : ℕ} → Reach s l → Run l steps k → Reach s k
Run-Reach r rest = r
Run-Reach r (more run step h) = later (Run-Reach r run) step

-- From a reachable state, without new requests and without wakeups that nobody has signalled, the
-- threads make at most n times n + 3 steps, for n threads; and as
-- long as no thread has ended inside the write section, wherever they have come to, either they can
-- make another such step, or every thread is outside, none of them asleep or inside.
pub Run-settles :
    (n steps : ℕ) {l k : Lock}
    → Reach (init n) l
    → Run l steps k
    → ((i : ℕ) → ¬ (At k i gone))
    → (steps ≤ length l.threads * (length l.threads + 3))
      × (GoesOn k ⊎ ((i : ℕ) (p : Pc) → At k i p → p ≡ outside))
unfolding Counted
Run-settles n steps {l} {k} r run none_gone = (
  Run-bounds steps run,
  elim (dec_lt 0 (count is_active k.threads)) [
    | yes active ↦
        let (i, p, at, a) = count-Counted is_active k.threads active in
        inl (active-GoesOn k (Reach-Inv n (Run-Reach r run)) i p at a)
    | no idle ↦ inr (still_outside n (Run-Reach r run) (idle-IsStill k (omega arith)) none_gone)
  ],
)
