-- ===== src/Tests/Locks.antt =====
-- The lock with two threads.
use twitter_like_client_serv.Base.{ℕ, zero, suc, ◌<◌, ◌≤◌, ◌≡◌, ◌⊎◌, inl, inr, refl, [], ◌∷◌, arith}
use twitter_like_client_serv.Server.ProfileAccessController.ReadersWriters.{
  Pc, outside, asks_read, asks_write, writes, reads, gone, Lock, count, is_sleeping_reader,
  is_sleeping_writer, is_asking_writer, At, Step, start_read, grant_read, wait_read, wake_read,
  start_write, grant_write, wait_write, wake_write, leave_read, leave_read_signal, leave_read_quiet,
  leave_write_signal, leave_write_quiet, exit_write, init, Reach, start, later,
}
use twitter_like_client_serv.Server.ProfileAccessController.ReadersWriters.Exclusion.{
  writer_alone, no_lost_wakeup,
}
use twitter_like_client_serv.Server.ProfileAccessController.ReadersWriters.Settle.{
  Settles, rest, more,
}
use twitter_like_client_serv.Server.ProfileAccessController.ReadersWriters.Progress.{
  GoesOn, still_outside,
}
use twitter_like_client_serv.Server.ProfileAccessController.ReadersWriters.Finish.{Run-settles}
use twitter_like_client_serv.Server.ProfileAccessController.ReadersWriters.Calls.{
  Op, Goes, run-Goes,
}
use twitter_like_client_serv.Tests.States.{server}

record State : Type 0 where
  lock : Lock
  reach : Reach (init 2) lock

-- Thread 0 writes and thread 1 sleeps in its request to write.
abbrev waiting : State
waiting = record {
  lock = _;
  reach =
      later
        (later (later (later start (start_write 0 refl)) (grant_write 0 refl refl refl))
          (start_write 1 refl))
        (wait_write 1 refl (inr (omega arith)));
}

writer_alone_example : ◌≡◌ {A = ℕ} 0 0
writer_alone_example = writer_alone 2 waiting.reach 0 0 refl (inl refl)

abbrev released : State
released = record { lock = _; reach = later waiting.reach (leave_write_signal 0 1 refl refl) }

no_lost_wakeup_example :
    (count is_sleeping_reader released.lock.threads ≡ 0)
    × ((count is_sleeping_writer released.lock.threads ≡ 0)
        ⊎ (0 < count is_asking_writer released.lock.threads))
no_lost_wakeup_example = no_lost_wakeup 2 released.reach refl refl

abbrev ended : State
ended = record { lock = _; reach = later waiting.reach (exit_write 0 refl) }

nobody_asleep : count is_sleeping_writer (writes ∷ outside ∷ []) ≡ 0
unfolding count
nobody_asleep = refl

-- A thread that has written and gone, and one that has never asked.
abbrev quiet : State
quiet = record {
  lock = _;
  reach =
      later (later (later start (start_write 0 refl)) (grant_write 0 refl refl refl))
        (leave_write_quiet 0 refl nobody_asleep);
}

only_outside : (i : ℕ) (p : Pc) → At quiet.lock i p → p ≡ outside
only_outside zero p at = cc
only_outside (suc zero) p at = cc
only_outside (suc (suc i)) p at = absurd (grind arith)

-- Threads that are outside can only make requests.
Step-outside :
    {l k : Lock} (s : Step l k) → ((i : ℕ) (p : Pc) → At l i p → p ≡ outside) → ¬ (Settles s)
Step-outside (start_read i at) h s = s
Step-outside (start_write i at) h s = s
Step-outside (wake_read i at) h s = s
Step-outside (wake_write i at) h s = s
Step-outside (grant_read i at free) h s = absurd (grind (arith, h i asks_read at))
Step-outside (wait_read i at busy) h s = absurd (grind (arith, h i asks_read at))
Step-outside (grant_write i at nr nw) h s = absurd (grind (arith, h i asks_write at))
Step-outside (wait_write i at busy) h s = absurd (grind (arith, h i asks_write at))
Step-outside (leave_read i at many) h s = absurd (grind (arith, h i reads at))
Step-outside (leave_read_signal i j at last woken) h s = absurd (grind (arith, h i reads at))
Step-outside (leave_read_quiet i at last none_asleep) h s = absurd (grind (arith, h i reads at))
Step-outside (leave_write_signal i j at woken) h s = absurd (grind (arith, h i writes at))
Step-outside (leave_write_quiet i at none_asleep) h s = absurd (grind (arith, h i writes at))
Step-outside (exit_write i at) h s = absurd (grind (arith, h i writes at))

still_outside_example : ◌≡◌ {A = Pc} outside outside
still_outside_example =
    still_outside 2 quiet.reach (λ k s. Step-outside s only_outside)
      (λ i at. absurd (grind (arith, only_outside i gone at))) 0 outside refl

-- A thread that has asked to write.
abbrev asked : State
asked = record { lock = _; reach = later start (start_write 0 refl) }

run-Goes_example : Goes asked.lock server 0 Op.to_write
run-Goes_example = run-Goes 2 asked.reach server (refl, refl) 0 Op.to_write refl

-- From there on the writer leaves.
abbrev inside : State
inside = record {
  lock = _;
  reach = later (later start (start_write 0 refl)) (grant_write 0 refl refl refl);
}

Run-settles_example :
    (1 ≤ 10) × (GoesOn quiet.lock ⊎ ((i : ℕ) (p : Pc) → At quiet.lock i p → p ≡ outside))
Run-settles_example =
    Run-settles 2 1 inside.reach (more rest (leave_write_quiet 0 refl nobody_asleep) tt)
      (λ i at. absurd (grind (arith, only_outside i gone at)))
