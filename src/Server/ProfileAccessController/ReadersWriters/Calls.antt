-- ===== src/Server/ProfileAccessController/ReadersWriters/Calls.antt =====
-- The requests and releases of one caller, and the steps of the lock with all its threads.
use twitter_like_client_serv.Base.{
  ℕ, zero, suc, ◌+◌, ◌-◌, ◌<◌, ◌≡◌, ◌≢◌, ◌⊎◌, inl, inr, refl, ap, ◌∙◌, some, List, [], ◌∷◌, map,
  get_elem?, set, arith, get_elem?-set_self, get_elem?-set_ne, get_elem?-lt, lt→ltb,
}
use native.Mathlib.Decide.{dec_lt}
use twitter_like_client_serv.Exec.{returns, waits, Exec}
use twitter_like_client_serv.Server.World.{World}
use twitter_like_client_serv.Server.ProfileAccessController.{
  request_read, request_write, release_read, release_write,
}
use twitter_like_client_serv.Server.ProfileAccessController.ReadersWriters.{
  Pc, outside, asks_read, sleeps_read, reads, asks_write, sleeps_write, writes, Lock, rouse, count,
  is_reading, is_sleeping_writer, At, go, Step, grant_read, wait_read, grant_write, wait_write,
  leave_read, leave_read_signal, leave_read_quiet, leave_write_signal, leave_write_quiet, init,
  Reach,
}
use twitter_like_client_serv.Server.ProfileAccessController.ReadersWriters.Counts.{
  Counted, count-Counted, count-set, le-count,
}
use twitter_like_client_serv.Server.ProfileAccessController.ReadersWriters.Exclusion.{
  Inv, Reach-Inv,
}

-- The four functions that hold the mutex, where their thread stands before, and after.
pub data Op : Type 0 where
  to_read done_reading to_write done_writing : Op

abbrev pub run : Op → Exec World (Unit {0})
run Op.to_read = request_read
run Op.done_reading = release_read
run Op.to_write = request_write
run Op.done_writing = release_write

abbrev pub before : Op → Pc
before Op.to_read = asks_read
before Op.done_reading = reads
before Op.to_write = asks_write
before Op.done_writing = writes

abbrev pub after : Op → Pc
after Op.to_read = reads
after Op.done_reading = outside
after Op.to_write = writes
after Op.done_writing = outside

abbrev pub asleep : Op → Pc
asleep Op.to_read = sleeps_read
asleep _ = sleeps_write

-- The counts are those of the caller's memory.
abbrev pub Same : Lock → World → Type 0
Same l w = (l.num_readers ≡ w.num_readers) × (l.num_writers ≡ w.num_writers)

-- The call returns and its thread has gone on, or it waits and its thread sleeps.
abbrev pub Goes : Lock → World → ℕ → Op → Type 0
Goes l w i op =
    ((v : World) × (run op w ≡ returns tt v)
      × ((k : Lock) × Step l k × At k i (after op) × Same k v))
    ⊎ ((run op w ≡ waits w) × ((k : Lock) × Step l k × At k i (asleep op) × Same k w))

At-go : (l : Lock) (i : ℕ) (p q : Pc) → At l i p → At (go l i q) i q
At-go l i p q at = get_elem?-set_self l.threads i q (get_elem?-lt l.threads i at)

get_elem?-rouse :
    (ps : List Pc) (i : ℕ) (p : Pc)
    → get_elem? ps i ≡ some p
    → get_elem? (map rouse ps) i ≡ some (rouse p)
get_elem?-rouse [] i p e = absurd (grind arith)
get_elem?-rouse (q ∷ ps) zero p e = cc
get_elem?-rouse (q ∷ ps) (suc i) p e = get_elem?-rouse ps i p e

-- The thread that leaves is not the one that a signal wakes.
left :
    (l : Lock) (i j : ℕ) (p : Pc)
    → At l i p
    → At (go l i outside) j sleeps_write
    → At (go (go l i outside) j asks_write) i outside
left l i j p at sleeps =
    get_elem?-set_ne (set l.threads i outside) j i asks_write other ∙ At-go l i p outside at
  where
    other : j ≢ i
    other same = absurd (grind (arith, sleeps, same, At-go l i p outside at))

sleeping_writer : (p : Pc) → 0 < is_sleeping_writer p → p ≡ sleeps_write
sleeping_writer sleeps_write k = refl
sleeping_writer outside k = absurd (omega arith)
sleeping_writer _ k = absurd (omega arith)

-- A signal on `ok_to_write` as a thread leaves: it finds a writer asleep, or there is none.
signalled :
    (l : Lock) (i : ℕ) (p : Pc)
    → is_sleeping_writer p ≡ 0
    → At l i p
    → ((j : ℕ) × At (go l i outside) j sleeps_write) ⊎ (count is_sleeping_writer l.threads ≡ 0)
unfolding Counted
signalled l i p none_here at = elim (dec_lt 0 (count is_sleeping_writer l.threads)) [
  | yes sleeps ↦
      let (j, q, place, k) =
        count-Counted is_sleeping_writer (set l.threads i outside)
          (omega (arith, count-set is_sleeping_writer l.threads i p outside at)) in
      inl (j, place ∙ ap some (sleeping_writer q k))
  | no quiet ↦ inr (omega arith)
]

module _ (l : Lock) (w : World) (same : Same l w) (i : ℕ) where
  to_read-Goes : At l i asks_read → Goes l w i Op.to_read
  unfolding request_read
  to_read-Goes at = elim (dec_lt 0 l.num_writers) [
    | yes busy ↦ inr (
      rw (lt→ltb 0 w.num_writers (omega arith)),
      (_, wait_read i at busy, At-go l i asks_read sleeps_read at, same),
    )
    | no free ↦ inl (
      record w { num_readers = w.num_readers + 1 },
      ground arith,
      (_, grant_read i at (omega arith), At-go l i asks_read reads at, omega arith),
    )
  ]

  to_write-waits :
      At l i asks_write → (0 < l.num_readers) ⊎ (0 < l.num_writers) → Goes l w i Op.to_write
  unfolding request_write
  to_write-waits at busy =
      inr (ground arith, (_, wait_write i at busy, At-go l i asks_write sleeps_write at, same))

  to_write-Goes : At l i asks_write → Goes l w i Op.to_write
  unfolding request_write
  to_write-Goes at = elim (dec_lt 0 l.num_readers) [
    | yes readers ↦ to_write-waits at (inl readers)
    | no quiet ↦ elim (dec_lt 0 l.num_writers) [
      | yes writers ↦ to_write-waits at (inr writers)
      | no free ↦ inl (
        record w { num_writers = w.num_writers + 1 },
        ground arith,
        (
          _,
          grant_write i at (omega arith) (omega arith),
          At-go l i asks_write writes at,
          omega arith,
        ),
      )
    ]
  ]

  module _ (v : Inv l) where
    done_reading-Goes : At l i reads → Goes l w i Op.done_reading
    unfolding release_read
    done_reading-Goes at = inl (
      record w { num_readers = w.num_readers - 1 },
      refl,
      elim (dec_lt 1 l.num_readers) [
        | yes many ↦ (_, leave_read i at many, At-go l i reads outside at, omega arith)
        | no few ↦
            let last : l.num_readers ≡ 1 =
              omega (arith, le-count is_reading l.threads i reads at) in
            elim (signalled l i reads refl at) [
              | inl (j, sleeps) ↦
                  (_, leave_read_signal i j at last sleeps, left l i j reads at sleeps, omega arith)
              | inr quiet ↦
                  (_, leave_read_quiet i at last quiet, At-go l i reads outside at, omega arith)
            ]
      ],
    )

    done_writing-Goes : At l i writes → Goes l w i Op.done_writing
    unfolding release_write
    done_writing-Goes at = inl (
      record w { num_writers = w.num_writers - 1 },
      refl,
      elim (signalled l i writes refl at) [
        | inl (j, sleeps) ↦ (
          _,
          leave_write_signal i j at sleeps,
          get_elem?-rouse (set (set l.threads i outside) j asks_write) i outside
              (left l i j writes at sleeps),
          omega arith,
        )
        | inr quiet ↦ (
          _,
          leave_write_quiet i at quiet,
          get_elem?-rouse (set l.threads i outside) i outside (At-go l i writes outside at),
          omega arith,
        )
      ],
    )

-- The functions that take and give back the lock are the lock's steps: in every state that threads can
-- reach, with the counts of the lock in memory, each of the four calls, made by a thread that stands
-- before it, returns or waits; there is a step of the lock by which that thread goes on, to
-- the section or out of it, when the call returns, and falls asleep when it waits; and the counts
-- after the step are those that the call leaves in memory.
pub run-Goes :
    (n : ℕ) {l : Lock}
    → Reach (init n) l
    → (w : World) → Same l w
    → (i : ℕ) (op : Op) → At l i (before op)
    → Goes l w i op
run-Goes n {l} r w same i Op.to_read at = to_read-Goes l w same i at
run-Goes n {l} r w same i Op.done_reading at = done_reading-Goes l w same i (Reach-Inv n r) at
run-Goes n {l} r w same i Op.to_write at = to_write-Goes l w same i at
run-Goes n {l} r w same i Op.done_writing at = done_writing-Goes l w same i (Reach-Inv n r) at
