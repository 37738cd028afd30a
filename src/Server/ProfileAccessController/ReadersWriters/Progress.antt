-- ===== src/Server/ProfileAccessController/ReadersWriters/Progress.antt =====
-- The lock where its threads can go no further.
use twitter_like_client_serv.Base.{ℕ, ◌<◌, ◌≡◌, refl, set, arith}
use native.Mathlib.Decide.{dec_lt}
use twitter_like_client_serv.Server.ProfileAccessController.ReadersWriters.{
  Pc, outside, asks_read, sleeps_read, reads, asks_write, sleeps_write, writes, gone, Lock, count,
  is_reading, is_writing, is_sleeping_reader, is_sleeping_writer, is_asking_writer, At, go, Step,
  grant_read, grant_write, leave_read, leave_read_signal, leave_read_quiet, exit_write, init, Reach,
}
use twitter_like_client_serv.Server.ProfileAccessController.ReadersWriters.Counts.{
  Counted, count-Counted, count-set, le-count,
}
use twitter_like_client_serv.Server.ProfileAccessController.ReadersWriters.Exclusion.{
  Inv, Reach-Inv,
}
use twitter_like_client_serv.Server.ProfileAccessController.ReadersWriters.Settle.{Settles}

-- Nothing is left to do but new requests and wakeups that nobody has signalled.
abbrev pub IsStill : Lock → Type 0
IsStill l = (k : Lock) (s : Step l k) → ¬ (Settles s)

-- There is a step that is neither a new request nor a wakeup with no signal.
abbrev pub GoesOn : Lock → Type 0
GoesOn l = (k : Lock) × (s : Step l k) × Settles s

-- The last reader leaves.
pub last_leaves : (l : Lock) (i : ℕ) → At l i reads → l.num_readers ≡ 1 → GoesOn l
unfolding Counted
last_leaves l i at last = elim (dec_lt 0 (count is_sleeping_writer l.threads)) [
  | yes asleep ↦
      let (j, p, place, k) =
        count-Counted is_sleeping_writer (set l.threads i outside)
          (omega (arith, count-set is_sleeping_writer l.threads i reads outside at)) in
      signal j p place k
  | no quiet ↦ (_, leave_read_quiet i at last (omega arith), tt)
]
  where
    signal : (j : ℕ) (p : Pc) → At (go l i outside) j p → 0 < is_sleeping_writer p → GoesOn l
    signal j sleeps_write place k = (_, leave_read_signal i j at last place, tt)
    signal j outside place k = absurd (omega arith)
    signal j _ place k = absurd (omega arith)

module _ {l : Lock} (still : IsStill l) (v : Inv l) (none_gone : (i : ℕ) → ¬ (At l i gone)) where
  no_writer : (i : ℕ) → ¬ (At l i writes)
  no_writer i at = still _ (exit_write i at) tt

  uncounted_writers : ¬ (0 < l.num_writers)
  unfolding Counted
  uncounted_writers h =
      let (i, p, at, k) = count-Counted is_writing l.threads (omega arith) in inside i p at k
    where
      inside : (i : ℕ) (p : Pc) → At l i p → 0 < is_writing p → ⊥
      inside i writes at k = no_writer i at
      inside i gone at k = none_gone i at
      inside i outside at k = omega arith
      inside i _ at k = omega arith

  last_reader : (i : ℕ) → At l i reads → l.num_readers ≡ 1 → ⊥
  last_reader i at last = let (k, s, settles) = last_leaves l i at last in still k s settles

  no_reader : (i : ℕ) → ¬ (At l i reads)
  no_reader i at = elim (dec_lt 1 l.num_readers) [
    | yes many ↦ still _ (leave_read i at many) tt
    | no one ↦ last_reader i at (omega (arith, le-count is_reading l.threads i reads at))
  ]

  uncounted_readers : ¬ (0 < l.num_readers)
  unfolding Counted
  uncounted_readers h =
      let (i, p, at, k) = count-Counted is_reading l.threads (omega arith) in inside i p at k
    where
      inside : (i : ℕ) (p : Pc) → At l i p → 0 < is_reading p → ⊥
      inside i reads at k = no_reader i at
      inside i outside at k = omega arith
      inside i _ at k = omega arith

  no_asking_writer : (i : ℕ) → ¬ (At l i asks_write)
  no_asking_writer i at =
      still _
        (grant_write i at (omega (arith, uncounted_readers)) (omega (arith, uncounted_writers))) tt

  no_asking_reader : (i : ℕ) → ¬ (At l i asks_read)
  no_asking_reader i at = still _ (grant_read i at (omega (arith, uncounted_writers))) tt

  no_sleeping_reader : (i : ℕ) → ¬ (At l i sleeps_read)
  no_sleeping_reader i at =
      uncounted_writers (omega (arith, le-count is_sleeping_reader l.threads i sleeps_read at))

  no_sleeping_writer : (i : ℕ) → ¬ (At l i sleeps_write)
  unfolding Counted
  no_sleeping_writer i at =
      let (j, p, place, k) = count-Counted is_asking_writer l.threads (
        omega (
          arith,
          le-count is_sleeping_writer l.threads i sleeps_write at,
          uncounted_writers,
          uncounted_readers,
        )) in
      asks j p place k
    where
      asks : (j : ℕ) (p : Pc) → At l j p → 0 < is_asking_writer p → ⊥
      asks j asks_write place k = no_asking_writer j place
      asks j outside place k = omega arith
      asks j _ place k = omega arith

  all_outside : (i : ℕ) (p : Pc) → At l i p → p ≡ outside
  all_outside i outside at = refl
  all_outside i asks_read at = absurd (no_asking_reader i at)
  all_outside i sleeps_read at = absurd (no_sleeping_reader i at)
  all_outside i reads at = absurd (no_reader i at)
  all_outside i asks_write at = absurd (no_asking_writer i at)
  all_outside i sleeps_write at = absurd (no_sleeping_writer i at)
  all_outside i writes at = absurd (no_writer i at)
  all_outside i gone at = absurd (none_gone i at)

-- No deadlock: in a reachable state in which no thread has ended inside the write section, and in which
-- nothing is left to do but new requests and wakeups that nobody has signalled, every thread is
-- outside: each request has been granted and given back.
pub still_outside :
    (n : ℕ) {l : Lock}
    → Reach (init n) l
    → IsStill l
    → ((i : ℕ) → ¬ (At l i gone))
    → (i : ℕ) (p : Pc) → At l i p
    → p ≡ outside
still_outside n r still none_gone i p at = all_outside still (Reach-Inv n r) none_gone i p at
