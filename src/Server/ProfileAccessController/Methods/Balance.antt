-- ===== src/Server/ProfileAccessController/Methods/Balance.antt =====
-- The methods of server/ProfileAccessController.cpp: the manager's methods behind the lock, and the lock after
-- calls of them.
use twitter_like_client_serv.Base.{◌≡◌, refl, List, [], ◌∷◌, ◌||◌, ltb, Bool-cases, inl, inr, ◌+◌}
use twitter_like_client_serv.Exec.{
  Outcome, returns, exits, waits, throws, fault, Exec, ◌>>=◌, bind, pure, Post, Post-bind,
  Post-Ends,
}
use twitter_like_client_serv.Base.Map.{find}
use twitter_like_client_serv.Server.World.{World, Json}
use twitter_like_client_serv.Server.ProfilesManager
use twitter_like_client_serv.Server.ProfilesManager.{is_key}
use twitter_like_client_serv.Server.ProfilesManager.Methods.{
  Method, Answer, nothing, truth, profile,
}
use twitter_like_client_serv.Server.ProfilesManager.Methods as Manager
use twitter_like_client_serv.Server.ProfilesManager.Quiet.{Counts, call-Counts}
use twitter_like_client_serv.Server.ProfileAccessController.{
  request_read, request_write, release_read, release_write, reading, writing, insert_profile,
  get_profile_by_id, has_profile, add_follower_to, send_to_followers_of,
  create_profile_if_not_exists, send_close_conn_to_all, create_controller,
}
use twitter_like_client_serv.Server.ProfileAccessController.Methods.{call, calls, run}

-- A value is changed after the release or before it.
release-map :
    {A B : Type 0} (o : Outcome World A) (f : A → B) (release : World → World)
    → bind (bind o (λ a v. returns a (release v))) (λ a v. returns (f a) v)
      ≡ bind (bind o (λ a v. returns (f a) v)) (λ b v. returns b (release v))
release-map (returns a w) f release = refl
release-map (exits w) f release = refl
release-map (waits w) f release = refl
release-map (throws w) f release = refl
release-map fault f release = refl

writing-map :
    {A B : Type 0} (method : Exec World A) (f : A → B) (w : World)
    → (writing method >>= (λ a. pure (f a))) w ≡ writing (method >>= (λ a. pure (f a))) w
unfolding request_write release_write
writing-map method f w = elim (Bool-cases (ltb 0 w.num_readers || ltb 0 w.num_writers)) [
  | inl busy ↦ rw busy refl
  | inr free ↦ rw free (release-map (method _) f _)
]

reading-map :
    {A B : Type 0} (method : Exec World A) (f : A → B) (w : World)
    → (reading method >>= (λ a. pure (f a))) w ≡ reading (method >>= (λ a. pure (f a))) w
unfolding request_read release_read
reading-map method f w = elim (Bool-cases (ltb 0 w.num_writers)) [
  | inl busy ↦ rw busy refl
  | inr free ↦ rw free (release-map (method _) f _)
]

module _ ⦃json : Json⦄ where
  -- The manager's method behind the lock: two of the methods are readers.
  abbrev pub guarded : Method → Exec World Answer
  guarded (Method.get_profile_by_id id) = reading (Manager.call (Method.get_profile_by_id id))
  guarded (Method.has_profile id) = reading (Manager.call (Method.has_profile id))
  guarded m = writing (Manager.call m)

  -- A method of the controller does what the manager's method of that name does, between a request
  -- and a release of the lock, and returns its answer.
  pub call-guarded : (m : Method) (w : World) → call m w ≡ guarded m w
  unfolding call Manager.call insert_profile get_profile_by_id has_profile add_follower_to
      send_to_followers_of create_profile_if_not_exists send_close_conn_to_all
  call-guarded (Method.insert_profile id i) w =
      writing-map (ProfilesManager.insert_profile id i) truth w
  call-guarded (Method.get_profile_by_id id) w =
      reading-map (ProfilesManager.get_profile_by_id id) profile w
  call-guarded (Method.has_profile id) w = reading-map (ProfilesManager.has_profile id) truth w
  call-guarded (Method.add_follower_to followed follower) w =
      writing-map (ProfilesManager.add_follower_to followed follower) (λ _. nothing) w
  call-guarded (Method.send_to_followers_of sender packet) w =
      writing-map (ProfilesManager.send_to_followers_of sender packet) (λ _. nothing) w
  call-guarded (Method.create_profile_if_not_exists id conn) w =
      writing-map (ProfilesManager.create_profile_if_not_exists id conn) profile w
  call-guarded Method.send_close_conn_to_all w =
      writing-map ProfilesManager.send_close_conn_to_all (λ _. nothing) w

  writing-Balanced :
      (m : Method) (w : World)
      → Counts 0 0 w
      → Post (λ _ v. Counts 0 0 v) (Counts 0 1) (writing (Manager.call m) w)
  unfolding request_write release_write
  writing-Balanced m w (nr, nw) =
      rw (nr, nw)
        (Post-bind (λ _ v. Counts 0 1 v) (λ _ v. Counts 0 0 v) (Counts 0 1) _ _
          (Post-Ends (Counts 0 1) _ (call-Counts 0 1 m _ (refl, refl)))
          λ a v (r, s). (r, rw s refl))

  reading-Balanced :
      (m : Method) (w : World) (a : Answer)
      → Counts 0 0 w
      → ((v : World) → v.profiles ≡ w.profiles → Manager.call m v ≡ returns a v)
      → Post (λ _ v. Counts 0 0 v) (Counts 0 1) (reading (Manager.call m) w)
  unfolding request_read release_read
  reading-Balanced m w a (nr, nw) looks =
      rw (nr, nw) (rw (looks (record w { num_readers = 0 + 1; num_writers = 0 }) refl) (refl, refl))

  guarded-Balanced :
      (m : Method) (w : World)
      → Counts 0 0 w
      → Post (λ _ v. Counts 0 0 v) (Counts 0 1) (guarded m w)
  guarded-Balanced (Method.get_profile_by_id id) w free =
      reading-Balanced _ w (profile (find id w.profiles)) free
        λ v e. unfold Manager.call ProfilesManager.get_profile_by_id in rw (e, bind) refl
  guarded-Balanced (Method.has_profile id) w free =
      reading-Balanced _ w (truth (is_key id w.profiles)) free
        λ v e. unfold Manager.call ProfilesManager.has_profile in rw (e, bind) refl
  guarded-Balanced m w free = writing-Balanced m w free

  call-Balanced :
      (m : Method) (w : World) → Counts 0 0 w → Post (λ _ v. Counts 0 0 v) (Counts 0 1) (call m w)
  call-Balanced m w free = rw (call-guarded m w) (guarded-Balanced m w free)

  calls-Balanced :
      (ms : List Method) (w : World)
      → Counts 0 0 w
      → Post (λ _ v. Counts 0 0 v) (Counts 0 1) (calls ms w)
  unfolding calls
  calls-Balanced [] w free = free
  calls-Balanced (m ∷ ms) w free =
      Post-bind (λ _ v. Counts 0 0 v) (λ _ v. Counts 0 0 v) (Counts 0 1) _ _
        (call-Balanced m w free)
        λ answer v s.
          Post-bind (λ _ v. Counts 0 0 v) (λ _ v. Counts 0 0 v) (Counts 0 1) _ _
            (calls-Balanced ms v s) λ rest u t. t

  -- A new controller, and any calls of its methods, one after the other: if all return, the lock is
  -- free again; if one ends its thread, throws or waits, one writer and no reader is left counted.
  -- Nothing is said of a run into undefined behaviour.
  pub run-Balanced :
      (ms : List Method) (w : World) → Post (λ _ v. Counts 0 0 v) (Counts 0 1) (run ms w)
  unfolding run create_controller ProfilesManager.create_manager
  run-Balanced ms w = calls-Balanced ms _ (refl, refl)
