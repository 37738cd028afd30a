-- ===== src/Server/ProfilesManager/Quiet.antt =====
-- The methods of server/ProfilesManager.cpp over the counts of the controller's lock.
use twitter_like_client_serv.Base.{
  ℕ, ◌≡◌, Option, none, some, List, [], ◌∷◌, Str, same, get_elem?, Option-cases, Bool-cases, inl,
  inr,
}
use twitter_like_client_serv.Base.Int.{is_num}
use twitter_like_client_serv.Exec.{bind, Keeps, Ends-bind}
use twitter_like_client_serv.Connection.{Net}
use twitter_like_client_serv.Server.Profile.{
  Profile, Session, inc_sessions_on, send_or_insert_inbox,
}
use twitter_like_client_serv.Server.World.{
  Pointer, World, Json, update, update_sending, assign, allocate,
}
use twitter_like_client_serv.Server.ProfilesManager.{
  get_profile_by_id, has_profile, has_follower, insert_profile, add_follower, add_follower_to,
  admit, create_profile_if_not_exists, max_sessions, to_json_file,
}
use twitter_like_client_serv.Server.ProfilesManager.Local.{
  IsQuiet, deref-Keeps, refuse-Keeps, to_json_file-Keeps, send_close_conn_to_all-Keeps,
  send_to_followers_of-Keeps,
}
use twitter_like_client_serv.Server.ProfilesManager.Methods.{Method, call}

-- So many readers and writers are counted.
abbrev pub Counts : ℕ → ℕ → World → Type 0
Counts readers writers w = (w.num_readers ≡ readers) × (w.num_writers ≡ writers)

module _ (readers writers : ℕ) where
  pub Counts-IsQuiet : IsQuiet (Counts readers writers)
  Counts-IsQuiet w v heap profiles nr nw h = rw (nr, nw) h

  pub update-Counts :
      (i : Pointer) (f : Profile → Profile) → Keeps (Counts readers writers) (update i f)
  unfolding update assign
  update-Counts none f w h = tt
  update-Counts (some i) f w h = elim (Option-cases (get_elem? w.heap i)) [
    | inl e ↦ rw (e, bind) tt
    | inr (p, e) ↦ rw e h
  ]

  pub update_sending-Counts :
      (i : Pointer) (f : Profile → Net → Option (Profile × Net))
      → Keeps (Counts readers writers) (update_sending i f)
  unfolding update_sending assign
  update_sending-Counts none f w h = tt
  update_sending-Counts (some i) f w h = elim (Option-cases (get_elem? w.heap i)) [
    | inl e ↦ rw (e, bind) tt
    | inr (p, e) ↦ elim (Option-cases (f p w.net)) [
      | inl sent ↦ rw (e, bind) (rw (sent, bind) tt)
      | inr (r, sent) ↦ rw (e, bind) (rw (sent, bind) h)
    ]
  ]

  has_follower-Counts :
      (id : Str) (is : List ℕ) → Keeps (Counts readers writers) (has_follower id is)
  unfolding has_follower
  has_follower-Counts id [] w h = h
  has_follower-Counts id (i ∷ is) w h =
      Ends-bind (Counts readers writers) _ _
        (deref-Keeps (Counts readers writers) Counts-IsQuiet (some i) w h)
        λ p v s. elim (Bool-cases (same p.profile_id id)) [
          | inl named ↦ rw named s
          | inr other ↦ rw other (has_follower-Counts id is v s)
        ]

  module _ ⦃json : Json⦄ where
    json-Counts : Keeps (Counts readers writers) to_json_file
    json-Counts = to_json_file-Keeps (Counts readers writers) Counts-IsQuiet

    insert_profile-Counts :
        (id : Str) (i : ℕ) → Keeps (Counts readers writers) (insert_profile id i)
    unfolding insert_profile
    insert_profile-Counts id i w h =
        Ends-bind (Counts readers writers) _ _ (json-Counts _ h) λ _ v s. s

    add_follower-Counts :
        (target : Pointer) (follower : ℕ) (id : Str)
        → Keeps (Counts readers writers) (add_follower target follower id)
    unfolding add_follower
    add_follower-Counts none follower id w h = h
    add_follower-Counts (some target) follower id w h =
        Ends-bind (Counts readers writers) _ _
          (deref-Keeps (Counts readers writers) Counts-IsQuiet (some target) w h)
          λ p v s.
            Ends-bind (Counts readers writers) _ _ (has_follower-Counts id p.followers v s)
              λ there u t. elim (Bool-cases there) [
                | inl old ↦ rw old t
                | inr new ↦ rw new (
                    Ends-bind (Counts readers writers) _ _ (update-Counts (some target) _ u t)
                      λ _ x y. json-Counts x y)
              ]

    pub add_follower_to-Counts :
        (followed : Str) (follower : Pointer)
        → Keeps (Counts readers writers) (add_follower_to followed follower)
    unfolding add_follower_to get_profile_by_id
    add_follower_to-Counts followed none w h = tt
    add_follower_to-Counts followed (some i) w h =
        Ends-bind (Counts readers writers) _ _
          (deref-Keeps (Counts readers writers) Counts-IsQuiet (some i) w h)
          λ f v s. elim (Bool-cases (same f.profile_id followed)) [
            | inl own ↦ rw own s
            | inr other ↦ rw other (add_follower-Counts _ i f.profile_id v s)
          ]

    admit-Counts :
        (id : Str) (conn : Session) (found : Pointer)
        → Keeps (Counts readers writers) (admit id conn found)
    unfolding admit allocate
    admit-Counts id conn none w h =
        Ends-bind (Counts readers writers) _ _ (insert_profile-Counts id _ _ h) λ _ v s. s
    admit-Counts id conn (some i) w h =
        Ends-bind (Counts readers writers) _ _
          (deref-Keeps (Counts readers writers) Counts-IsQuiet (some i) w h)
          λ p v s. elim (Bool-cases (is_num p.sessions_on max_sessions)) [
            | inl full ↦ rw full (refuse-Keeps (Counts readers writers) Counts-IsQuiet conn v s)
            | inr room ↦ rw room s
          ]

    pub create-Counts :
        (id : Str) (conn : Session)
        → Keeps (Counts readers writers) (create_profile_if_not_exists id conn)
    unfolding create_profile_if_not_exists get_profile_by_id
    create-Counts id conn w h =
        Ends-bind (Counts readers writers) _ _ (admit-Counts id conn _ w h) λ i v s.
          Ends-bind (Counts readers writers) _ _ (update-Counts i (inc_sessions_on conn) v s)
            λ _ u t. t

    -- Each method of the manager, however it ends.
    pub call-Counts : (m : Method) → Keeps (Counts readers writers) (call m)
    unfolding call get_profile_by_id has_profile
    call-Counts (Method.insert_profile id i) w h =
        Ends-bind (Counts readers writers) _ _ (insert_profile-Counts id i w h) λ _ v s. s
    call-Counts (Method.get_profile_by_id id) w h = h
    call-Counts (Method.has_profile id) w h = h
    call-Counts (Method.add_follower_to followed follower) w h =
        Ends-bind (Counts readers writers) _ _ (add_follower_to-Counts followed follower w h)
          λ _ v s. s
    call-Counts (Method.send_to_followers_of sender packet) w h =
        Ends-bind (Counts readers writers) _ _
          (send_to_followers_of-Keeps (Counts readers writers) Counts-IsQuiet packet
            (λ i. update_sending-Counts (some i) (send_or_insert_inbox packet)) sender w h)
          λ _ v s. s
    call-Counts (Method.create_profile_if_not_exists id conn) w h =
        Ends-bind (Counts readers writers) _ _ (create-Counts id conn w h) λ _ v s. s
    call-Counts Method.send_close_conn_to_all w h =
        Ends-bind (Counts readers writers) _ _
          (send_close_conn_to_all-Keeps (Counts readers writers) Counts-IsQuiet w h) λ _ v s. s
