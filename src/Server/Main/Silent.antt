-- ===== src/Server/Main/Silent.antt =====
-- Calls of server/ProfilesManager.cpp that send nothing if they return, and those of
-- server/ProfileAccessController.cpp around them.
use twitter_like_client_serv.Base.{
  ℕ, ◌≡◌, Option, none, some, List, [], ◌∷◌, Str, same, get_elem?, Option-cases, Bool-cases, inl,
  inr,
}
use twitter_like_client_serv.Base.Int.{is_num}
use twitter_like_client_serv.Exec.{
  Outcome, returns, exits, waits, throws, fault, Exec, bind, lift, pthread_exit, ◌>>◌, Post,
  Post-bind,
}
use twitter_like_client_serv.Packet.{CmdType, of_cmd}
use twitter_like_client_serv.Server.Document.{entries}
use twitter_like_client_serv.Server.Profile.{Profile, Session, inc_sessions_on}
use twitter_like_client_serv.Server.World.{
  Pointer, World, Json, deref, update, assign, allocate, send_packet, close,
}
use twitter_like_client_serv.Server.ProfilesManager
use twitter_like_client_serv.Server.ProfilesManager.{
  has_follower, store, save, to_json_file, insert_profile, add_follower, admit, refuse,
  max_sessions,
}
use twitter_like_client_serv.Server.ProfilesManager.Quiet.{Counts}
use twitter_like_client_serv.Server.ProfileAccessController.{release_write, writing}
use twitter_like_client_serv.Server.ProfileAccessController.Limit.{request_write_free}
use twitter_like_client_serv.Server.Main.Lock.{Always}

-- So much has been sent, and these are the backups.
abbrev pub Sent : List (ℕ × List ℕ) → List ℕ → World → Type 0
Sent sent conns w = (w.net.sent ≡ sent) × (w.list_backups ≡ conns)

-- A call that returns sends nothing.
module _ (sent : List (ℕ × List ℕ)) (conns : List ℕ) where
  abbrev pub IsSilent : {A : Type 0} → Outcome World A → Type 0
  IsSilent o = Post (λ a v. Sent sent conns v) Always o

  IsSilent-bind :
      {A B : Type 0} (o : Outcome World A) (f : A → Exec World B)
      → IsSilent o
      → ((a : A) (v : World) → Sent sent conns v → IsSilent (f a v))
      → IsSilent (bind o f)
  IsSilent-bind o f h k =
      Post-bind (λ a v. Sent sent conns v) (λ a v. Sent sent conns v) Always o f h k

  exit-IsSilent :
      {A B : Type 0} (o : Outcome World A) (f : A → Exec World B)
      → ((a : A) (v : World) → IsSilent (f a v))
      → IsSilent (bind o f)
  exit-IsSilent (returns a v) f k = k a v
  exit-IsSilent (exits v) f k = tt
  exit-IsSilent (waits v) f k = tt
  exit-IsSilent (throws v) f k = tt
  exit-IsSilent fault f k = tt

  deref-IsSilent : (i : Pointer) (w : World) → Sent sent conns w → IsSilent (deref i w)
  unfolding deref
  deref-IsSilent none w h = tt
  deref-IsSilent (some i) w h = elim (Option-cases (get_elem? w.heap i)) [
    | inl e ↦ rw (e, lift) tt
    | inr (p, e) ↦ rw (e, lift) h
  ]

  pub update-IsSilent :
      (i : Pointer) (f : Profile → Profile) (w : World)
      → Sent sent conns w
      → IsSilent (update i f w)
  unfolding update assign
  update-IsSilent none f w h = tt
  update-IsSilent (some i) f w h = elim (Option-cases (get_elem? w.heap i)) [
    | inl e ↦ rw (e, bind) tt
    | inr (p, e) ↦ rw (e, bind) h
  ]

  has_follower-IsSilent :
      (id : Str) (is : List ℕ) (w : World) → Sent sent conns w → IsSilent (has_follower id is w)
  unfolding has_follower
  has_follower-IsSilent id [] w h = h
  has_follower-IsSilent id (i ∷ is) w h = IsSilent-bind _ _ (deref-IsSilent (some i) w h) λ p v s.
      elim (Bool-cases (same p.profile_id id)) [
        | inl named ↦ rw named s
        | inr other ↦ rw other (has_follower-IsSilent id is v s)
      ]

  -- A session that is refused is sent CLOSE_CONN, and then the call does not return.
  refuse-IsSilent : (conn : Session) (w : World) → IsSilent (refuse conn w)
  unfolding refuse
  refuse-IsSilent conn w =
      exit-IsSilent (send_packet conn (of_cmd w.now CmdType.close_conn) w)
        (λ _. close conn >> pthread_exit {A = Pointer})
        λ a v. exit-IsSilent (close conn v) (λ _. pthread_exit {A = Pointer}) λ b u. tt

  module _ ⦃json : Json⦄ where
    store-IsSilent :
        (reached : Str) (text : Option Str) (w : World)
        → Sent sent conns w
        → IsSilent (store reached text w)
    unfolding store
    store-IsSilent reached none w h = tt
    store-IsSilent reached (some text) w h = h

    to_json_file-IsSilent : (w : World) → Sent sent conns w → IsSilent (to_json_file w)
    unfolding to_json_file save
    to_json_file-IsSilent w h = elim (Option-cases (entries w.heap w.profiles)) [
      | inl e ↦ rw (e, bind) tt
      | inr (es, e) ↦ rw (e, bind) (store-IsSilent _ _ w h)
    ]

    add_follower-IsSilent :
        (target : Pointer) (follower : ℕ) (id : Str) (w : World)
        → Sent sent conns w
        → IsSilent (add_follower target follower id w)
    unfolding add_follower
    add_follower-IsSilent none follower id w h = h
    add_follower-IsSilent (some target) follower id w h =
        IsSilent-bind _ _ (deref-IsSilent (some target) w h) λ p v s.
          IsSilent-bind _ _ (has_follower-IsSilent id p.followers v s) λ there u t.
            elim (Bool-cases there) [
              | inl old ↦ rw old t
              | inr new ↦ rw new (
                  IsSilent-bind _ _ (update-IsSilent (some target) _ u t)
                    λ _ x y. to_json_file-IsSilent x y)
            ]

    pub follow-IsSilent :
        (followed : Str) (follower : Pointer) (w : World)
        → Sent sent conns w
        → IsSilent (ProfilesManager.add_follower_to followed follower w)
    unfolding ProfilesManager.add_follower_to ProfilesManager.get_profile_by_id
    follow-IsSilent followed none w h = tt
    follow-IsSilent followed (some i) w h = IsSilent-bind _ _ (deref-IsSilent (some i) w h) λ f v s.
        elim (Bool-cases (same f.profile_id followed)) [
          | inl own ↦ rw own s
          | inr other ↦ rw other (add_follower-IsSilent _ i f.profile_id v s)
        ]

    admit-IsSilent :
        (id : Str) (conn : Session) (found : Pointer) (w : World)
        → Sent sent conns w
        → IsSilent (admit id conn found w)
    unfolding admit allocate insert_profile
    admit-IsSilent id conn none w h =
        IsSilent-bind _ _ (IsSilent-bind _ _ (to_json_file-IsSilent _ h) λ _ v s. s) λ _ v s. s
    admit-IsSilent id conn (some i) w h = IsSilent-bind _ _ (deref-IsSilent (some i) w h) λ p v s.
        elim (Bool-cases (is_num p.sessions_on max_sessions)) [
          | inl full ↦ rw full (refuse-IsSilent conn v)
          | inr room ↦ rw room s
        ]

    pub create-IsSilent :
        (id : Str) (conn : Session) (w : World)
        → Sent sent conns w
        → IsSilent (ProfilesManager.create_profile_if_not_exists id conn w)
    unfolding ProfilesManager.create_profile_if_not_exists ProfilesManager.get_profile_by_id
    create-IsSilent id conn w h =
        IsSilent-bind _ _ (admit-IsSilent id conn _ w h)
          λ i v s. IsSilent-bind _ _ (update-IsSilent i (inc_sessions_on conn) v s) λ _ u t. t

  pub writing-IsSilent :
      {A : Type 0} (method : Exec World A) (w : World)
      → ((v : World) → Sent sent conns v → IsSilent (method v))
      → Counts 0 0 w
      → Sent sent conns w
      → IsSilent (writing method w)
  unfolding release_write
  writing-IsSilent method w silent (nr, nw) h =
      rw (request_write_free w nr nw, bind) (IsSilent-bind _ _ (silent _ h) λ a v s. s)
