-- ===== src/Server/ProfilesManager/Keeps.antt =====
-- The registry through the operations of server/ProfilesManager.cpp.
use twitter_like_client_serv.Base.{
  ℕ, ◌≡◌, ◌≢◌, refl, ap, Bool, true, false, none, some, List, [], ◌∷◌, ◌++◌, Str, same, same_iff,
  get_elem?, set, length, arith, Bool-cases, Option-cases, inl, inr, get_elem?-lt, ◌⊎◌,
}
use twitter_like_client_serv.Base.Int.{is_num}
use twitter_like_client_serv.Base.Map.{find}
use twitter_like_client_serv.Exec.{returns, fault, ◌>>◌, bind, Ends, Keeps, Ends-bind}
use twitter_like_client_serv.Packet.{Packet}
use twitter_like_client_serv.Server.Profile.{
  Profile, Session, new_profile, inc_sessions_on, send_or_insert_inbox,
}
use twitter_like_client_serv.Server.Registry.{
  IsRegistry, Absent, set-IsRegistry, insert-IsRegistry, snoc-IsFollowed,
}
use twitter_like_client_serv.Server.World.{Pointer, World, Json, deref, update, allocate, assign}
use twitter_like_client_serv.Server.ProfilesManager.{
  is_key, get_profile_by_id, has_follower, to_json_file, insert_profile, add_follower,
  add_follower_to, admit, create_profile_if_not_exists, send_to_followers_of,
}
use twitter_like_client_serv.Server.ProfilesManager.Objects.{
  IsRegistered, update-Keeps, update_sending-Keeps, send_or_insert_inbox-IsInner,
  IsRegistered-IsLocal,
}
use twitter_like_client_serv.Server.ProfilesManager.Local
use twitter_like_client_serv.Server.ProfilesManager.Local.{
  quiet, deref-Keeps, refuse-Keeps, to_json_file-Keeps,
}

-- The search ends in no other state: it finds the name, or it does not, or meets a bad pointer.
has_follower_cases :
    (id : Str) (fs : List ℕ) (w : World)
    → (has_follower id fs w ≡ fault) ⊎ ((b : Bool) × (has_follower id fs w ≡ returns b w))
unfolding has_follower deref
has_follower_cases id [] w = inr (false, refl)
has_follower_cases id (i ∷ is) w = elim (Option-cases (get_elem? w.heap i)) [
  | inl e ↦ inl (rw (e, bind))
  | inr (p, e) ↦ elim (Bool-cases (same p.profile_id id)) [
    | inl hit ↦ inr (true, rw e (rw hit))
    | inr miss ↦ elim (has_follower_cases id is w) [
      | inl stop ↦ inl (rw e (rw miss stop))
      | inr (b, found) ↦ inr (b, rw e (rw miss found))
    ]
  ]
]

-- A follower of that name is not among the pointers if the search does not find the name.
pub has_follower-Absent :
    (id : Str) (fs : List ℕ) (w : World) (f : ℕ) (p : Profile)
    → get_elem? w.heap f ≡ some p
    → p.profile_id ≡ id
    → has_follower id fs w ≡ returns false w
    → Absent f fs
unfolding has_follower deref
has_follower-Absent id [] w f p at name e = tt
has_follower-Absent id (i ∷ is) w f p at name e = elim (Option-cases (get_elem? w.heap i)) [
  | inl bad ↦ absurd (ground (arith, bad, e))
  | inr (q, here) ↦ elim (Bool-cases (same q.profile_id id)) [
    | inl hit ↦ absurd (ground (arith, here, hit, e))
    | inr miss ↦ (
      λ place. ground (arith, ap (get_elem? w.heap) place, same_iff q.profile_id id),
      has_follower-Absent id is w f p at name (ground (arith, here, miss, e)),
    )
  ]
]

pub is_key_free : (id : Str) (m : List (Str × ℕ)) → find id m ≡ none → is_key id m ≡ false
unfolding is_key
is_key_free id m e = rw (e, is_key)

pub pushed-IsRegistry :
    (target follower : ℕ) (p f : Profile) (w : World)
    → get_elem? w.heap target ≡ some p
    → get_elem? w.heap follower ≡ some f
    → follower ≢ target
    → Absent follower p.followers
    → IsRegistered w
    → IsRegistry
        (set w.heap target (record p { followers = p.followers ++ follower ∷ [] }))
        w.profiles
pushed-IsRegistry target follower p f w at known ne new r =
    set-IsRegistry w.heap w.profiles target p
      (record p { followers = p.followers ++ follower ∷ [] }) at refl
      (snoc-IsFollowed (length w.heap) target follower p.followers
        (get_elem?-lt w.heap follower known) ne new (r.followed target p at))
      r

-- The profile that is found under a name that the follower does not have is another one.
pub other_target :
    (followed : Str) (target follower : ℕ) (f : Profile) (w : World)
    → IsRegistered w
    → get_elem? w.heap follower ≡ some f
    → same f.profile_id followed ≡ false
    → find followed w.profiles ≡ some target
    → follower ≢ target
other_target followed target follower f w r known differ found e =
    let (p, at, name) = r.keyed followed target found in
    ground (arith, ap (get_elem? w.heap) e, same_iff f.profile_id followed)

module _ ⦃json : Json⦄ where
  -- A new profile under a free name.
  create-Keeps :
      (id : Str) (conn : Session) (w : World)
      → find id w.profiles ≡ none
      → IsRegistered w
      → Ends IsRegistered (admit id conn none w)
  unfolding admit allocate insert_profile new_profile
  create-Keeps id conn w free r = rw (is_key_free id w.profiles free) (
      Ends-bind IsRegistered _ _
        (Ends-bind IsRegistered _ _
          (to_json_file-Keeps IsRegistered (quiet IsRegistered IsRegistered-IsLocal) _
            (insert-IsRegistry w.heap w.profiles (new_profile id) free refl r))
          λ _ v s. s)
        λ _ v s. s)

  admit-Keeps :
      (id : Str) (conn : Session) (w : World)
      → IsRegistered w
      → Ends IsRegistered (admit id conn (find id w.profiles) w)
  admit-Keeps id conn w r = elim (Option-cases (find id w.profiles)) [
    | inl free ↦ rw free (create-Keeps id conn w free r)
    | inr (i, found) ↦ rw found (
        unfold admit in
        Ends-bind IsRegistered _ _
          (deref-Keeps IsRegistered (quiet IsRegistered IsRegistered-IsLocal) (some i) w r)
          λ p v s. elim (Bool-cases (is_num p.sessions_on 2)) [
            | inl full ↦
                rw full
                  (refuse-Keeps IsRegistered (quiet IsRegistered IsRegistered-IsLocal) conn v s)
            | inr room ↦ rw room s
          ])
  ]

  pub create_profile_if_not_exists-Keeps :
      (id : Str) (conn : Session) → Keeps IsRegistered (create_profile_if_not_exists id conn)
  unfolding create_profile_if_not_exists get_profile_by_id
  create_profile_if_not_exists-Keeps id conn w r =
      Ends-bind IsRegistered _ _ (admit-Keeps id conn w r) λ profile v s.
        Ends-bind IsRegistered _ _
          (update-Keeps profile (inc_sessions_on conn) (λ p. unfold inc_sessions_on in (refl, refl))
            v s)
          λ _ u t. t

  -- A follower who is another object, under a name that no follower has yet.
  push_follower-Keeps :
      (target follower : ℕ) (p f : Profile) (w : World)
      → get_elem? w.heap target ≡ some p
      → get_elem? w.heap follower ≡ some f
      → follower ≢ target
      → Absent follower p.followers
      → IsRegistered w
      → Ends IsRegistered (
          (update (some target) (λ q. record q { followers = q.followers ++ follower ∷ [] })
              >> to_json_file)
            w)
  unfolding update assign
  push_follower-Keeps target follower p f w at known ne new r = rw at (
      to_json_file-Keeps IsRegistered (quiet IsRegistered IsRegistered-IsLocal) _
        (pushed-IsRegistry target follower p f w at known ne new r))

  add_follower-Keeps :
      (target follower : ℕ) (f : Profile) (w : World)
      → get_elem? w.heap follower ≡ some f
      → follower ≢ target
      → IsRegistered w
      → Ends IsRegistered (add_follower (some target) follower f.profile_id w)
  unfolding add_follower deref
  add_follower-Keeps target follower f w known ne r =
      elim (Option-cases (get_elem? w.heap target)) [
        | inl e ↦ rw (e, bind) tt
        | inr (p, e) ↦ elim (has_follower_cases f.profile_id p.followers w) [
          | inl stop ↦ rw e (rw stop tt)
          | inr (true, found) ↦ rw e (rw found r)
          | inr (false, missed) ↦ rw e (
              rw missed (
                push_follower-Keeps target follower p f w e known ne
                  (has_follower-Absent f.profile_id p.followers w follower f known refl missed) r))
        ]
      ]

  pub add_follower_to-Keeps :
      (followed : Str) (follower : Pointer) → Keeps IsRegistered (add_follower_to followed follower)
  unfolding add_follower_to deref get_profile_by_id
  add_follower_to-Keeps followed none w r = tt
  add_follower_to-Keeps followed (some follower) w r =
      elim (Option-cases (get_elem? w.heap follower)) [
        | inl e ↦ rw (e, bind) tt
        | inr (f, e) ↦ elim (Bool-cases (same f.profile_id followed)) [
          | inl self ↦ rw e (rw self r)
          | inr other ↦ elim (Option-cases (find followed w.profiles)) [
            | inl unknown ↦ rw e (rw other (rw unknown (unfold add_follower in r)))
            | inr (target, found) ↦ rw e (
                rw other (
                  rw found (
                    add_follower-Keeps target follower f w e
                      (other_target followed target follower f w r e other found) r)))
          ]
        ]
      ]

pub send_to_followers_of-Keeps :
    (profile : Pointer) (packet : Packet) → Keeps IsRegistered (send_to_followers_of profile packet)
send_to_followers_of-Keeps profile packet =
    Local.send_to_followers_of-Keeps IsRegistered (quiet IsRegistered IsRegistered-IsLocal) packet
      (λ i.
        update_sending-Keeps (some i) (send_or_insert_inbox packet)
          (send_or_insert_inbox-IsInner packet))
      profile
