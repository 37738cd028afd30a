-- ===== src/Server/ProfilesManager/Each.antt =====
-- What holds of every profile object, and which methods keep it.
use twitter_like_client_serv.Base.{
  ℕ, ◌≡◌, Option, none, some, List, [], ◌∷◌, ◌++◌, Str, same, get_elem?, set, Option-cases,
  Bool-cases, inl, inr,
}
use twitter_like_client_serv.Exec.{bind, Keeps, Ends-bind}
use twitter_like_client_serv.Packet.{Packet}
use twitter_like_client_serv.Connection.{Net}
use twitter_like_client_serv.Server.Profile.{Profile, send_or_insert_inbox}
use twitter_like_client_serv.Server.Registry.{set_cases, append_cases}
use twitter_like_client_serv.Server.World.{Pointer, World, Json, update, update_sending, assign}
use twitter_like_client_serv.Server.ProfilesManager.{
  get_profile_by_id, has_follower, add_follower, add_follower_to, send_to_followers_of,
}
use twitter_like_client_serv.Server.ProfilesManager.Local.{
  quiet, send_to_followers_of-Keeps, IsLocal, deref-Keeps, to_json_file-Keeps,
}

abbrev pub Each : (Profile → Type 0) → World → Type 0
Each Q w = (i : ℕ) (p : Profile) → get_elem? w.heap i ≡ some p → Q p

pub Each-IsLocal : (Q : Profile → Type 0) → IsLocal (Each Q)
Each-IsLocal Q w v heap profiles r = rw heap r

module _ (Q : Profile → Type 0) where
  pub set-Each :
      (heap : List Profile) (i : ℕ) (p q : Profile)
      → get_elem? heap i ≡ some p
      → Q q
      → ((j : ℕ) (o : Profile) → get_elem? heap j ≡ some o → Q o)
      → (j : ℕ) (o : Profile) → get_elem? (set heap i q) j ≡ some o
      → Q o
  set-Each heap i p q at hq r j o e = elim (set_cases heap i j q p o at e) [
    | inl (place, object) ↦ rw object hq
    | inr old ↦ r j o old
  ]

  pub append-Each :
      (heap : List Profile) (q : Profile)
      → Q q
      → ((j : ℕ) (o : Profile) → get_elem? heap j ≡ some o → Q o)
      → (j : ℕ) (o : Profile) → get_elem? (heap ++ q ∷ []) j ≡ some o
      → Q o
  append-Each heap q hq r j o e = elim (append_cases heap q o j e) [
    | inl (place, object) ↦ rw object hq
    | inr old ↦ r j o old
  ]

  pub update-Each :
      (i : Pointer) (f : Profile → Profile)
      → ((p : Profile) → Q p → Q (f p))
      → Keeps (Each Q) (update i f)
  unfolding update assign
  update-Each none f keeps w r = tt
  update-Each (some i) f keeps w r = elim (Option-cases (get_elem? w.heap i)) [
    | inl e ↦ rw (e, bind) tt
    | inr (p, e) ↦ rw e (set-Each w.heap i p (f p) e (keeps p (r i p e)) r)
  ]

  pub update_sending-Each :
      (i : Pointer) (f : Profile → Net → Option (Profile × Net))
      → ((p q : Profile) (net net' : Net) → f p net ≡ some (q, net') → Q p → Q q)
      → Keeps (Each Q) (update_sending i f)
  unfolding update_sending assign
  update_sending-Each none f keeps w r = tt
  update_sending-Each (some i) f keeps w r = elim (Option-cases (get_elem? w.heap i)) [
    | inl e ↦ rw (e, bind) tt
    | inr (p, e) ↦ elim (Option-cases (f p w.net)) [
      | inl d ↦ rw (e, bind) (rw (d, bind) tt)
      | inr ((q, net'), d) ↦
          rw (e, bind) (rw (d, bind) (set-Each w.heap i p q e (keeps p q w.net net' d (r i p e)) r))
    ]
  ]

  pub send_to_followers_of-Each :
      (profile : Pointer) (packet : Packet)
      → ((p q : Profile) (net net' : Net)
          → send_or_insert_inbox packet p net ≡ some (q, net')
          → Q p
          → Q q)
      → Keeps (Each Q) (send_to_followers_of profile packet)
  send_to_followers_of-Each profile packet keeps =
      send_to_followers_of-Keeps (Each Q) (quiet (Each Q) (Each-IsLocal Q)) packet
        (λ i. update_sending-Each (some i) (send_or_insert_inbox packet) keeps) profile

  has_follower-Each : (id : Str) (fs : List ℕ) → Keeps (Each Q) (has_follower id fs)
  unfolding has_follower
  has_follower-Each id [] w r = r
  has_follower-Each id (i ∷ is) w r =
      Ends-bind (Each Q) _ _ (deref-Keeps (Each Q) (quiet (Each Q) (Each-IsLocal Q)) (some i) w r)
        λ p v s. elim (Bool-cases (same p.profile_id id)) [
          | inl hit ↦ rw hit s
          | inr miss ↦ rw miss (has_follower-Each id is v s)
        ]

  -- FOLLOW changes the followers of a profile, and nothing else of it.
  module _ ⦃json : Json⦄
      (followers : (p : Profile) (fs : List ℕ) → Q p → Q (record p { followers = fs })) where
    add_follower-Each :
        (target : Pointer) (follower : ℕ) (id : Str)
        → Keeps (Each Q) (add_follower target follower id)
    unfolding add_follower
    add_follower-Each none follower id w r = r
    add_follower-Each (some i) follower id w r =
        Ends-bind (Each Q) _ _ (deref-Keeps (Each Q) (quiet (Each Q) (Each-IsLocal Q)) (some i) w r)
          λ p v s. Ends-bind (Each Q) _ _ (has_follower-Each id p.followers v s) λ there u t.
            elim (Bool-cases there) [
              | inl yes_there ↦ rw yes_there t
              | inr not_there ↦ rw not_there (
                  Ends-bind (Each Q) _ _ (update-Each (some i) _ (λ q h. followers q _ h) u t)
                    λ _ x y. to_json_file-Keeps (Each Q) (quiet (Each Q) (Each-IsLocal Q)) x y)
            ]

    pub add_follower_to-Each :
        (followed : Str) (follower : Pointer) → Keeps (Each Q) (add_follower_to followed follower)
    unfolding add_follower_to get_profile_by_id
    add_follower_to-Each followed none w r = tt
    add_follower_to-Each followed (some i) w r =
        Ends-bind (Each Q) _ _ (deref-Keeps (Each Q) (quiet (Each Q) (Each-IsLocal Q)) (some i) w r)
          λ f v s. elim (Bool-cases (same f.profile_id followed)) [
            | inl self ↦ rw self s
            | inr other ↦ rw other (add_follower-Each _ i f.profile_id v s)
          ]
