-- ===== src/Server/ProfilesManager/Sessions.antt =====
-- The count of the sessions of each profile through the methods of server/ProfilesManager.cpp. A session that
-- reconnects is added and not counted, so that list and count need not agree.
use twitter_like_client_serv.Base.{
  ℕ, zero, suc, ◌+◌, ◌≤◌, ◌≡◌, refl, false, none, some, [], ◌∷◌, ◌++◌, Str, get_elem?, length,
  arith, Option-cases, Bool-cases, inl, inr, length-append, get_elem?-length, if◌then◌else◌,
}
use twitter_like_client_serv.Base.Int.{ℤ, pos, negsuc, incr, decr, is_num}
use twitter_like_client_serv.Base.Map.{find, insert}
use twitter_like_client_serv.Exec.{
  bind, Keeps, pure, pthread_exit, Post, Post-bind, Post-mono, Ends-Post, Post-Ends,
}
use twitter_like_client_serv.Packet.{Packet, CmdType, of_cmd}
use twitter_like_client_serv.Connection.{Net}
use twitter_like_client_serv.Server.Profile.{
  Profile, Session, new_profile, inc_sessions_on, dec_sessions_on, update_sessions_on, has_session,
  erase_session, send_or_insert_inbox, fetch_inbox_content,
}
use twitter_like_client_serv.Server.Profile.Count.{
  length-erase_session, send_or_insert_inbox_kept, fetch_inbox_content_kept,
}
use twitter_like_client_serv.Server.World.{
  Pointer, World, Json, deref, close, update, allocate, assign,
}
use twitter_like_client_serv.Server.ProfilesManager.{
  max_sessions, is_key, refuse, get_profile_by_id, insert_profile, to_json_file, admit,
  create_profile_if_not_exists,
}
use twitter_like_client_serv.Server.ProfilesManager.Local.{
  quiet, IsLocal, send_packet-Keeps, close-Keeps, to_json_file-Keeps,
}
use twitter_like_client_serv.Server.ProfilesManager.Each.{Each, Each-IsLocal, set-Each, append-Each}

abbrev pub IsAtMost : ℕ → ℤ → Type 0
IsAtMost k (pos n) = n ≤ k
IsAtMost k (negsuc n) = Unit {0}

pub record IsCounted (p : Profile) : Type 0 where
  pub limit : IsAtMost max_sessions p.sessions_on
  pub there : IsAtMost (length p.sessions) p.sessions_on

incr-IsAtMost : (k : ℕ) (n : ℤ) → IsAtMost k n → IsAtMost (k + 1) (incr n)
incr-IsAtMost k (pos n) h = omega arith
incr-IsAtMost k (negsuc zero) h = omega arith
incr-IsAtMost k (negsuc (suc n)) h = tt

decr-IsAtMost : (k : ℕ) (n : ℤ) → IsAtMost (k + 1) n → IsAtMost k (decr n)
decr-IsAtMost k (pos zero) h = tt
decr-IsAtMost k (pos (suc n)) h = omega arith
decr-IsAtMost k (negsuc n) h = tt

IsAtMost-mono : (k l : ℕ) (n : ℤ) → k ≤ l → IsAtMost k n → IsAtMost l n
IsAtMost-mono k l (pos n) le h = omega arith
IsAtMost-mono k l (negsuc n) le h = tt

below_limit : (n : ℤ) → IsAtMost 2 n → is_num n 2 ≡ false → IsAtMost 1 n
below_limit (pos n) h e = ground arith
below_limit (negsuc n) h e = tt

pub dec_sessions_on-IsCounted :
    (conn : Session) (p : Profile) → IsCounted p → IsCounted (dec_sessions_on conn p)
unfolding dec_sessions_on
dec_sessions_on-IsCounted conn p h = elim (Bool-cases (has_session conn p.sessions)) [
  | inl found ↦ rw found (record {
    limit = decr-IsAtMost 2 p.sessions_on (IsAtMost-mono 2 3 p.sessions_on (omega arith) h.limit);
    there =
        decr-IsAtMost (length (erase_session conn p.sessions)) p.sessions_on
          (rw (length-erase_session conn p.sessions found) h.there);
  })
  | inr absent ↦ rw absent h
]

pub update_sessions_on-IsCounted :
    (conn : Session) (p : Profile) → IsCounted p → IsCounted (update_sessions_on conn p)
unfolding update_sessions_on
update_sessions_on-IsCounted conn p h = record {
  limit = h.limit;
  there =
      IsAtMost-mono (length p.sessions) (length (p.sessions ++ conn ∷ [])) p.sessions_on
        (omega (arith, length-append p.sessions (conn ∷ []))) h.there;
}

inc_sessions_on-IsCounted :
    (conn : Session) (p : Profile)
    → is_num p.sessions_on 2 ≡ false
    → IsCounted p
    → IsCounted (inc_sessions_on conn p)
unfolding inc_sessions_on
inc_sessions_on-IsCounted conn p room h = record {
  limit = incr-IsAtMost 1 p.sessions_on (below_limit p.sessions_on h.limit room);
  there =
      rw (length-append p.sessions (conn ∷ []))
        (incr-IsAtMost (length p.sessions) p.sessions_on h.there);
}

new_profile-IsCounted : (id : Str) → IsCounted (new_profile id)
unfolding new_profile
new_profile-IsCounted id = omega arith

pub send_or_insert_inbox-IsCounted :
    (packet : Packet) (p q : Profile) (net net' : Net)
    → send_or_insert_inbox packet p net ≡ some (q, net')
    → IsCounted p
    → IsCounted q
send_or_insert_inbox-IsCounted packet p q net net' e h =
    let kept = send_or_insert_inbox_kept packet p q net net' e in
    record { limit = rw kept.0 h.limit; there = rw (kept.0, kept.1) h.there }

pub fetch_inbox_content-IsCounted :
    (p q : Profile) (net net' : Net)
    → fetch_inbox_content p net ≡ some (q, net')
    → IsCounted p
    → IsCounted q
fetch_inbox_content-IsCounted p q net net' e h =
    let kept = fetch_inbox_content_kept p q net net' e in
    record { limit = rw kept.0 h.limit; there = rw (kept.0, kept.1) h.there }

-- The refusal of a session does not return.
refuse-Post :
    (Q : Pointer → World → Type 0) (P : World → Type 0)
    → IsLocal P
    → (conn : Session) (w : World) → P w
    → Post Q P (refuse conn w)
unfolding refuse
refuse-Post Q P local conn w r =
    Post-bind (λ _ s. P s) Q P _ _
      (Post-Ends P _
        (send_packet-Keeps P (quiet P local) conn (of_cmd w.now CmdType.close_conn) w r))
      λ _ v s.
        Post-bind (λ _ t. P t) Q P (close conn v) (λ _. pthread_exit)
          (Post-Ends P _ (close-Keeps P (quiet P local) conn v s)) λ _ u t. t

-- What a profile that was found or made satisfies: it has room for one more session.
abbrev HasRoom : Pointer → World → Type 0
HasRoom a w =
    (i : ℕ) × (p : Profile) × (a ≡ some i)
    × (get_elem? w.heap i ≡ some p)
    × (is_num p.sessions_on 2 ≡ false)
    × Each IsCounted w

module _ ⦃json : Json⦄ where
  -- A new object at the end of the heap.
  abbrev Made : ℕ → Str → World → Type 0
  Made i id w = (get_elem? w.heap i ≡ some (new_profile id)) × Each IsCounted w

  Made-IsLocal : (i : ℕ) (id : Str) → IsLocal (Made i id)
  Made-IsLocal i id w v heap profiles r = rw heap r

  create-Post :
      (id : Str) (conn : Session) (w : World)
      → Each IsCounted w
      → Post HasRoom (Each IsCounted) (admit id conn none w)
  unfolding admit allocate insert_profile
  create-Post id conn w r =
      Post-bind (λ _ s. Made (length w.heap) id s) HasRoom (Each IsCounted) _
        (λ _. pure (some (length w.heap)))
        (Post-bind (λ _ s. Made (length w.heap) id s) (λ _ s. Made (length w.heap) id s)
          (Each IsCounted) (to_json_file registered) _
          (Post-mono (λ _ s. Made (length w.heap) id s) (Made (length w.heap) id) (Each IsCounted)
            (to_json_file registered) (λ s h. h.1)
            (Post-Ends (Made (length w.heap) id) _ (
              to_json_file-Keeps (Made (length w.heap) id)
                (quiet (Made (length w.heap) id) (Made-IsLocal (length w.heap) id)) registered
                (
                  get_elem?-length w.heap (new_profile id),
                  append-Each IsCounted w.heap (new_profile id) (new_profile-IsCounted id) r,
                ))))
          λ _ v s. s)
        λ _ v s. (length w.heap, new_profile id, refl, s.0, unfold new_profile in refl, s.1)
    where
      registered : World
      registered = record w {
        heap = w.heap ++ new_profile id ∷ [];
        profiles =
            if is_key id w.profiles then w.profiles else insert id (length w.heap) w.profiles;
      }

  admit-Post :
      (id : Str) (conn : Session) (w : World)
      → Each IsCounted w
      → Post HasRoom (Each IsCounted) (admit id conn (find id w.profiles) w)
  admit-Post id conn w r = elim (Option-cases (find id w.profiles)) [
    | inl free ↦ rw free (create-Post id conn w r)
    | inr (i, found) ↦ rw found (
        unfold admit deref in
        elim (Option-cases (get_elem? w.heap i)) [
          | inl bad ↦ rw (bad, bind) tt
          | inr (p, at) ↦ rw at (elim (Bool-cases (is_num p.sessions_on 2)) [
            | inl full ↦
                rw full (refuse-Post HasRoom (Each IsCounted) (Each-IsLocal IsCounted) conn w r)
            | inr room ↦ rw room (i, p, refl, at, room, r)
          ])
        ])
  ]

  pub create_profile_if_not_exists-Counted :
      (id : Str) (conn : Session) → Keeps (Each IsCounted) (create_profile_if_not_exists id conn)
  unfolding create_profile_if_not_exists get_profile_by_id
  create_profile_if_not_exists-Counted id conn w r = Ends-Post (Each IsCounted) _ (
      Post-bind HasRoom (λ a s. Each IsCounted s) (Each IsCounted) _ _ (admit-Post id conn w r)
        λ a v (i, p, name, at, room, s). rw name (
          unfold update assign in
          rw at (
            set-Each IsCounted v.heap i p (inc_sessions_on conn p) at
              (inc_sessions_on-IsCounted conn p room (s i p at)) s)))
