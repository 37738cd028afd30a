-- ===== src/Server/ProfilesManager/Objects.antt =====
-- The registry through the methods of the objects: sessions, inboxes, messages and the file.
use twitter_like_client_serv.Base.{
  ℕ, ◌≡◌, Option, none, some, List, Str, get_elem?, set, arith, Option-cases, inl, inr,
}
use twitter_like_client_serv.Exec.{bind, Keeps}
use twitter_like_client_serv.Packet.{Packet}
use twitter_like_client_serv.Connection.{Net}
use twitter_like_client_serv.Server.Profile.{Profile, send_or_insert_inbox, fetch_inbox_content}
use twitter_like_client_serv.Server.Registry.{IsRegistry, set-IsRegistry}
use twitter_like_client_serv.Server.World.{Pointer, World, update, update_sending, assign}
use twitter_like_client_serv.Server.ProfilesManager.Local.{IsLocal}

abbrev pub IsRegistered : World → Type 0
IsRegistered w = IsRegistry w.heap w.profiles

-- A change of an object that the registry does not see.
abbrev pub IsInner : (Profile → Profile) → Type 0
IsInner f = (p : Profile) → ((f p).profile_id ≡ p.profile_id) × ((f p).followers ≡ p.followers)

set_inner :
    (heap : List Profile) (profiles : List (Str × ℕ)) (i : ℕ) (p q : Profile)
    → get_elem? heap i ≡ some p
    → q.profile_id ≡ p.profile_id
    → q.followers ≡ p.followers
    → IsRegistry heap profiles
    → IsRegistry (set heap i q) profiles
set_inner heap profiles i p q e name fs r =
    set-IsRegistry heap profiles i p q e name (rw fs (r.followed i p e)) r

pub update-Keeps :
    (i : Pointer) (f : Profile → Profile) → IsInner f → Keeps IsRegistered (update i f)
unfolding update assign
update-Keeps none f inner w r = tt
update-Keeps (some i) f inner w r = elim (Option-cases (get_elem? w.heap i)) [
  | inl e ↦ rw (e, bind) tt
  | inr (p, e) ↦ rw e (set_inner w.heap w.profiles i p (f p) e (inner p).0 (inner p).1 r)
]

-- A method that sends may change the inbox and the sessions, not the name and not the followers.
abbrev pub IsInnerSending : (Profile → Net → Option (Profile × Net)) → Type 0
IsInnerSending f =
    (p q : Profile) (net net' : Net)
    → f p net ≡ some (q, net')
    → (q.profile_id ≡ p.profile_id) × (q.followers ≡ p.followers)

pub update_sending-Keeps :
    (i : Pointer) (f : Profile → Net → Option (Profile × Net))
    → IsInnerSending f
    → Keeps IsRegistered (update_sending i f)
unfolding update_sending assign
update_sending-Keeps none f inner w r = tt
update_sending-Keeps (some i) f inner w r = elim (Option-cases (get_elem? w.heap i)) [
  | inl e ↦ rw (e, bind) tt
  | inr (p, e) ↦ elim (Option-cases (f p w.net)) [
    | inl d ↦ rw (e, bind) (rw (d, bind) tt)
    | inr ((q, net'), d) ↦
        rw (e, bind)
          (rw (d, bind)
            (set_inner w.heap w.profiles i p q e (inner p q w.net net' d).0
              (inner p q w.net net' d).1 r))
  ]
]

pub send_or_insert_inbox-IsInner : (packet : Packet) → IsInnerSending (send_or_insert_inbox packet)
unfolding send_or_insert_inbox
send_or_insert_inbox-IsInner packet p q net net' e = ground arith

pub fetch_inbox_content-IsInner : IsInnerSending fetch_inbox_content
unfolding fetch_inbox_content
fetch_inbox_content-IsInner p q net net' e = ground arith

pub IsRegistered-IsLocal : IsLocal IsRegistered
IsRegistered-IsLocal w v heap profiles r = rw (heap, profiles) r
