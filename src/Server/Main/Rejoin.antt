-- ===== src/Server/Main/Rejoin.antt =====
-- `receiveProfileCmd` and `fromClient` of server/main.cpp for a client that comes from another server: it
-- sends OK with its name.
use mathlib.Core.Logic.Or
use mathlib.Core.HLevel.{⊥_prop}
use mathlib.Core.List.{
  Mem, not-mem-nil, mem-cons_self, mem-append_left, mem-append_right, eq-or-mem_of_mem-cons,
}
use twitter_like_client_serv.Base.{
  ℕ, zero, suc, ◌+◌, ◌-◌, ◌<◌, ◌^◌, ◌≡◌, ◌≢◌, refl, sym, ap, ◌∙◌, subst, true, false, some, List,
  [], ◌∷◌, ◌++◌, Str, codes, get_elem?, set, length, length-append, append_assoc, arith,
  get_elem?-set_self, get_elem?-set_ne, get_elem?-lt, ◌>>=◌ as bind_option,
}
use twitter_like_client_serv.Base.Int.{is_positive}
use twitter_like_client_serv.Base.Map.{find}
use twitter_like_client_serv.Exec.{returns}
use twitter_like_client_serv.Bytes.{HasNoNul}
use twitter_like_client_serv.Packet.{Packet, CmdType, of_cmd_payload, of_cmd_payload_sender}
use twitter_like_client_serv.Packet.RoundTrip.{IsSendable}
use twitter_like_client_serv.Connection.{Net, Recv, bytes, given}
use twitter_like_client_serv.Connection.Delivery.{receive_packet-to_bytes, send_packet-sent}
use twitter_like_client_serv.Client.{accepts_profile}
use twitter_like_client_serv.Server.Profile.{
  Profile, update_sessions_on, fetch_loop, fetch_inbox_content,
}
use twitter_like_client_serv.Server.Profile.Delivery.{Encoded}
use twitter_like_client_serv.Server.World.{
  World, Json, deref, update, update_sending, assign, send_packet,
}
use twitter_like_client_serv.Server.Registry.{Absent, set-IsRegistry}
use twitter_like_client_serv.Server.ProfilesManager.Broadcast.{messages}
use twitter_like_client_serv.Server.ProfilesManager.Objects.{IsRegistered}
use twitter_like_client_serv.Post.Messages.{messages-Mem}
use twitter_like_client_serv.Server.Main.{
  client_loop, first_packet, receive_profile_cmd, greet, serve_client, from_client, process_packet,
}
use twitter_like_client_serv.Server.Main.Disconnect.{get_profile_by_id_free}
use twitter_like_client_serv.Server.Main.Send.{replicas, process_packet-Notified}

-- OK from a client of that name.
abbrev pub hello_again : ℕ → Str → Packet
hello_again now name = of_cmd_payload_sender now CmdType.ok [] name

-- What the server greets a client with.
abbrev pub welcome : World → Str → Packet
welcome v name = of_cmd_payload v.now CmdType.send (codes "Hello client! " ++ name)

-- The follower's object after the session has been added.
abbrev pub joined : Profile → ℕ → Profile
joined q conn = record q { sessions = q.sessions ++ some conn ∷ [] }

abbrev pub rejoined : World → ℕ → ℕ → Profile → List ℕ → World
rejoined v conn i q greeting = record v {
  heap = set v.heap i (joined q conn);
  net = record v.net { sent = v.net.sent ++ (conn, greeting) ∷ [] };
}

pub hello_again-IsSendable :
    (now : ℕ) (name : Str)
    → now < 2 ^ 64
    → accepts_profile name ≡ true
    → HasNoNul name
    → IsSendable (hello_again now name)
unfolding of_cmd_payload_sender accepts_profile
hello_again-IsSendable now name t ok text = record {
  fits = record { time = t; room = ground (arith, ok) };
  command = tt;
  payload_text = tt;
  sender_text = text;
}

pub welcome-IsSendable :
    (v : World) (name : Str)
    → v.now < 2 ^ 64
    → accepts_profile name ≡ true
    → HasNoNul name
    → IsSendable (welcome v name)
unfolding of_cmd_payload accepts_profile
welcome-IsSendable v name t ok text = record {
  fits = record {
    time = t;
    room = ground (arith, ok, length-append (codes "Hello client! ") name);
  };
  command = tt;
  payload_text = ground (arith, text);
  sender_text = tt;
}

-- With nothing in the inbox, `fetchInboxContent` changes nothing, whatever the sessions are.
fetch_inbox_content_empty :
    (p : Profile) (net : Net) → p.inbox ≡ [] → fetch_inbox_content p net ≡ some (p, net)
unfolding fetch_inbox_content
fetch_inbox_content_empty p net h = rw (loop p.inbox h, bind_option)
  where
    loop :
        (inbox : List Packet)
        → inbox ≡ []
        → fetch_loop (length inbox) inbox p.sessions net ≡ some (inbox, net)
    loop [] e = unfold fetch_loop in refl
    loop (x ∷ xs) e = absurd (ground (arith, e))

set-set : (xs : List Profile) (i : ℕ) (p q : Profile) → set (set xs i p) i q ≡ set xs i q
set-set [] i p q = refl
set-set (x ∷ xs) zero p q = refl
set-set (x ∷ xs) (suc i) p q = ap (◌∷◌ x) (set-set xs i p q)

Absent-not-Mem : (i : ℕ) (fs : List ℕ) → Absent i fs → ¬ (Mem i fs)
Absent-not-Mem i [] a m = not-mem-nil m
Absent-not-Mem i (f ∷ fs) a m =
    Or.elim ⊥_prop (eq-or-mem_of_mem-cons m) (λ e. a.0 (sym e)) (Absent-not-Mem i fs a.1)

module _ ⦃json : Json⦄ where
  greet-rejoined :
      (conn i : ℕ) (q : Profile) (b : List ℕ) (v : World)
      → get_elem? v.heap i ≡ some q
      → q.inbox ≡ []
      → Encoded (welcome v q.profile_id) b
      → greet conn (some i) (record v { heap = set v.heap i (joined q conn) })
        ≡ returns tt (rejoined v conn i q b)
  unfolding greet deref update_sending assign send_packet
  greet-rejoined conn i q b v at empty e =
      let now = get_elem?-set_self v.heap i (joined q conn) (get_elem?-lt v.heap i at) in
      let net' : Net = record v.net { sent = v.net.sent ++ (conn, b) ∷ [] } in
      rw now (
        rw (send_packet-sent conn (welcome v q.profile_id) v.net b e) (
          rw now (
            rw (fetch_inbox_content_empty (joined q conn) net' empty) (
              ap (λ h. returns tt (record v { heap = h; net = net' }))
                (set-set v.heap i (joined q conn) (joined q conn))))))

  -- The thread of the session, up to the loop.
  pub from_client-rejoined :
      (conn i now : ℕ) (q : Profile) (b greeting : List ℕ) (recvs : List Recv) (v : World)
      → IsSendable (hello_again now q.profile_id)
      → Encoded (hello_again now q.profile_id) b
      → Encoded (welcome v q.profile_id) greeting
      → v.num_writers ≡ 0
      → find q.profile_id v.profiles ≡ some i
      → get_elem? v.heap i ≡ some q
      → q.inbox ≡ []
      → from_client conn (bytes b ∷ recvs) v
        ≡ client_loop conn (some i) recvs (rejoined v conn i q greeting)
  unfolding from_client receive_profile_cmd first_packet update assign update_sessions_on
      serve_client of_cmd_payload_sender
  from_client-rejoined conn i now q b greeting recvs v sendable e d free found at empty =
      let again : v.num_readers + 1 - 1 ≡ v.num_readers = omega arith in
      rw (receive_packet-to_bytes (hello_again now q.profile_id) b sendable e, given)
        (rw (get_profile_by_id_free q.profile_id v free)
          (rw (found, again) (rw at (rw (greet-rejoined conn i q greeting v at empty d)))))

  -- SEND from an author whom the profile follows, after it has been joined.
  pub post-rejoined :
      (conn i j s : ℕ) (q author : Profile) (greeting : List ℕ) (p : Packet) (b : List ℕ)
      (v : World)
      → IsRegistered v
      → v.num_readers ≡ 0
      → v.num_writers ≡ 0
      → get_elem? v.heap i ≡ some q
      → is_positive q.sessions_on ≡ true
      → get_elem? v.heap j ≡ some author
      → Mem i author.followers
      → p.cmd ≡ CmdType.send
      → Encoded p b
      → (w : World) × (ms : List (ℕ × List ℕ)) × (process_packet
            (some s)
            (some j)
            p
            (rejoined v conn i q greeting)
          ≡ returns false w)
        × (w.net.sent ≡ (rejoined v conn i q greeting).net.sent ++ ms)
        × Mem (conn, b) ms
  post-rejoined conn i j s q author greeting p b v r nr nw at counted there follows send e =
      let u = rejoined v conn i q greeting in
      let other : i ≢ j = λ same.
        Absent-not-Mem j author.followers (r.followed j author there).not_self
          (subst (λ k. Mem k author.followers) same follows) in
      let author_at : get_elem? u.heap j ≡ some author =
        get_elem?-set_ne v.heap i j (joined q conn) other ∙ there in
      let follower_at : get_elem? u.heap i ≡ some (joined q conn) =
        get_elem?-set_self v.heap i (joined q conn) (get_elem?-lt v.heap i at) in
      let registered =
        set-IsRegistry v.heap v.profiles i q (joined q conn) at refl (r.followed i q at) r in
      let (heap', run, all) =
        process_packet-Notified (some s) j author p b u registered nr nw author_at send e in
      let ms = messages b u.heap author.followers in
      (
        record u {
          heap = heap';
          net = record u.net { sent = (u.net.sent ++ ms) ++ replicas b u.list_backups };
        },
        ms ++ replicas b u.list_backups,
        run,
        append_assoc u.net.sent ms (replicas b u.list_backups),
        mem-append_left (replicas b u.list_backups) (
            messages-Mem b u.heap author.followers i (joined q conn) conn follows follower_at
              counted (mem-append_right q.sessions mem-cons_self)),
      )
