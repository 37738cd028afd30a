-- ===== src/Post/Messages.antt =====
-- `sendToFollowersOf` of server/ProfilesManager.cpp: the messages to the sessions of one follower.
use mathlib.Core.Logic.Or
use mathlib.Core.List.{
  Mem, not-mem-nil, Mem-prop, mem-cons_self, mem-cons_of_mem, eq-or-mem_of_mem-cons,
  mem-append_left, mem-append_right,
}
use twitter_like_client_serv.Base.{
  ℕ, ◌≡◌, sym, ap, ◌∙◌, subst, true, none, some, List, [], ◌∷◌, get_elem?, arith, Option-cases, inl,
  inr, ◌⊎◌,
}
use twitter_like_client_serv.Base.Int.{is_positive}
use twitter_like_client_serv.Server.Profile.{Profile, Session}
use twitter_like_client_serv.Server.Profile.Delivery.{copies}
use twitter_like_client_serv.Server.ProfilesManager.Broadcast.{messages, messages_to, messages-cons}

copies-Mem :
    (b : List ℕ) (ss : List Session) (conn : ℕ) → Mem (some conn) ss → Mem (conn, b) (copies b ss)
copies-Mem b [] conn h = absurd (not-mem-nil h)
copies-Mem b (none ∷ ss) conn h =
    Or.elim Mem-prop (eq-or-mem_of_mem-cons h) (λ e. absurd (ground (arith, e)))
      (λ m. copies-Mem b ss conn m)
copies-Mem b (some d ∷ ss) conn h =
    Or.elim Mem-prop (eq-or-mem_of_mem-cons h)
      (λ e.
        subst (λ c. Mem (conn, b) ((c, b) ∷ copies b ss)) {x = conn} (ground (arith, e))
          mem-cons_self)
      (λ m. mem-cons_of_mem (d, b) (copies-Mem b ss conn m))

-- The message is among those to a follower's session.
pub messages-Mem :
    (b : List ℕ) (heap : List Profile) (fs : List ℕ) (f : ℕ) (q : Profile) (conn : ℕ)
    → Mem f fs
    → get_elem? heap f ≡ some q
    → is_positive q.sessions_on ≡ true
    → Mem (some conn) q.sessions
    → Mem (conn, b) (messages b heap fs)
unfolding messages messages_to
messages-Mem b heap [] f q conn h at on s = absurd (not-mem-nil h)
messages-Mem b heap (g ∷ fs) f q conn h at on s =
    Or.elim Mem-prop (eq-or-mem_of_mem-cons h)
      (λ e.
        subst (Mem (conn, b)) (sym (messages-cons b heap g fs q (ap (get_elem? heap) (sym e) ∙ at)))
          (mem-append_left (messages b heap fs) (rw on (copies-Mem b q.sessions conn s))))
      (λ m. behind (Option-cases (get_elem? heap g)) (messages-Mem b heap fs f q conn m at on s))
  where
    behind :
        (get_elem? heap g ≡ none) ⊎ ((p : Profile) × (get_elem? heap g ≡ some p))
        → Mem (conn, b) (messages b heap fs)
        → Mem (conn, b) (messages b heap (g ∷ fs))
    behind (inl e) m = rw (e, messages) m
    behind (inr (p, e)) m =
        subst (Mem (conn, b)) (sym (messages-cons b heap g fs p e))
          (mem-append_right (messages_to b p) m)
