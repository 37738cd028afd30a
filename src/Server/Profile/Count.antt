-- ===== src/Server/Profile/Count.antt =====
-- What calls of the methods of a profile do to the count of its sessions.
use twitter_like_client_serv.Base.{
  ℕ, zero, suc, ◌+◌, ◌≡◌, refl, true, Option, none, some, List, [], ◌∷◌, ◌++◌, Str, length, arith,
  length-append, Bool-cases, inl, inr, >>=_cases, ap, sym, subst, ◌∙◌,
}
use twitter_like_client_serv.Base.Int.{ℤ, pos, negsuc, incr, decr, decr-incr}
use twitter_like_client_serv.Packet.{Packet}
use twitter_like_client_serv.Connection.{Net}
use twitter_like_client_serv.Server.Profile
use twitter_like_client_serv.Server.Profile.Methods.{Method, Answer, call, calls, run}
use twitter_like_client_serv.Server.Profile.{
  Profile, Session, has_session, erase_session, same_session, send_to_sessions, fetch_loop,
}

-- `n + k`
unfoldable pub plus : ℤ → ℕ → ℤ
plus n zero = n
plus n (suc k) = incr (plus n k)

plus-incr : (n : ℤ) (k : ℕ) → plus (incr n) k ≡ incr (plus n k)
unfolding plus
plus-incr n zero = refl
plus-incr n (suc k) = rw (plus-incr n k) refl

incr-decr : (n : ℤ) → incr (decr n) ≡ n
incr-decr (pos zero) = refl
incr-decr (pos (suc n)) = refl
incr-decr (negsuc n) = refl

plus-decr : (n : ℤ) (k : ℕ) → plus (decr n) k ≡ decr (plus n k)
unfolding plus
plus-decr n zero = refl
plus-decr n (suc k) = rw (plus-decr n k, incr-decr, decr-incr) refl

-- How many sessions were added without being counted: `k`, and those of the calls.
abbrev uncounted : Method → ℕ → ℕ
uncounted (Method.update_sessions_on conn) k = suc k
uncounted m k = k

abbrev pub reconnects : List Method → ℕ → ℕ
reconnects [] k = k
reconnects (m ∷ ms) k = reconnects ms (uncounted m k)

-- The list has so many sessions more than are counted.
abbrev pub Uncounted : ℕ → Profile → Type 0
Uncounted k p = plus p.sessions_on k ≡ pos (length p.sessions)

pub length-erase_session :
    (conn : Session) (ss : List Session)
    → has_session conn ss ≡ true
    → length (erase_session conn ss) + 1 ≡ length ss
unfolding has_session erase_session
length-erase_session conn [] h = absurd (cc)
length-erase_session conn (s ∷ ss) h = elim (Bool-cases (same_session s conn)) [
  | inl hit ↦ rw hit (omega arith)
  | inr miss ↦ rw miss (omega (arith, length-erase_session conn ss (ground arith)))
]

length-erase_suc :
    (conn : Session) (ss : List Session)
    → has_session conn ss ≡ true
    → suc (length (erase_session conn ss)) ≡ length ss
length-erase_suc conn ss h = omega (arith, length-erase_session conn ss h)

length-last : (ss : List Session) (conn : Session) → length (ss ++ conn ∷ []) ≡ suc (length ss)
length-last ss conn = omega (arith, length-append ss (conn ∷ []))

inc_sessions_on-Uncounted :
    (k : ℕ) (conn : Session) (p : Profile)
    → Uncounted k p
    → Uncounted k (Profile.inc_sessions_on conn p)
unfolding Profile.inc_sessions_on
inc_sessions_on-Uncounted k conn p h =
    plus-incr p.sessions_on k ∙ ap incr h ∙ ap pos (sym (length-last p.sessions conn))

dec_sessions_on-Uncounted :
    (k : ℕ) (conn : Session) (p : Profile)
    → Uncounted k p
    → Uncounted k (Profile.dec_sessions_on conn p)
unfolding Profile.dec_sessions_on
dec_sessions_on-Uncounted k conn p h = elim (Bool-cases (has_session conn p.sessions)) [
  | inl found ↦ rw found (
      plus-decr p.sessions_on k
      ∙ ap decr h
      ∙ ap (λ n. decr (pos n)) (sym (length-erase_suc conn p.sessions found)))
  | inr absent ↦ rw absent h
]

update_sessions_on-Uncounted :
    (k : ℕ) (conn : Session) (p : Profile)
    → Uncounted k p
    → Uncounted (suc k) (Profile.update_sessions_on conn p)
unfolding Profile.update_sessions_on plus
update_sessions_on-Uncounted k conn p h = ap incr h ∙ ap pos (sym (length-last p.sessions conn))

-- The two methods that send messages touch neither the list nor its count.
pub send_or_insert_inbox_kept :
    (packet : Packet) (p q : Profile) (net net' : Net)
    → Profile.send_or_insert_inbox packet p net ≡ some (q, net')
    → (q.sessions_on ≡ p.sessions_on) × (q.sessions ≡ p.sessions)
unfolding Profile.send_or_insert_inbox
send_or_insert_inbox_kept packet p q net net' e = ground arith

pub fetch_inbox_content_kept :
    (p q : Profile) (net net' : Net)
    → Profile.fetch_inbox_content p net ≡ some (q, net')
    → (q.sessions_on ≡ p.sessions_on) × (q.sessions ≡ p.sessions)
unfolding Profile.fetch_inbox_content
fetch_inbox_content_kept p q net net' e = ground arith

-- The count and the number of sessions that a call leaves.
abbrev shape : {A : Type 0} → Profile → Option (A × Profile × Net) → ℤ × ℕ
shape p none = (p.sessions_on, length p.sessions)
shape p (some (answer, q, net)) = (q.sessions_on, length q.sessions)

abbrev Gap : ℕ → ℤ × ℕ → Type 0
Gap k (counted, listed) = plus counted k ≡ pos listed

call-Uncounted :
    (k : ℕ) (m : Method) (p q : Profile) (net net' : Net) (answer : Answer)
    → call m p net ≡ some (answer, q, net')
    → Uncounted k p
    → Uncounted (uncounted m k) q
unfolding call
call-Uncounted k Method.get_profile_id p q net net' answer e h = subst (Gap k) (ap (shape p) e) h
call-Uncounted k Method.get_sessions_on p q net net' answer e h = subst (Gap k) (ap (shape p) e) h
call-Uncounted k Method.get_followers p q net net' answer e h = subst (Gap k) (ap (shape p) e) h
call-Uncounted k Method.get_sessions p q net net' answer e h = subst (Gap k) (ap (shape p) e) h
call-Uncounted k (Method.inc_sessions_on conn) p q net net' answer e h =
    subst (Gap k) (ap (shape p) e) (inc_sessions_on-Uncounted k conn p h)
call-Uncounted k (Method.dec_sessions_on conn) p q net net' answer e h =
    subst (Gap k) (ap (shape p) e) (dec_sessions_on-Uncounted k conn p h)
call-Uncounted k (Method.update_sessions_on conn) p q net net' answer e h =
    subst (Gap (suc k)) (ap (shape p) e) (update_sessions_on-Uncounted k conn p h)
call-Uncounted k (Method.send_or_insert_inbox packet) p q net net' answer e h =
    let ((r, sent), run, end) = >>=_cases (Profile.send_or_insert_inbox packet p net) _ _ e in
    let (counted, listed) = send_or_insert_inbox_kept packet p r net sent run in
    subst (Gap k) (ap (shape p) end) (rw (counted, listed) h)
call-Uncounted k Method.fetch_inbox_content p q net net' answer e h =
    let ((r, sent), run, end) = >>=_cases (Profile.fetch_inbox_content p net) _ _ e in
    let (counted, listed) = fetch_inbox_content_kept p r net sent run in
    subst (Gap k) (ap (shape p) end) (rw (counted, listed) h)

calls-Uncounted :
    (ms : List Method) (k : ℕ) (p q : Profile) (net net' : Net) (answers : List Answer)
    → calls ms p net ≡ some (answers, q, net')
    → Uncounted k p
    → Uncounted (reconnects ms k) q
unfolding calls
calls-Uncounted [] k p q net net' answers e h = subst (Gap k) (ap (shape p) e) h
calls-Uncounted (m ∷ ms) k p q net net' answers e h =
    let ((answer, r, sent), run, rest) = >>=_cases (call m p net) _ _ e in
    let ((said, t, done), runs, end) = >>=_cases (calls ms r sent) _ _ rest in
    subst (Gap (reconnects (m ∷ ms) k)) (ap (shape t) end) (
      calls-Uncounted ms (uncounted m k) r t sent done said runs
        (call-Uncounted k m p r net sent answer run h))

-- A new profile, after any calls of its methods that run into no undefined behaviour: it has as many
-- sessions as it counts and as were added by `updateSessionsOn`, which counts none.
pub run-count :
    (ms : List Method) (id : Str) (q : Profile) (net net' : Net) (answers : List Answer)
    → run id ms net ≡ some (answers, q, net')
    → plus q.sessions_on (reconnects ms 0) ≡ pos (length q.sessions)
unfolding run Profile.new_profile plus
run-count ms id q net net' answers e =
    calls-Uncounted ms 0 (Profile.new_profile id) q net net' answers e refl
