-- ===== src/Server/Graph/Inner.antt =====
-- server/ProfilesManager.cpp over the graph of names: changes of the objects that touch neither names
-- nor followers.
use twitter_like_client_serv.Base.{
  ℕ, ◌≡◌, refl, ◌∙◌, ap, Option, none, some, List, ◌>>=◌ as bind_option, ◌==◌, Str, get_elem?, set,
  Option-cases, Bool-cases, inl, inr, ◌⊎◌, ==_iff,
}
use twitter_like_client_serv.Exec.{bind, Keeps}
use twitter_like_client_serv.Connection.{Net}
use twitter_like_client_serv.Server.Profile.{Profile}
use twitter_like_client_serv.Server.Document.{names}
use twitter_like_client_serv.Server.Registry.{get_elem?-set}
use twitter_like_client_serv.Server.World.{Pointer, World, update, update_sending, assign}
use twitter_like_client_serv.Server.ProfilesManager.Local.{IsLocal}
use twitter_like_client_serv.Server.ProfilesManager.Objects.{IsInner, IsInnerSending}
use twitter_like_client_serv.Server.Graph.{Graph, graph, followers_at, names-set}

-- The graph of the state is `g`.
abbrev pub HasGraph : Graph → World → Type 0
HasGraph g w = (id : Str) → graph w id ≡ g id

pub HasGraph-IsLocal : (g : Graph) → IsLocal (HasGraph g)
unfolding graph
HasGraph-IsLocal g w v heap profiles h id = rw (heap, profiles) (h id)

module _ (heap : List Profile) (i : ℕ) (p q : Profile) (at : get_elem? heap i ≡ some p)
    (name : q.profile_id ≡ p.profile_id) (followers : q.followers ≡ p.followers) where
  pub followers_at-set : (t : Option ℕ) → followers_at (set heap i q) t ≡ followers_at heap t
  unfolding followers_at
  followers_at-set none = refl
  followers_at-set (some j) = elim (Bool-cases (i == j)) [
    | inl here ↦
        let place = (==_iff i j).0 here in
        rw (get_elem?-set heap i j q p at) (
          rw here (
            rw (← place) (
              rw at
                (ap (names (set heap i q)) followers ∙ names-set heap i p q p.followers at name))))
    | inr there ↦
        rw (get_elem?-set heap i j q p at) (rw there (other (Option-cases (get_elem? heap j))))
  ]
    where
      other :
          (get_elem? heap j ≡ none) ⊎ ((o : Profile) × (get_elem? heap j ≡ some o))
          → bind_option (get_elem? heap j) (λ o. names (set heap i q) o.followers)
            ≡ bind_option (get_elem? heap j) (λ o. names heap o.followers)
      other (inl e) = rw e
      other (inr (o, e)) = rw e (names-set heap i p q o.followers at name)

pub update-HasGraph :
    (g : Graph) (i : Pointer) (f : Profile → Profile) → IsInner f → Keeps (HasGraph g) (update i f)
unfolding update assign graph
update-HasGraph g none f inner w h = tt
update-HasGraph g (some i) f inner w h = elim (Option-cases (get_elem? w.heap i)) [
  | inl e ↦ rw (e, bind) tt
  | inr (p, e) ↦ rw e (λ id. followers_at-set w.heap i p (f p) e (inner p).0 (inner p).1 _ ∙ h id)
]

pub update_sending-HasGraph :
    (g : Graph) (i : Pointer) (f : Profile → Net → Option (Profile × Net))
    → IsInnerSending f
    → Keeps (HasGraph g) (update_sending i f)
unfolding update_sending assign graph
update_sending-HasGraph g none f inner w h = tt
update_sending-HasGraph g (some i) f inner w h = elim (Option-cases (get_elem? w.heap i)) [
  | inl e ↦ rw (e, bind) tt
  | inr (p, e) ↦ elim (Option-cases (f p w.net)) [
    | inl d ↦ rw (e, bind) (rw (d, bind) tt)
    | inr ((q, net'), d) ↦
        rw (e, bind)
          (rw (d, bind)
            (λ id.
              followers_at-set w.heap i p q e (inner p q w.net net' d).0 (inner p q w.net net' d).1
                _
              ∙ h id))
  ]
]
