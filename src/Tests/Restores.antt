-- ===== src/Tests/Restores.antt =====
-- `state.json` written and read back, with a small library for its documents.
use twitter_like_client_serv.Base.{
  ℕ, zero, suc, ◌≡◌, refl, ap, Bool, true, Option, some, List, [], ◌∷◌, arith, Str,
}
use twitter_like_client_serv.Exec.{returns, ◌>>◌}
use twitter_like_client_serv.Server.Profile.{Profile}
use twitter_like_client_serv.Server.Registry.{set-IsRegistry}
use twitter_like_client_serv.Server.World.{World, Doc, null, object, Json}
use twitter_like_client_serv.Server.Graph.{graph}
use twitter_like_client_serv.Server.ProfilesManager.{create_manager, to_json_file, from_json_file}
use twitter_like_client_serv.Server.ProfilesManager.Objects.{IsRegistered}
use twitter_like_client_serv.Server.Graph.Restore.{to_json_file-from_json_file}
use twitter_like_client_serv.Server.Graph.Restore.Fill.{Entry}
use twitter_like_client_serv.Server.Graph.Restore.Entries.{IsPlain}
use twitter_like_client_serv.Tests.States.{alice, bobby, both, server, server-IsRegistry}

-- A text, each of its characters moved up by two. A mark stands before each follower and each key.
abbrev shift : Str → Str → Str
shift [] rest = rest
shift (c ∷ s) rest = suc (suc c) ∷ shift s rest

abbrev print_names : List Str → Str → Str
print_names [] rest = rest
print_names (n ∷ ns) rest = 0 ∷ shift n (print_names ns rest)

abbrev print_entries : List Entry → Str
print_entries [] = []
print_entries ((id, ns) ∷ es) = 1 ∷ shift id (print_names ns (print_entries es))

abbrev Parsed : Type 0
Parsed = Str × List Str × List Entry

-- The text is read from its end.
abbrev push : ℕ → Parsed → Parsed
push zero (s, ns, es) = ([], s ∷ ns, es)
push (suc zero) (s, ns, es) = ([], [], (s, ns) ∷ es)
push (suc (suc c)) (s, ns, es) = (c ∷ s, ns, es)

abbrev parse_all : Str → Parsed
parse_all [] = ([], [], [])
parse_all (c ∷ s) = push c (parse_all s)

abbrev dump_doc : Doc → Option Str
dump_doc null = some []
dump_doc (object es) = some (0 ∷ print_entries es)

abbrev parse_doc : Str → Option Doc
parse_doc [] = some null
parse_doc (c ∷ s) = some (object (parse_all s).2)

abbrev marking_json : Json
marking_json = record { dump = dump_doc; reached = λ d. []; parse = parse_doc }

parse_all-shift :
    (s rest : Str) (ns : List Str) (es : List Entry)
    → parse_all rest ≡ ([], ns, es)
    → parse_all (shift s rest) ≡ (s, ns, es)
parse_all-shift [] rest ns es e = e
parse_all-shift (c ∷ s) rest ns es e = ap (push (suc (suc c))) (parse_all-shift s rest ns es e)

parse_all-names :
    (ms : List Str) (rest : Str) (es : List Entry)
    → parse_all rest ≡ ([], [], es)
    → parse_all (print_names ms rest) ≡ ([], ms, es)
parse_all-names [] rest es e = e
parse_all-names (m ∷ ms) rest es e =
    ap (push 0) (parse_all-shift m (print_names ms rest) ms es (parse_all-names ms rest es e))

parse_all-entries : (es : List Entry) → parse_all (print_entries es) ≡ ([], [], es)
parse_all-entries [] = refl
parse_all-entries ((id, ns) ∷ es) = ap (push 1) (
    parse_all-shift id (print_names ns (print_entries es)) ns es
      (parse_all-names ns (print_entries es) es (parse_all-entries es)))

abbrev any_text : Str → Bool
any_text s = true

marking-prints :
    (d : Doc)
    → IsPlain any_text d
    → (text : Str) × (dump_doc d ≡ some text) × (parse_doc text ≡ some d)
marking-prints null h = ([], refl, refl)
marking-prints (object es) h =
    (0 ∷ print_entries es, refl, ap (λ (p : Parsed). some (object p.2)) (parse_all-entries es))

-- Bobby follows alice.
abbrev pub followed_alice : Profile
followed_alice = record alice { followers = 1 ∷ [] }

abbrev pub friends : World
friends = record server { heap = followed_alice ∷ bobby ∷ [] }

pub friends-IsRegistered : IsRegistered friends
friends-IsRegistered =
    set-IsRegistry (alice ∷ bobby ∷ []) both 0 alice followed_alice refl refl
      (record { valid = (omega arith, tt); distinct = (tt, tt); not_self = (omega arith, tt) })
      server-IsRegistry

abbrev ReadsBack : World → World → Type 0
ReadsBack w u =
    (text : Str) × (to_json_file ⦃json = marking_json⦄ w
      ≡ returns tt (record w { file = some text }))
    × (v : World) × ((create_manager >> from_json_file ⦃json = marking_json⦄)
          (record u { file = some text })
        ≡ returns tt v)
    × IsRegistered v
    × ((id : Str) → graph v id ≡ graph w id)

to_json_file-from_json_file_example : ReadsBack friends server
to_json_file-from_json_file_example =
    to_json_file-from_json_file ⦃json = marking_json⦄ any_text marking-prints friends server
      friends-IsRegistered (λ id i e. refl)
