-- ===== src/Server/Document.antt =====
-- The document that `ProfilesManager::toJsonFile` builds.
use twitter_like_client_serv.Base.{ℕ, Option, some, List, [], ◌∷◌, Str, ◌>>=◌, get_elem?}
use twitter_like_client_serv.Server.Profile.{Profile}
use twitter_like_client_serv.Server.World.{Doc, null, object}

-- The inner loop: the names of the followers. `none` is a pointer to no object.
unfoldable pub names : List Profile → List ℕ → Option (List Str)
names heap [] = some []
names heap (i ∷ is) = do p ← get_elem? heap i; rest ← names heap is; some (p.profile_id ∷ rest)

-- The outer loop, in the order of the keys.
unfoldable pub entries : List Profile → List (Str × ℕ) → Option (List (Str × List Str))
entries heap [] = some []
entries heap ((id, i) ∷ m) = do
  p ← get_elem? heap i
  followers ← names heap p.followers
  rest ← entries heap m
  some ((id, followers) ∷ rest)

-- A `json` to which no member was given is null.
abbrev pub to_doc : List (Str × List Str) → Doc
to_doc [] = null
to_doc (e ∷ es) = object (e ∷ es)
