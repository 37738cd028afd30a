-- ===== src/Server/ServerList.antt =====
-- The list of the servers as the text of a BACKUP_PROPAGATION packet, and back (server/main.cpp).
use twitter_like_client_serv.Base.{
  ◌≡◌, ◌≢◌, refl, ap, ◌∙◌, List, [], ◌∷◌, ◌++◌, Str, if◌then◌else◌, ◌==◌, All, arith, append_assoc,
  append-nil,
}

-- `serverListToString`: a line for each address.
unfoldable pub server_list_to_string : List Str → Str
server_list_to_string [] = []
server_list_to_string (s ∷ ss) = s ++ (b'\n' ∷ server_list_to_string ss)

-- `while (std::getline(streamData, val))`, with what was read of the line so far. A last line without
-- its newline counts if something was read of it.
unfoldable pub get_lines : Str → Str → List Str
get_lines [] [] = []
get_lines (v ∷ val) [] = (v ∷ val) ∷ []
get_lines val (c ∷ s) =
    let next = get_lines [] s in
    let more = get_lines (val ++ c ∷ []) s in if c == b'\n' then val ∷ next else more

abbrev pub IsLine : Str → Type 0
IsLine = All (λ c. c ≢ b'\n')

get_lines-line :
    (val line rest : Str)
    → IsLine line
    → get_lines val (line ++ (b'\n' ∷ rest)) ≡ (val ++ line) ∷ get_lines [] rest
unfolding get_lines
get_lines-line [] [] rest h = refl
get_lines-line (v ∷ val) [] rest h = rw append-nil
get_lines-line [] (c ∷ line) rest h = ground (arith, get_lines-line (c ∷ []) line rest h.1)
get_lines-line (v ∷ val) (c ∷ line) rest h =
    ground
      (arith, get_lines-line ((v ∷ val) ++ c ∷ []) line rest h.1, append_assoc val (c ∷ []) line)

-- The text is read back as the list, if no address has a newline.
pub get_lines-server_list_to_string :
    (ss : List Str) → All IsLine ss → get_lines [] (server_list_to_string ss) ≡ ss
unfolding server_list_to_string
get_lines-server_list_to_string [] h = unfold get_lines in refl
get_lines-server_list_to_string (s ∷ ss) h =
    get_lines-line [] s (server_list_to_string ss) h.0
    ∙ ap (◌∷◌ s) (get_lines-server_list_to_string ss h.1)
