-- ===== src/Command.antt =====
-- client/main.cpp: what `toServer` makes of a line of the user.
use twitter_like_client_serv.Base.{
  ℕ, suc, Bool, true, false, ◌&&◌, Option, none, some, [], ◌∷◌, Str, if◌then◌else◌, ◌==◌, ltb, leb,
  length, drop, codes,
}
use twitter_like_client_serv.Packet.{CmdType}

abbrev pub max_msg_len : ℕ
max_msg_len = 128

-- `line.rfind(word)`: where the last copy of the word begins.
unfoldable pub starts_with : Str → Str → Bool
starts_with [] s = true
starts_with (p ∷ ps) [] = false
starts_with (p ∷ ps) (c ∷ s) = p == c && starts_with ps s

unfoldable pub rfind : Str → Str → Option ℕ
rfind word [] = if starts_with word [] then some 0 else none
rfind word (c ∷ s) = elim (rfind word s) [
  | some i ↦ some (suc i)
  | none ↦ if starts_with word (c ∷ s) then some 0 else none
]

unfoldable pub begins : Option ℕ → Bool
begins none = false
begins (some i) = i == 0

-- `line.substr(pos)`, which throws if the line is shorter.
unfoldable pub substr : ℕ → Str → Option Str
substr n s = if leb n (length s) then some (drop n s) else none

-- What `toServer` makes of a line: a packet, a line that it refuses, or an exception.
pub data Command : Type 0 where
  packet : CmdType → Str → Command
  refused : Command
  out_of_range : Command

unfoldable pub follow_command : Option Str → Command
follow_command none = out_of_range
follow_command (some name) = packet CmdType.follow name

unfoldable pub send_command : Option Str → Command
send_command none = out_of_range
send_command (some message) =
    if ltb max_msg_len (length message) then refused else packet CmdType.send message

unfoldable pub read_command : Str → Command
read_command line =
    if begins (rfind (codes "FOLLOW") line)
    then follow_command (substr 7 line)
    else if begins (rfind (codes "SEND") line)
    then send_command (substr 5 line)
    else refused
