-- ===== src/Client/Input.antt =====
-- What the thread `toServer` sends for the lines of a user.
use twitter_like_client_serv.Base.{
  ℕ, zero, suc, ◌+◌, ◌<◌, ◌≡◌, refl, ◌∙◌, true, false, some, List, [], ◌∷◌, ◌++◌, Str, ◌==◌,
  if◌then◌else◌, length, map, arith, append_assoc,
}
use twitter_like_client_serv.Exec.{returns, exits, waits, bind}
use twitter_like_client_serv.Packet.{
  Packet, CmdType, to_bytes, of_cmd, of_cmd_payload, of_cmd_payload_sender,
}
use twitter_like_client_serv.Command.{packet, refused, read_command}
use twitter_like_client_serv.Client.{
  Client, is_open, send_server, send_presentation, close_server, end_of_input, next_line,
  input_step, input_loop, to_server,
}

-- A line that is refused is never left while the connection is open: however many rounds the loop
-- has run, it still runs, on the same line, and the client is as it was.
pub input_loop-refused :
    (fuel : ℕ) (line : Str) (rest : List Str) (c : Client)
    → read_command line ≡ refused
    → is_open c ≡ true
    → input_loop fuel line rest c ≡ waits c
unfolding input_loop input_step
input_loop-refused zero line rest c h open_con = refl
input_loop-refused (suc fuel) line rest c h open_con =
    rw open_con (rw h (input_loop-refused fuel line rest c h open_con))

pub send_server-sent :
    (p : Packet) (b : List ℕ) (i : ℕ) (c : Client)
    → c.con ≡ some i
    → to_bytes p ≡ some b
    → send_server p c ≡ returns tt (record c { to_server = c.to_server ++ (i, b) ∷ [] })
unfolding send_server
send_server-sent p b i c at e = ground (arith, at, e)

-- The messages of a list of lines.
abbrev pub Sends : Client → List Str → List (List ℕ) → Type 0
Sends c [] [] = Unit {0}
Sends c [] (b ∷ bs) = ⊥
Sends c (line ∷ lines) [] = ⊥
Sends c (line ∷ lines) (b ∷ bs) =
    ((cmd : CmdType) × (text : Str) × (read_command line ≡ packet cmd text)
      × (to_bytes (of_cmd_payload_sender c.now cmd text c.profile) ≡ some b))
    × Sends c lines bs

-- The client at the end: closed, with the messages sent.
abbrev pub finished : Client → ℕ → List (ℕ × List ℕ) → Client
finished c i sent = record c {
  to_server = c.to_server ++ sent;
  closed = λ j. if j == i then true else c.closed j;
}

end_of_input-sent :
    (b : List ℕ) (i : ℕ) (c : Client)
    → c.con ≡ some i
    → to_bytes (of_cmd c.now CmdType.close_conn) ≡ some b
    → end_of_input c ≡ exits (finished c i ((i, b) ∷ []))
unfolding end_of_input close_server
end_of_input-sent b i c at e =
    rw (send_server-sent (of_cmd c.now CmdType.close_conn) b i c at e, bind) (ground (arith, at))

pub open_here : (i : ℕ) (c : Client) → c.con ≡ some i → c.closed i ≡ false → is_open c ≡ true
unfolding is_open
open_here i c at up = ground (arith, at, up)

lines-sent :
    (fuel : ℕ) (lines : List Str) (bs : List (List ℕ)) (last : List ℕ) (i : ℕ) (c : Client)
    → length lines < fuel + 1
    → c.con ≡ some i
    → c.closed i ≡ false
    → Sends c lines bs
    → to_bytes (of_cmd c.now CmdType.close_conn) ≡ some last
    → next_line (input_loop fuel) lines c
      ≡ exits (finished c i (map (λ b. (i, b)) bs ++ (i, last) ∷ []))
unfolding next_line input_loop input_step
lines-sent fuel [] [] last i c h at up s e = end_of_input-sent last i c at e
lines-sent fuel [] (b ∷ bs) last i c h at up s e = absurd s
lines-sent fuel (line ∷ lines) [] last i c h at up s e = absurd s
lines-sent zero (line ∷ lines) (b ∷ bs) last i c h at up s e = absurd (omega arith)
lines-sent (suc fuel) (line ∷ lines) (b ∷ bs) last i c h at up ((cmd, text, r, enc), s) e =
    rw (open_here i c at up) (
      rw r (
        rw (send_server-sent (of_cmd_payload_sender c.now cmd text c.profile) b i c at enc, bind)
          (lines-sent fuel lines bs last i (record c { to_server = c.to_server ++ (i, b) ∷ [] })
              (omega arith) at up s e
            ∙ rw append_assoc)))

-- A session of the user: over an open connection, for lines that are all commands whose packets
-- fit, `toServer` sends PROFILE, one packet for each line, in their order, and at the end of the
-- input CLOSE_CONN; then it closes the connection and ends. As many rounds as there are lines are
-- enough.
pub to_server-sent :
    (fuel : ℕ) (lines : List Str) (first : List ℕ) (bs : List (List ℕ)) (last : List ℕ) (i : ℕ)
    (c : Client)
    → length lines < fuel + 1
    → c.con ≡ some i
    → c.closed i ≡ false
    → to_bytes (of_cmd_payload c.now CmdType.profile c.profile) ≡ some first
    → Sends c lines bs
    → to_bytes (of_cmd c.now CmdType.close_conn) ≡ some last
    → to_server fuel lines c
      ≡ exits (finished c i ((i, first) ∷ (map (λ b. (i, b)) bs ++ (i, last) ∷ [])))
unfolding to_server send_presentation
to_server-sent fuel lines first bs last i c h at up enc s e =
    rw (send_server-sent (of_cmd_payload c.now CmdType.profile c.profile) first i c at enc, bind)
      (lines-sent fuel lines bs last i (record c { to_server = c.to_server ++ (i, first) ∷ [] }) h
          at up s e
        ∙ rw append_assoc)
