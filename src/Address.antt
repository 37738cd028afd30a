-- ===== src/Address.antt =====
-- Addresses as the programs write them, "addr:port": `find`, `substr`, `stoi` and the port number.
pub mod Split
use twitter_like_client_serv.Base.{
  ℕ, zero, suc, ◌+◌, ◌-◌, ◌*◌, ◌%◌, ◌^◌, Bool, true, false, ◌&&◌, ◌||◌, Option, none, some, List,
  [], ◌∷◌, ◌++◌, Str, leb, ltb, ◌==◌, ◌>>=◌, if◌then◌else◌, codes,
}
use twitter_like_client_serv.Base.Int.{ℤ, pos, negsuc}

-- `find(':')`: the text before the colon and the text behind it.
unfoldable pub cut_at_colon : Str → Option (Str × Str)
cut_at_colon [] = none
cut_at_colon (c ∷ s) =
    if c == b':' then some ([], s) else cut_at_colon s >>= (λ (a, b). some (c ∷ a, b))

-- `substr(0, pos)` and `substr(pos + 1)`. With no colon `pos` is `npos`, and `npos + 1` is 0: both
-- are the whole text.
unfoldable pub split_address : Str → Str × Str
split_address s = elim (cut_at_colon s) [ none ↦ (s, s) | some (a, b) ↦ (a, b) ]

unfoldable pub is_space : ℕ → Bool
is_space c = c == 32 || (leb 9 c && leb c 13)

unfoldable pub is_digit : ℕ → Bool
is_digit c = leb b'0' c && leb c b'9'

unfoldable pub skip_spaces : Str → Str
skip_spaces [] = []
skip_spaces (c ∷ s) = if is_space c then skip_spaces s else c ∷ s

-- The value of the digits at the front, on top of what was read before.
unfoldable pub read_digits : ℕ → Str → ℕ
read_digits n [] = n
read_digits n (c ∷ s) =
    let more = read_digits (10 * n + (c - b'0')) s in if is_digit c then more else n

-- `stoi` behind the sign: no digit is `invalid_argument`, and too large a value is `out_of_range`.
-- Both are `none`.
unfoldable pub signed : Bool → Str → Option ℤ
signed minus [] = none
signed minus (c ∷ s) =
    if is_digit c
    then (if minus then negative (read_digits 0 (c ∷ s)) else positive (read_digits 0 (c ∷ s)))
    else none
  where
    positive : ℕ → Option ℤ
    positive n = if ltb n (2 ^ 31) then some (pos n) else none

    negative : ℕ → Option ℤ
    negative n =
        if n == 0 then some (pos 0) else if leb n (2 ^ 31) then some (negsuc (n - 1)) else none

unfoldable pub unsigned : Str → Option ℤ
unsigned [] = none
unsigned (c ∷ s) =
    if c == b'-' then signed true s else if c == b'+' then signed false s else signed false (c ∷ s)

unfoldable pub stoi : Str → Option ℤ
stoi s = unsigned (skip_spaces s)

-- The conversion to `uint16_t`.
unfoldable pub to_port : ℤ → ℕ
to_port (pos n) = n % 2 ^ 16
to_port (negsuc n) = (2 ^ 16 - 1) - n % 2 ^ 16

-- What the programs connect to for a text "addr:port".
unfoldable pub parse_address : Str → Option (Str × ℕ)
parse_address s = stoi (split_address s).1 >>= (λ port. some ((split_address s).0, to_port port))
