-- ===== src/Address/Split.antt =====
-- The two parts of an address are read back.
use twitter_like_client_serv.Base.{
  ◌≡◌, ◌≢◌, refl, none, some, [], ◌∷◌, ◌++◌, Str, All, arith, codes,
}
use twitter_like_client_serv.Address.{
  cut_at_colon, split_address, parse_address, stoi, skip_spaces, is_space, unsigned, signed,
  is_digit, read_digits, to_port,
}

abbrev pub HasNoColon : Str → Type 0
HasNoColon s = All (λ c. c ≢ b':') s

cut_at_colon-append :
    (addr port : Str) → HasNoColon addr → cut_at_colon (addr ++ b':' ∷ port) ≡ some (addr, port)
unfolding cut_at_colon
cut_at_colon-append [] port h = refl
cut_at_colon-append (c ∷ addr) port h = ground (arith, cut_at_colon-append addr port h.1)

cut_at_colon-none : (s : Str) → HasNoColon s → cut_at_colon s ≡ none
unfolding cut_at_colon
cut_at_colon-none [] h = refl
cut_at_colon-none (c ∷ s) h = ground (arith, cut_at_colon-none s h.1)

-- "addr:port" is split into `addr` and `port` if `addr` has no colon; the port may have one.
pub split_address-append :
    (addr port : Str) → HasNoColon addr → split_address (addr ++ b':' ∷ port) ≡ (addr, port)
unfolding split_address
split_address-append addr port h = rw (cut_at_colon-append addr port h, split_address)

-- Without a colon, both parts are the whole text.
pub split_address_whole : (s : Str) → HasNoColon s → split_address s ≡ (s, s)
unfolding split_address
split_address_whole s h = rw (cut_at_colon-none s h, split_address)

local_port : parse_address (codes "127.0.0.1:4242") ≡ some (codes "127.0.0.1", 4242)
unfolding parse_address split_address cut_at_colon stoi skip_spaces is_space unsigned signed
    is_digit read_digits to_port
local_port = refl
