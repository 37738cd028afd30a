-- ===== src/Bytes.antt =====
-- Memory as `memcpy` and `memset` see it: a buffer is a list of bytes, and an access that leaves it
-- is `none` (undefined behaviour in C++). `size_t` and `time_t` are 8 bytes, lowest first.
use twitter_like_client_serv.Base.{
  ℕ, zero, suc, ◌+◌, ◌*◌, ◌/◌, ◌%◌, ◌^◌, ◌≤◌, ◌<◌, ◌≡◌, refl, ap, Option, none, some, List, [], ◌∷◌,
  ◌++◌, append_assoc, arith, leb, le→leb, ◌==◌, if◌then◌else◌, Str, length, take, drop,
  length-append, take-length, drop-length, drop-append,
}

-- `memcpy(dst, &buffer[pos], n)`: the bytes that are copied out.
unfoldable pub read : ℕ → ℕ → List ℕ → Option (List ℕ)
read pos n buffer = if leb (pos + n) (length buffer) then some (take n (drop pos buffer)) else none

-- `memcpy(&buffer[pos], src, |src|)`: the buffer afterwards.
unfoldable pub write : ℕ → List ℕ → List ℕ → Option (List ℕ)
write pos src buffer =
    if leb (pos + length src) (length buffer)
    then some (take pos buffer ++ (src ++ drop (pos + length src) buffer))
    else none

-- The `k` bytes of a number in memory, and the number in such bytes.
unfoldable pub to_memory : ℕ → ℕ → List ℕ
to_memory zero v = []
to_memory (suc k) v = (v % 256) ∷ to_memory k (v / 256)

unfoldable pub of_memory : List ℕ → ℕ
of_memory [] = 0
of_memory (b ∷ bs) = b + 256 * of_memory bs

-- `string(const char *)` and `c_str()`: the text ends at the first zero byte.
unfoldable pub until_nul : Str → Str
until_nul [] = []
until_nul (c ∷ s) = let rest = until_nul s in if c == 0 then [] else c ∷ rest

pub length-to_memory : (k v : ℕ) → length (to_memory k v) ≡ k
unfolding to_memory
length-to_memory zero v = refl
length-to_memory (suc k) v = ap suc (length-to_memory k (v / 256))

pub of_memory-to_memory : (k v : ℕ) → v < 256 ^ k → of_memory (to_memory k v) ≡ v
unfolding to_memory of_memory
of_memory-to_memory zero v h = omega arith
of_memory-to_memory (suc k) v h =
    let small : v / 256 < 256 ^ k = below (omega arith) in
    omega (arith, of_memory-to_memory k (v / 256) small)
  where
    below : v < 256 * 256 ^ k → v / 256 < 256 ^ k
    below q = omega arith

-- A text with no zero byte in it.
abbrev pub HasNoNul : Str → Type 0
HasNoNul [] = Unit {0}
HasNoNul (c ∷ s) = (0 < c) × HasNoNul s

pub until_nul_lem : (s : Str) → HasNoNul s → until_nul s ≡ s
unfolding until_nul
until_nul_lem [] h = refl
until_nul_lem (c ∷ s) h = ground (arith, until_nul_lem s h.1)

pub until_nul-until_nul : (s : Str) → until_nul (until_nul s) ≡ until_nul s
unfolding until_nul
until_nul-until_nul [] = refl
until_nul-until_nul (c ∷ s) = ground (arith, until_nul-until_nul s)

-- A write behind what is already written: the bytes follow it, and the rest of the buffer stays.
pub write-append :
    (front src back : List ℕ)
    → length src ≤ length back
    → write (length front) src (front ++ back) ≡ some ((front ++ src) ++ drop (length src) back)
unfolding write
write-append front src back h = rw (
  le→leb (length front + length src) (length (front ++ back))
      (omega (arith, length-append front back)),
  take-length front back,
  drop-append (length src) front back,
  append_assoc front src (drop (length src) back),
)

pub write_full :
    (front src back : List ℕ)
    → length back < length src
    → write (length front) src (front ++ back) ≡ none
unfolding write
write_full front src back h = ground (arith, length-append front back)

-- A read of a block that stands behind another.
pub read-append :
    (front mid back : List ℕ) → read (length front) (length mid) (front ++ (mid ++ back)) ≡ some mid
unfolding read
read-append front mid back = rw (
  le→leb (length front + length mid) (length (front ++ (mid ++ back)))
      (omega (arith, length-append front (mid ++ back), length-append mid back)),
  drop-length front (mid ++ back),
  take-length mid back,
)

pub take_all {ℓ} : {A : Type ℓ} (n : ℕ) (xs : List A) → length xs ≤ n → take n xs ≡ xs
take_all zero [] h = refl
take_all zero (x ∷ xs) h = elim h [ ]
take_all (suc n) [] h = refl
take_all (suc n) (x ∷ xs) h = ap (◌∷◌ x) (take_all n xs (omega arith))

pub drop_all {ℓ} : {A : Type ℓ} (n : ℕ) (xs : List A) → length xs ≤ n → drop n xs ≡ []
drop_all zero [] h = refl
drop_all zero (x ∷ xs) h = elim h [ ]
drop_all (suc n) [] h = refl
drop_all (suc n) (x ∷ xs) h = drop_all n xs (omega arith)

pub read_all : (n : ℕ) (b : List ℕ) → length b ≡ n → read 0 n b ≡ some b
unfolding read
read_all n b h = rw (le→leb (0 + n) (length b) (omega arith)) (ap some (take_all n b (omega arith)))
