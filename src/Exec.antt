-- ===== src/Exec.antt =====
-- How a call ends: with a value, or with the thread ended (`pthread_exit`, `exit`), waiting, on an
-- exception, or in undefined behaviour. `Exec S A` is code that works on a state `S`.
use twitter_like_client_serv.Base.{Option, none, some}

pub data Outcome (S A : Type 0) : Type 0 where
  returns : A → S → Outcome S A
  exits : S → Outcome S A
  waits : S → Outcome S A
  throws : S → Outcome S A
  fault : Outcome S A

abbrev pub Exec : Type 0 → Type 0 → Type 0
Exec S A = S → Outcome S A

abbrev pub pure : {S A : Type 0} → A → Exec S A
pure a s = returns a s

abbrev pub bind : {S A B : Type 0} → Outcome S A → (A → Exec S B) → Outcome S B
bind (returns a s) f = f a s
bind (exits s) f = exits s
bind (waits s) f = waits s
bind (throws s) f = throws s
bind fault f = fault

infixl 5 ◌>>=◌ ◌>>◌
abbrev pub ◌>>=◌ : {S A B : Type 0} → Exec S A → (A → Exec S B) → Exec S B
◌>>=◌ m f s = bind (m s) f

abbrev pub ◌>>◌ : {S B : Type 0} → Exec S (Unit {0}) → Exec S B → Exec S B
◌>>◌ m k s = bind (m s) (λ _. k)

abbrev pub gets : {S A : Type 0} → (S → A) → Exec S A
gets f s = returns (f s) s

abbrev pub modify : {S : Type 0} → (S → S) → Exec S (Unit {0})
modify f s = returns tt (f s)

-- `pthread_exit(nullptr)`
abbrev pub pthread_exit : {S A : Type 0} → Exec S A
pthread_exit s = exits s

-- A value that undefined behaviour may keep from being there.
abbrev pub lift : {S A : Type 0} → Option A → Exec S A
lift none s = fault
lift (some a) s = returns a s

-- Code that ends in a state or in undefined behaviour: the new state.
abbrev pub settle : {S : Type 0} → Option S → Outcome S (Unit {0})
settle none = fault
settle (some s) = returns tt s

-- What holds of the state in which a call leaves the program, however it ends.
abbrev pub Ends : {S A : Type 0} → (S → Type 0) → Outcome S A → Type 0
Ends P (returns a s) = P s
Ends P (exits s) = P s
Ends P (waits s) = P s
Ends P (throws s) = P s
Ends P fault = Unit {0}

-- The calls that leave `P` true.
abbrev pub Keeps : {S A : Type 0} → (S → Type 0) → Exec S A → Type 0
Keeps {S} P m = (s : S) → P s → Ends P (m s)

pub Ends-bind :
    {S A B : Type 0} (P : S → Type 0) (o : Outcome S A) (f : A → Exec S B)
    → Ends P o
    → ((a : A) → Keeps P (f a))
    → Ends P (bind o f)
Ends-bind P (returns a s) f h k = k a s h
Ends-bind P (exits s) f h k = h
Ends-bind P (waits s) f h k = h
Ends-bind P (throws s) f h k = h
Ends-bind P fault f h k = tt

-- What holds of the value and the state if a call returns, and of the state if it ends otherwise.
abbrev pub Post : {S A : Type 0} → (A → S → Type 0) → (S → Type 0) → Outcome S A → Type 0
Post Q P (returns a s) = Q a s
Post Q P (exits s) = P s
Post Q P (waits s) = P s
Post Q P (throws s) = P s
Post Q P fault = Unit {0}

pub Post-bind :
    {S A B : Type 0} (Q : A → S → Type 0) (R : B → S → Type 0) (P : S → Type 0) (o : Outcome S A)
    (f : A → Exec S B)
    → Post Q P o
    → ((a : A) (s : S) → Q a s → Post R P (f a s))
    → Post R P (bind o f)
Post-bind Q R P (returns a s) f h k = k a s h
Post-bind Q R P (exits s) f h k = h
Post-bind Q R P (waits s) f h k = h
Post-bind Q R P (throws s) f h k = h
Post-bind Q R P fault f h k = tt

pub Ends-Post : {S A : Type 0} (P : S → Type 0) (o : Outcome S A) → Post (λ a s. P s) P o → Ends P o
Ends-Post P (returns a s) h = h
Ends-Post P (exits s) h = h
Ends-Post P (waits s) h = h
Ends-Post P (throws s) h = h
Ends-Post P fault h = tt

pub Post-Ends : {S A : Type 0} (P : S → Type 0) (o : Outcome S A) → Ends P o → Post (λ a s. P s) P o
Post-Ends P (returns a s) h = h
Post-Ends P (exits s) h = h
Post-Ends P (waits s) h = h
Post-Ends P (throws s) h = h
Post-Ends P fault h = tt

pub Post-mono :
    {S A : Type 0} (Q : A → S → Type 0) (P P' : S → Type 0) (o : Outcome S A)
    → ((s : S) → P s → P' s)
    → Post Q P o
    → Post Q P' o
Post-mono Q P P' (returns a s) f h = h
Post-mono Q P P' (exits s) f h = f s h
Post-mono Q P P' (waits s) f h = f s h
Post-mono Q P P' (throws s) f h = f s h
Post-mono Q P P' fault f h = tt
