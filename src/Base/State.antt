-- ===== src/Base/State.antt =====
-- Fallible code over a state `S` that it changes also where it fails.
use mathlib.Core.Bool.{Bool, true, false}
use scutedb.Base.Outcome.{Result, ok, err}

abbrev pub M : Type 0 → Type 0 → Type 0 → Type 0
M E S A = S → Result E A × S

-- What follows a step, by the step's outcome.
abbrev pub bind : {E S A B : Type 0} → Result E A × S → (A → S → Result E B × S) → Result E B × S
bind (ok a, s) k = k a s
bind (err e, s) k = (err e, s)

infixl 5 ◌>>=◌ ◌>>◌
abbrev pub ◌>>=◌ : {E S A B : Type 0} → M E S A → (A → M E S B) → M E S B
◌>>=◌ m k s = bind (m s) k

abbrev pub ◌>>◌ : {E S A B : Type 0} → M E S A → M E S B → M E S B
◌>>◌ m k s = bind (m s) (λ _. k)

abbrev pub pure : {E S A : Type 0} → A → M E S A
pure a s = (ok a, s)

abbrev pub fail : {E S A : Type 0} → E → M E S A
fail e s = (err e, s)

-- `if bad { return err }`
abbrev pub refuse : {E S : Type 0} → Bool → E → M E S (Unit {0})
refuse true e s = (err e, s)
refuse false e s = (ok tt, s)

-- A step's errors under another error type.
abbrev pub wrap : {E E' S A : Type 0} → (E → E') → Result E A × S → Result E' A × S
wrap f (ok a, s) = (ok a, s)
wrap f (err e, s) = (err (f e), s)

abbrev pub lift : {E E' S A : Type 0} → (E → E') → M E S A → M E' S A
lift f m s = wrap f (m s)

-- The result satisfies `P` if there is one.
abbrev pub IfOk : {E S A : Type 0} → (A → Type 0) → Result E A × S → Type 0
IfOk P (ok a, s) = P a
IfOk P (err e, s) = Unit {0}

pub bind-IfOk :
    {E S A B : Type 0} (Q : A → Type 0) (P : B → Type 0) (w : Result E A × S) (k : A → M E S B)
    → IfOk Q w
    → ((a : A) (s : S) → Q a → IfOk P (k a s))
    → IfOk P (bind w k)
bind-IfOk Q P (ok a, s) k q h = h a s q
bind-IfOk Q P (err e, s) k q h = tt

pub any-IfOk : {E S A : Type 0} (P : A → Type 0) (w : Result E A × S) → ((a : A) → P a) → IfOk P w
any-IfOk P (ok a, s) h = h a
any-IfOk P (err e, s) h = tt

-- The error satisfies `Q` if there is one.
abbrev pub IfErr : {E S A : Type 0} → (E → Type 0) → Result E A × S → Type 0
IfErr Q (ok a, s) = Unit {0}
IfErr Q (err e, s) = Q e

pub bind-IfErr :
    {E S A B : Type 0} (P : A → Type 0) (Q : E → Type 0) (w : Result E A × S) (k : A → M E S B)
    → IfOk P w
    → IfErr Q w
    → ((a : A) (s : S) → P a → IfErr Q (k a s))
    → IfErr Q (bind w k)
bind-IfErr P Q (ok a, s) k p q h = h a s p
bind-IfErr P Q (err e, s) k p q h = q

pub wrap-IfErr :
    {E E' S A : Type 0} (Q : E' → Type 0) (g : E → E') (w : Result E A × S)
    → ((e : E) → Q (g e))
    → IfErr Q (wrap g w)
wrap-IfErr Q g (ok a, s) h = tt
wrap-IfErr Q g (err e, s) h = h e

-- The result and the state that comes with it satisfy `P` if there is a result.
abbrev pub IfOkAt : {E S A : Type 0} → (A → S → Type 0) → Result E A × S → Type 0
IfOkAt P (ok a, s) = P a s
IfOkAt P (err e, s) = Unit {0}

pub bind-IfOkAt :
    {E S A B : Type 0} (Q : A → S → Type 0) (P : B → S → Type 0) (w : Result E A × S)
    (k : A → M E S B)
    → IfOkAt Q w
    → ((a : A) (s : S) → Q a s → IfOkAt P (k a s))
    → IfOkAt P (bind w k)
bind-IfOkAt Q P (ok a, s) k q h = h a s q
bind-IfOkAt Q P (err e, s) k q h = tt

pub wrap-IfOkAt :
    {E E' S A : Type 0} (P : A → S → Type 0) (g : E → E') (w : Result E A × S)
    → IfOkAt P w
    → IfOkAt P (wrap g w)
wrap-IfOkAt P g (ok a, s) h = h
wrap-IfOkAt P g (err e, s) h = tt

-- What is known of the result alone, beside what is known of both.
pub both-IfOkAt :
    {E S A : Type 0} (Q : A → Type 0) (P : A → S → Type 0) (w : Result E A × S)
    → IfOk Q w
    → IfOkAt P w
    → IfOkAt (λ a s. Q a × P a s) w
both-IfOkAt Q P (ok a, s) q p = (q, p)
both-IfOkAt Q P (err e, s) q p = tt

-- What is known of the state however the step ends, beside the rest.
pub also-IfOkAt :
    {E S A : Type 0} (R : S → Type 0) (P : A → S → Type 0) (w : Result E A × S)
    → R w.1
    → IfOkAt P w
    → IfOkAt (λ a s. R s × P a s) w
also-IfOkAt R P (ok a, s) r p = (r, p)
also-IfOkAt R P (err e, s) r p = tt

-- What is known of every state that the step may leave.
pub state-IfOkAt :
    {E S A : Type 0} (P : A → S → Type 0) (w : Result E A × S) → ((a : A) → P a w.1) → IfOkAt P w
state-IfOkAt P (ok a, s) h = h a
state-IfOkAt P (err e, s) h = tt

-- Two things that are known of the result and the state.
pub zip-IfOkAt :
    {E S A : Type 0} (P Q : A → S → Type 0) (w : Result E A × S)
    → IfOkAt P w
    → IfOkAt Q w
    → IfOkAt (λ a s. P a s × Q a s) w
zip-IfOkAt P Q (ok a, s) p q = (p, q)
zip-IfOkAt P Q (err e, s) p q = tt
