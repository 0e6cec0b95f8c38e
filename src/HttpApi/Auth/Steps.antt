-- ===== src/HttpApi/Auth/Steps.antt =====
-- What a step of a handler establishes, and handlers that only read the tables.
use proxy_control_plane.Base.{
  ℕ, Text, Bool, true, false, Option, none, some, ◌≡◌, refl, ap, sym, ◌∙◌, arith, inl, inr, Result,
  ok, err, Result-cases,
}
use proxy_control_plane.Store.{Error, Db, found}
use proxy_control_plane.HttpApi.Action.{Failure, Action, continue, ◌>>=◌, settle, require}

-- A handler that succeeds has taken its first step.
pub >>=-eq-ok :
    {A B : Type 0} (m : Action A) (f : A → Action B) (db after : Db) {b : B}
    → (m >>= f) db ≡ (ok b, after)
    → (a : A) × ((m db).0 ≡ ok a) × (f a (m db).1 ≡ (ok b, after))
>>=-eq-ok m f db after h = elim (Result-cases (m db).0) [
  | inl (a, e) ↦ (a, e, sym (ap (λ r. continue f r (m db).1) e) ∙ h)
  | inr (x, e) ↦ absurd (ground (arith, sym (ap (λ r. continue f r (m db).1) e) ∙ h))
]

pub settle-eq-ok :
    {A : Type 0} (failure : Error → Failure) (r : Result Error A) {a : A}
    → settle failure r ≡ ok a
    → r ≡ ok a
settle-eq-ok failure (ok a) h = ground arith
settle-eq-ok failure (err e) h = absurd (cc)

pub found-eq-ok : {A : Type 0} (o : Option A) {a : A} → found o ≡ ok a → o ≡ some a
unfolding found
found-eq-ok none h = absurd (cc)
found-eq-ok (some b) h = ground arith

-- The tables are as before.
abbrev pub Reads : {A : Type 0} → Action A → Type 0
Reads m = (db : Db) → (m db).1 ≡ db

pub >>=-Reads :
    {A B : Type 0} (m : Action A) (f : A → Action B)
    → Reads m
    → ((a : A) → Reads (f a))
    → Reads (m >>= f)
>>=-Reads m f hm hf db = elim (Result-cases (m db).0) [
  | inl (a, e) ↦ ap (λ r. (continue f r (m db).1).1) e ∙ hf a (m db).1 ∙ hm db
  | inr (x, e) ↦ ap (λ r. (continue f r (m db).1).1) e ∙ hm db
]

pub require-Reads :
    (test : Bool) (status : ℕ) (message : Text) → Reads (require test status message)
require-Reads true status message db = refl
require-Reads false status message db = refl
