-- ===== src/Store/Steps.antt =====
-- What holds of the tables through a chain of steps, whether it succeeds or fails.
use proxy_control_plane.Base.{
  Bool, true, false, Result, ok, err, ◌≡◌, refl, ap, sym, ◌∙◌, arith, inl, inr, Result-cases,
}
use proxy_control_plane.Store.{Error, Db, Exec, lift, continue, ◌>>=◌, ◌>>◌, guard, settle}

-- An action that succeeds has taken its first step.
pub >>=-eq-ok :
    {A B : Type 0} (m : Exec A) (f : A → Exec B) (db after : Db) {b : B}
    → (m >>= f) db ≡ (ok b, after)
    → (a : A) × ((m db).0 ≡ ok a) × (f a (m db).1 ≡ (ok b, after))
>>=-eq-ok m f db after h = elim (Result-cases (m db).0) [
  | inl (a, e) ↦ (a, e, sym (ap (λ r. continue f r (m db).1) e) ∙ h)
  | inr (x, e) ↦ absurd (ground (arith, sym (ap (λ r. continue f r (m db).1) e) ∙ h))
]

module _ (P : Db → Type 0) where
  pub lift_keeps :
      {A B : Type 0} (r : Result Error A) (f : A → Exec B) (db : Db)
      → P db
      → ((a : A) → P (f a db).1)
      → P ((lift r >>= f) db).1
  lift_keeps (ok a) f db s h = h a
  lift_keeps (err e) f db s h = s

  pub step_keeps :
      {A B : Type 0} (m : Exec A) (f : A → Exec B) (db : Db)
      → P (m db).1
      → ((a : A) (after : Db) → P after → P (f a after).1)
      → P ((m >>= f) db).1
  step_keeps {A} {B} m f db s h = go (m db).0 (m db).1 s
    where
      go : (r : Result Error A) (after : Db) → P after → P (continue f r after).1
      go (ok a) after k = h a after k
      go (err e) after k = k

  -- What follows writes nothing more.
  pub reads_keep :
      {A B : Type 0} (m : Exec A) (f : A → Exec B) (db : Db)
      → ((a : A) (after : Db) → (f a after).1 ≡ after)
      → P (m db).1
      → P ((m >>= f) db).1
  reads_keep m f db same s = step_keeps m f db s (λ a after h. rw (same a after) h)

  pub settle_keeps :
      {A : Type 0} (old : Db) (r : Result Error A) (db : Db) → P old → P db → P (settle old r db).1
  settle_keeps old (ok a) db s h = h
  settle_keeps old (err e) db s h = s

  -- What stands behind a guard may use that its test holds.
  pub guard_keeps :
      {A : Type 0} (b : Bool) (e : Error) (rest : Exec A) (db : Db)
      → P db
      → (b ≡ true → P (rest db).1)
      → P ((guard b e >> rest) db).1
  guard_keeps true e rest db s h = h refl
  guard_keeps false e rest db s h = s
