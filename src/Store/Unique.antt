-- ===== src/Store/Unique.antt =====
-- Rows with a column in which no two of them agree.
use proxy_control_plane.Base.{
  Text, Bool, false, ◌||◌, List, [], ◌∷◌, ◌++◌, ◌≡◌, arith, any, keep, map, All, refl, str_eq,
  str_eq_iff,
}

module _ {A : Type 0} (f : A → Text) where
  abbrev pub UniqueBy : List A → Type 0
  UniqueBy [] = Unit
  UniqueBy (x ∷ xs) = (any (λ y. str_eq (f y) (f x)) xs ≡ false) × UniqueBy xs

  any-append_one :
      (k : Text) (xs : List A) (r : A)
      → any (λ y. str_eq (f y) k) xs ≡ false
      → str_eq (f r) k ≡ false
      → any (λ y. str_eq (f y) k) (xs ++ r ∷ []) ≡ false
  any-append_one k [] r h e = ground arith
  any-append_one k (x ∷ xs) r h e = ground (arith, any-append_one k xs r)

  pub UniqueBy-append_one :
      (xs : List A) (r : A)
      → any (λ y. str_eq (f y) (f r)) xs ≡ false
      → UniqueBy xs
      → UniqueBy (xs ++ r ∷ [])
  UniqueBy-append_one [] r h u = ground arith
  UniqueBy-append_one (x ∷ xs) r h (new, u) = (
    any-append_one (f x) xs r new (ground (arith, str_eq_iff (f x) (f r), str_eq_iff (f r) (f x))),
    UniqueBy-append_one xs r (ground arith) u,
  )

  any-keep :
      (k : Text) (p : A → Bool) (xs : List A)
      → any (λ y. str_eq (f y) k) xs ≡ false
      → any (λ y. str_eq (f y) k) (keep p xs) ≡ false
  any-keep k p [] h = h
  any-keep k p (x ∷ xs) h = ground (arith, any-keep k p xs)

  pub UniqueBy-keep : (p : A → Bool) (xs : List A) → UniqueBy xs → UniqueBy (keep p xs)
  UniqueBy-keep p [] u = tt
  UniqueBy-keep p (x ∷ xs) (new, u) = ground (arith, any-keep (f x) p xs new, UniqueBy-keep p xs u)

  any-map :
      (k : Text) (g : A → A) (xs : List A)
      → ((x : A) → f (g x) ≡ f x)
      → any (λ y. str_eq (f y) k) (map g xs) ≡ any (λ y. str_eq (f y) k) xs
  any-map k g [] same = refl
  any-map k g (x ∷ xs) same = ground (arith, any-map k g xs same, same x)

  -- A change that leaves the column alone.
  pub UniqueBy-map :
      (g : A → A) (xs : List A) → ((x : A) → f (g x) ≡ f x) → UniqueBy xs → UniqueBy (map g xs)
  UniqueBy-map g [] same u = tt
  UniqueBy-map g (x ∷ xs) same (new, u) =
      (rw (any-map (f (g x)) g xs same, same x) new, UniqueBy-map g xs same u)

module _ {A : Type 0} {P : A → Type 0} where
  pub All-map :
      (g : A → A) → ((x : A) → P x → P (g x)) → (xs : List A) → All P xs → All P (map g xs)
  All-map g h [] all = tt
  All-map g h (x ∷ xs) (here, all) = (h x here, All-map g h xs all)

module _ {A : Type 0} where
  pub any-or :
      (p q : A → Bool) (xs : List A)
      → any (λ x. p x || q x) xs ≡ false
      → (any p xs ≡ false) × (any q xs ≡ false)
  any-or p q [] h = (refl, refl)
  any-or p q (x ∷ xs) h = let ih = any-or p q xs (ground arith) in ground arith
