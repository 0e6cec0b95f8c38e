-- ===== src/Base/Maps.antt =====
-- Go maps with string keys as association lists, and keys in the order of `sort.Strings`.
use mathlib.Core.Path.{◌≡◌, refl}
use mathlib.Core.Bool.{Bool, true, false, ◌||◌}
use mathlib.Core.Option.{Option, none, some}
use mathlib.Core.List.{List, [], ◌∷◌}
use native.Mathlib.Omega.{arith}
use proxy_control_plane.Base.Tests.{ltb, if◌then◌else◌, is_some}
use proxy_control_plane.Base.Strings.{Text, str_eq, str_eq_iff}

abbrev pub Dict {ℓ} : Type ℓ → Type ℓ
Dict V = List (Text × V)

module _ {ℓ} {V : Type ℓ} where
  -- `v, ok := m[k]`
  unfoldable pub get : Text → Dict V → Option V
  get k [] = none
  get k ((j, v) ∷ m) = let rest = get k m in if str_eq j k then some v else rest

  -- `m[k] = v`
  unfoldable pub put : Text → V → Dict V → Dict V
  put k v [] = (k, v) ∷ []
  put k v ((j, w) ∷ m) = let rest = put k v m in if str_eq j k then (k, v) ∷ m else (j, w) ∷ rest

  unfoldable pub keys : Dict V → List Text
  keys [] = []
  keys ((j, v) ∷ m) = j ∷ keys m

  unfoldable pub values : Dict V → List V
  values [] = []
  values ((j, v) ∷ m) = v ∷ values m

  pub get-put :
      (k j : Text) (v : V) (m : Dict V)
      → get j (put k v m) ≡ (if str_eq k j then some v else get j m)
  unfolding get put
  get-put k j v [] = refl
  get-put k j v ((i, w) ∷ m) =
      ground (arith, str_eq_iff k j, str_eq_iff i k, str_eq_iff i j, get-put k j v m)

unfoldable pub mem : Text → List Text → Bool
mem k [] = false
mem k (j ∷ l) = str_eq j k || mem k l

-- The order of Go's `<` on strings.
unfoldable pub str_ltb : Text → Text → Bool
str_ltb [] [] = false
str_ltb [] (b ∷ t) = true
str_ltb (a ∷ s) [] = false
str_ltb (a ∷ s) (b ∷ t) =
    let rest = str_ltb s t in if ltb a b then true else if ltb b a then false else rest

insert_key : Text → List Text → List Text
insert_key k [] = k ∷ []
insert_key k (j ∷ l) = let rest = insert_key k l in if str_ltb j k then j ∷ rest else k ∷ j ∷ l

-- `sort.Strings`
unfoldable pub sort_strings : List Text → List Text
unfolding insert_key
sort_strings [] = []
sort_strings (k ∷ l) = insert_key k (sort_strings l)

mem-insert_key : (i k : Text) (l : List Text) → mem i (insert_key k l) ≡ (str_eq k i || mem i l)
unfolding mem insert_key
mem-insert_key i k [] = refl
mem-insert_key i k (j ∷ l) = ground (arith, mem-insert_key i k l)

pub mem-sort_strings : (i : Text) (l : List Text) → mem i (sort_strings l) ≡ mem i l
unfolding sort_strings
mem-sort_strings i [] = refl
mem-sort_strings i (k ∷ l) =
    rw (mem-insert_key i k (sort_strings l), mem-sort_strings i l) (unfold mem in refl)

pub mem-keys {ℓ} : {V : Type ℓ} (i : Text) (m : Dict V) → mem i (keys m) ≡ is_some (get i m)
unfolding mem keys get
mem-keys i [] = refl
mem-keys i ((j, v) ∷ m) = ground (arith, mem-keys i m)
