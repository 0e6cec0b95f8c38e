-- ===== src/Base/Split.antt =====
-- strings.Split at a separator of one byte.
use Prim.Native.Nat.{ℕ}
use mathlib.Core.Path.{◌≡◌, refl, ap, ◌∙◌}
use mathlib.Core.Logic.{inl, inr}
use mathlib.Core.Bool.{Bool, true, false, not, ◌&&◌}
use mathlib.Core.List.{List, [], ◌∷◌, ◌++◌}
use native.Mathlib.Omega.{arith}
use proxy_control_plane.Base.Tests.{eqb, if◌then◌else◌, Bool-cases}
use proxy_control_plane.Base.Lists.{All}
use proxy_control_plane.Base.Strings.{Text}

abbrev pub onto_head : ℕ → List Text → List Text
onto_head x [] = (x ∷ []) ∷ []
onto_head x (p ∷ ps) = (x ∷ p) ∷ ps

unfoldable pub split : ℕ → Text → List Text
split c [] = [] ∷ []
split c (x ∷ s) = let rest = split c s in if eqb x c then [] ∷ rest else onto_head x rest

-- The byte does not occur.
abbrev pub Lacks : ℕ → Text → Type 0
Lacks c s = All (λ x. eqb x c ≡ false) s

abbrev pub lacks : ℕ → Text → Bool
lacks c [] = true
lacks c (x ∷ s) = not (eqb x c) && lacks c s

-- By evaluation, for a literal.
pub Lacks-of : (c : ℕ) (s : Text) → lacks c s ≡ true → Lacks c s
Lacks-of c [] h = tt
Lacks-of c (x ∷ s) h = (ground arith, Lacks-of c s (ground arith))

pub split-Lacks : (c : ℕ) (s : Text) → Lacks c s → split c s ≡ s ∷ []
unfolding split
split-Lacks c [] h = refl
split-Lacks c (x ∷ s) h = rw (h.0, split-Lacks c s h.1) refl

pub split-append : (c : ℕ) (s rest : Text) → Lacks c s → split c (s ++ c ∷ rest) ≡ s ∷ split c rest
unfolding split
split-append c [] rest h = ground arith
split-append c (x ∷ s) rest h = rw (h.0, split-append c s rest h.1) refl

-- Three parts that are joined come apart again.
pub split_three :
    (c : ℕ) (p q r : Text)
    → Lacks c p
    → Lacks c q
    → Lacks c r
    → split c (p ++ (c ∷ (q ++ (c ∷ r)))) ≡ p ∷ q ∷ r ∷ []
split_three c p q r hp hq hr =
    rw (split-append c p (q ++ c ∷ r) hp, split-append c q r hq, split-Lacks c r hr) refl

-- strings.Join, at a separator of one byte
abbrev pub join_at : ℕ → List Text → Text
join_at c [] = []
join_at c (p ∷ []) = p
join_at c (p ∷ q ∷ ps) = p ++ (c ∷ join_at c (q ∷ ps))

-- A split text has a first part.
abbrev HasParts : List Text → Type 0
HasParts [] = ⊥
HasParts (p ∷ ps) = Unit

split-HasParts : (c : ℕ) (s : Text) → HasParts (split c s)
unfolding split
split-HasParts c [] = tt
split-HasParts c (x ∷ s) = elim (Bool-cases (eqb x c)) [
  | inl e ↦ rw e tt
  | inr e ↦ rw e (head (split c s))
]
  where
    head : (ps : List Text) → HasParts (onto_head x ps)
    head [] = tt
    head (p ∷ ps) = tt

join-new : (c : ℕ) (ps : List Text) → HasParts ps → join_at c ([] ∷ ps) ≡ c ∷ join_at c ps
join-new c [] h = absurd h
join-new c (p ∷ ps) h = refl

join-onto_head :
    (c x : ℕ) (ps : List Text) → HasParts ps → join_at c (onto_head x ps) ≡ x ∷ join_at c ps
join-onto_head c x [] h = absurd h
join-onto_head c x (p ∷ []) h = refl
join-onto_head c x (p ∷ q ∷ ps) h = refl

-- The parts of a text, joined, are the text.
pub join-split : (c : ℕ) (s : Text) → join_at c (split c s) ≡ s
unfolding split
join-split c [] = refl
join-split c (x ∷ s) = elim (Bool-cases (eqb x c)) [
  | inl e ↦
      let same : c ≡ x = ground arith in
      rw e (join-new c (split c s) (split-HasParts c s) ∙ (λ i. same i ∷ join-split c s i))
  | inr e ↦
      rw e (join-onto_head c x (split c s) (split-HasParts c s) ∙ ap (λ t. x ∷ t) (join-split c s))
]
