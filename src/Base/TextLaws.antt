-- ===== src/Base/TextLaws.antt =====
-- Laws of the string functions.
use Prim.Native.Nat.{ℕ}
use mathlib.Core.Path.{◌≡◌, refl, ap, ◌∙◌}
use mathlib.Core.Logic.{inl, inr}
use mathlib.Core.Bool.{false, ◌&&◌}
use mathlib.Core.List.{[], ◌∷◌, ◌++◌}
use native.Mathlib.Omega.{arith}
use proxy_control_plane.Base.Tests.{if◌then◌else◌, Bool-cases}
use proxy_control_plane.Base.Lists.{is_nil}
use proxy_control_plane.Base.Strings.{
  Text, is_space, trim_left, trim_right, trim_space, lower, to_lower,
}

-- The text begins with a byte that is no white space, or is empty.
abbrev pub HasHead : Text → Type 0
HasHead [] = Unit
HasHead (c ∷ s) = is_space c ≡ false

trim_left-HasHead : (s : Text) → HasHead (trim_left s)
unfolding trim_left
trim_left-HasHead [] = tt
trim_left-HasHead (c ∷ s) = elim (Bool-cases (is_space c)) [
  | inl e ↦ rw e (trim_left-HasHead s)
  | inr e ↦ rw e e
]

trim_left_fixed : (s : Text) → HasHead s → trim_left s ≡ s
unfolding trim_left
trim_left_fixed [] h = refl
trim_left_fixed (c ∷ s) h = rw h

trim_right-HasHead : (s : Text) → HasHead s → HasHead (trim_right s)
unfolding trim_right
trim_right-HasHead [] h = tt
trim_right-HasHead (c ∷ s) h = rw h h

trim_right_idem : (s : Text) → trim_right (trim_right s) ≡ trim_right s
unfolding trim_right
trim_right_idem [] = refl
trim_right_idem (c ∷ s) = elim (Bool-cases (is_space c && is_nil (trim_right s))) [
  | inl e ↦ rw e
  | inr e ↦ rw (e, trim_right_idem s, e)
]

-- Trimming a second time changes nothing.
pub trim_space_idem : (s : Text) → trim_space (trim_space s) ≡ trim_space s
unfolding trim_space
trim_space_idem s =
    ap trim_right
      (trim_left_fixed (trim_right (trim_left s)) (trim_right-HasHead _ (trim_left-HasHead s)))
    ∙ trim_right_idem (trim_left s)

trim_right-append : (s : Text) (c : ℕ) → is_space c ≡ false → trim_right (s ++ c ∷ []) ≡ s ++ c ∷ []
unfolding trim_right
trim_right-append [] c h = rw h
trim_right-append (d ∷ s) c h = rw (trim_right-append s c h) (append_case s c d)
  where
    append_case :
        (t : Text) (k : ℕ) (b : ℕ)
        → (if is_space b && is_nil (t ++ k ∷ []) then [] else b ∷ t ++ k ∷ []) ≡ b ∷ t ++ k ∷ []
    append_case [] k b = ground arith
    append_case (x ∷ t) k b = ground arith

-- A text between two bytes that are no white space is not trimmed.
pub trim_space_fixed :
    (b : ℕ) (s : Text) (c : ℕ)
    → is_space b ≡ false
    → is_space c ≡ false
    → trim_space (b ∷ s ++ c ∷ []) ≡ b ∷ s ++ c ∷ []
unfolding trim_space
trim_space_fixed b s c hb hc =
    ap trim_right (trim_left_fixed (b ∷ s ++ c ∷ []) hb) ∙ trim_right-append (b ∷ s) c hc

pub lower_idem : (c : ℕ) → lower (lower c) ≡ lower c
unfolding lower
lower_idem c = ground arith

pub to_lower_idem : (s : Text) → to_lower (to_lower s) ≡ to_lower s
unfolding to_lower
to_lower_idem [] = refl
to_lower_idem (c ∷ s) = λ i. lower_idem c i ∷ to_lower_idem s i

is_space-lower : (c : ℕ) → is_space (lower c) ≡ is_space c
unfolding is_space lower
is_space-lower c = ground arith

trim_left-to_lower : (s : Text) → trim_left (to_lower s) ≡ to_lower (trim_left s)
unfolding trim_left to_lower
trim_left-to_lower [] = refl
trim_left-to_lower (c ∷ s) =
    rw is_space-lower
      (elim (Bool-cases (is_space c)) [ inl e ↦ rw e (trim_left-to_lower s) | inr e ↦ rw e ])

is_nil-map : (s : Text) → is_nil (to_lower s) ≡ is_nil s
unfolding to_lower
is_nil-map [] = refl
is_nil-map (c ∷ s) = refl

trim_right-to_lower : (s : Text) → trim_right (to_lower s) ≡ to_lower (trim_right s)
unfolding trim_right to_lower
trim_right-to_lower [] = refl
trim_right-to_lower (c ∷ s) =
    rw (is_space-lower, trim_right-to_lower s, is_nil-map)
      (elim (Bool-cases (is_space c && is_nil (trim_right s))) [ inl e ↦ rw e | inr e ↦ rw e ])

-- Trimming and lower-casing can be done in either order.
pub trim_space-to_lower : (s : Text) → trim_space (to_lower s) ≡ to_lower (trim_space s)
unfolding trim_space
trim_space-to_lower s = ap trim_right (trim_left-to_lower s) ∙ trim_right-to_lower (trim_left s)
