-- ===== src/Subscription/Decimal.antt =====
-- The ports that `intString` writes.
use proxy_control_plane.Base.{
  ℕ, zero, suc, ◌+◌, ◌*◌, ◌/◌, ◌%◌, ◌-◌, ◌^◌, ◌<◌, ◌≤◌, Text, [], ◌∷◌, ◌≡◌, refl, ◌∙◌, ap, arith,
  Bool-cases, inl, inr, eqb, pos, All,
}
use native.Mathlib.Nat.{pow-suc}
use proxy_control_plane.Subscription.{fill_digits, int_string}

-- What a text of decimal digits stands for, behind a value read so far.
unfoldable pub digits_value : ℕ → Text → ℕ
digits_value v [] = v
digits_value v (c ∷ s) = digits_value (v * 10 + (c - 48)) s

value-fill :
    (room n : ℕ) (buf : Text)
    → n < 10 ^ room
    → digits_value 0 (fill_digits room n buf) ≡ digits_value n buf
unfolding fill_digits digits_value
value-fill zero n buf h = let e : n ≡ 0 = omega (arith, h) in rw e refl
value-fill (suc room) n buf h = elim (Bool-cases (eqb n 0)) [
  | inl e ↦ let z : n ≡ 0 = ground arith in rw z refl
  | inr e ↦
      let less : n / 10 < 10 ^ room = omega (arith, pow-suc 10 room, h) in
      let whole : n / 10 * 10 + ((48 + n % 10) - 48) ≡ n = omega arith in
      rw e
        (value-fill room (n / 10) ((48 + n % 10) ∷ buf) less ∙ ap (λ v. digits_value v buf) whole)
]

fill-range :
    (room n : ℕ) (buf : Text)
    → All (λ c. (48 ≤ c) × (c ≤ 57)) buf
    → All (λ c. (48 ≤ c) × (c ≤ 57)) (fill_digits room n buf)
unfolding fill_digits
fill-range zero n buf h = h
fill-range (suc room) n buf h = elim (Bool-cases (eqb n 0)) [
  | inl e ↦ rw e h
  | inr e ↦ rw e (fill-range room (n / 10) ((48 + n % 10) ∷ buf) ((omega arith, omega arith), h))
]

-- For a positive number below 10 ^ 20, as every positive 64-bit integer is, `intString` writes
-- nothing but decimal digits, and they stand for the number.
int_string-value :
    (n : ℕ)
    → 0 < n
    → n < 10 ^ 20
    → (digits_value 0 (int_string (pos n)) ≡ n)
      × All (λ c. (48 ≤ c) × (c ≤ 57)) (int_string (pos n))
unfolding int_string
int_string-value n positive small = elim (Bool-cases (eqb n 0)) [
  | inl e ↦ absurd (ground arith)
  | inr e ↦ rw e (value-fill 20 n [] small ∙ unfold digits_value in refl, fill-range 20 n [] tt)
]
