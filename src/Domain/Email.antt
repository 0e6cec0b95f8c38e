-- ===== src/Domain/Email.antt =====
-- The e-mail tag of a proxy account in a runtime, and its inverse.
use proxy_control_plane.Base.{
  ℕ, zero, suc, ◌+◌, ◌-◌, ◌<◌, ◌≤◌, Text, codes, ◌≡◌, refl, ◌≢◌, ◌↔◌, ap, sym, ◌∙◌, some, [], ◌∷◌,
  ◌++◌, arith, length, take, drop, length-append, take-length_append, drop-length_append,
  take-append-drop, str_eq, str_eq_iff, false, str_eq_refl, leb, if◌then◌else◌, trim_space,
  trim_space_fixed, is_space,
}
use mathlib.Core.List.{append_assoc}
use proxy_control_plane.Domain.{
  prefix, runtime_user_email_suffix, runtime_proxy_account_email, cut_affixes,
  proxy_account_id_from_runtime_email,
}

take-take : (m n : ℕ) (xs : Text) → m ≤ n → take m (take n xs) ≡ take m xs
take-take zero n xs h = refl
take-take (suc m) zero xs h = absurd (omega arith)
take-take (suc m) (suc n) [] h = refl
take-take (suc m) (suc n) (x ∷ xs) h = ap (λ t. x ∷ t) (take-take m n xs (omega arith))

length_pos : (s : Text) → s ≢ [] → 0 < length s
length_pos [] h = absurd (h refl)
length_pos (x ∷ s) h = omega arith

not_empty : (s : Text) → s ≢ [] → str_eq s [] ≡ false
not_empty s h = ground (arith, str_eq_iff s [])

drop_suffix : (s t : Text) → drop (length (s ++ t) - length t) (s ++ t) ≡ t
drop_suffix s t =
    ap (λ n. drop n (s ++ t)) (omega (arith, length-append s t)) ∙ drop-length_append s t

take_front : (s t : Text) → take (length (s ++ t) - length t) (s ++ t) ≡ s
take_front s t =
    ap (λ n. take n (s ++ t)) (omega (arith, length-append s t)) ∙ take-length_append s t

cut_affixes_complete :
    (pre id suf : Text) → id ≢ [] → cut_affixes pre suf (pre ++ (id ++ suf)) ≡ some id
unfolding cut_affixes
cut_affixes_complete pre id suf h =
    let email = pre ++ (id ++ suf) in
    let whole : pre ++ (id ++ suf) ≡ (pre ++ id) ++ suf = sym (append_assoc pre id suf) in
    let long : leb (length (pre ++ (id ++ suf))) (length pre + length suf) ≡ false =
      ground (arith, length-append pre (id ++ suf), length-append id suf, length_pos id h) in
    let rear : drop (length (pre ++ (id ++ suf)) - length suf) (pre ++ (id ++ suf)) ≡ suf =
      rw whole (drop_suffix (pre ++ id) suf) in
    let front : take (length (pre ++ (id ++ suf)) - length suf) (pre ++ (id ++ suf)) ≡ pre ++ id =
      rw whole (take_front (pre ++ id) suf) in
    rw (
      long,
      take-length_append pre (id ++ suf),
      str_eq_refl pre,
      rear,
      str_eq_refl suf,
      front,
      drop-length_append pre id,
      not_empty id h,
    )

cut_affixes_sound :
    (pre suf email id : Text)
    → cut_affixes pre suf email ≡ some id
    → (email ≡ pre ++ (id ++ suf)) × (id ≢ [])
unfolding cut_affixes
cut_affixes_sound pre suf email id h =
    let r : ℕ = length email - length suf in
    let long : length pre + length suf < length email = ground arith in
    let head : take (length pre) email ≡ pre =
      ground (arith, str_eq_iff (take (length pre) email) pre) in
    let rear : drop (length email - length suf) email ≡ suf =
      ground (arith, str_eq_iff (drop (length email - length suf) email) suf) in
    let mid : drop (length pre) (take (length email - length suf) email) ≡ id = ground arith in
    let split : email ≡ take (length email - length suf) email ++ suf =
      sym (take-append-drop (length email - length suf) email)
      ∙ ap (λ t. take (length email - length suf) email ++ t) rear in
    let front : take (length email - length suf) email ≡ pre ++ id =
      sym (take-append-drop (length pre) (take (length email - length suf) email))
      ∙ ap (λ t. t ++ drop (length pre) (take (length email - length suf) email))
          (take-take (length pre) (length email - length suf) email (omega arith) ∙ head)
      ∙ ap (λ t. pre ++ t) mid in
    (split ∙ ap (λ t. t ++ suf) front ∙ append_assoc pre id suf, ground (arith, str_eq_refl []))

-- The account id is read back from the e-mail tag that is made from it, and the only e-mails with
-- an account id are those that are made from one.
pub email_iff :
    (email id : Text)
    → (proxy_account_id_from_runtime_email email ≡ some id)
      ↔ ((id ≢ []) × (email ≡ runtime_proxy_account_email id))
unfolding proxy_account_id_from_runtime_email runtime_proxy_account_email
email_iff email id = (
  λ e.
      let (shape, full) = cut_affixes_sound prefix runtime_user_email_suffix email id e in
      (
        full,
        shape
            ∙ sym (
                ap (λ b. if b then [] else prefix ++ (id ++ runtime_user_email_suffix))
                  (not_empty id full)),
      ),
  λ p.
      let shape : email ≡ prefix ++ (id ++ runtime_user_email_suffix) =
        p.1
        ∙ ap (λ b. if b then [] else prefix ++ (id ++ runtime_user_email_suffix))
            (not_empty id p.0) in
      rw shape (cut_affixes_complete prefix id runtime_user_email_suffix p.0),
)

-- An e-mail tag with an account id has no white space at its ends.
pub trim-email :
    (email id : Text)
    → proxy_account_id_from_runtime_email email ≡ some id
    → trim_space email ≡ email
unfolding proxy_account_id_from_runtime_email is_space
trim-email email id e =
    let body : Text = codes "cp-" ++ (id ++ codes "@proxy-control-plan") in
    let shape : email ≡ b'p' ∷ body ++ b'e' ∷ [] =
      (cut_affixes_sound prefix runtime_user_email_suffix email id e).0
      ∙ ap (λ t. prefix ++ t) (sym (append_assoc id (codes "@proxy-control-plan") (b'e' ∷ []))) in
    rw shape (trim_space_fixed b'p' body b'e' refl refl)

pub email-ne-nil :
    (email id : Text) → proxy_account_id_from_runtime_email email ≡ some id → email ≢ []
unfolding proxy_account_id_from_runtime_email
email-ne-nil email id e =
    ground (arith, (cut_affixes_sound prefix runtime_user_email_suffix email id e).0)
