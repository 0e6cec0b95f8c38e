-- ===== src/RuntimeSync/Tables.antt =====
-- The maps that `sync_node` builds from the two listings, entry by entry.
use proxy_control_plane.Base.{
  Text, true, false, any, All, ◌⊎◌, Option, none, some, List, [], ◌∷◌, ◌≡◌, refl, ◌≢◌, ap, ◌∙◌,
  arith, str_eq, str_eq_iff, str_eq_refl, if◌then◌else◌, is_some, get, get-put, mem, mem-keys,
  mem-sort_strings, Dict, Bool-cases, Option-cases, inl, inr, trim_space, trim_space_idem,
}
use proxy_control_plane.Domain.{RuntimeUser, proxy_account_id_from_runtime_email}
use proxy_control_plane.Domain.Email.{trim-email, email-ne-nil}
use proxy_control_plane.RuntimeSync.{
  normalize_user, managed_users, put_user, users_by_email_from, users_by_email, sorted_map_keys,
}
use proxy_control_plane.RuntimeSync.Laws.{Credential, credential, find_user, emails, Distinct}

pub mem-sorted_map_keys :
    (email : Text) (m : Dict RuntimeUser) → mem email (sorted_map_keys m) ≡ is_some (get email m)
unfolding sorted_map_keys
mem-sorted_map_keys email m = mem-sort_strings email _ ∙ mem-keys email m

-- The last user of a list with a given e-mail, from the one that is found so far.
last_user : Text → Option RuntimeUser → List RuntimeUser → Option RuntimeUser
last_user email found [] = found
last_user email found (u ∷ us) =
    last_user email
      (if str_eq (normalize_user u).email email then some (normalize_user u) else found) us

get-put_user :
    (email : Text) (m : Dict RuntimeUser) (u : RuntimeUser)
    → email ≢ []
    → get email (put_user m u)
      ≡ (if str_eq (normalize_user u).email email then some (normalize_user u) else get email m)
unfolding put_user
get-put_user email m u h =
    let n = normalize_user u in
    ground (arith, get-put n.email email n m, str_eq_iff n.email [], str_eq_iff n.email email)

get-users_by_email_from :
    (email : Text) (m : Dict RuntimeUser) (us : List RuntimeUser)
    → email ≢ []
    → get email (users_by_email_from m us) ≡ last_user email (get email m) us
unfolding users_by_email_from last_user
get-users_by_email_from email m [] h = refl
get-users_by_email_from email m (u ∷ us) h =
    get-users_by_email_from email (put_user m u) us h
    ∙ ap (λ found. last_user email found us) (get-put_user email m u h)

get_nil-users_by_email_from :
    (m : Dict RuntimeUser) (us : List RuntimeUser) → get [] (users_by_email_from m us) ≡ get [] m
unfolding users_by_email_from put_user
get_nil-users_by_email_from m [] = refl
get_nil-users_by_email_from m (u ∷ us) =
    let n = normalize_user u in
    get_nil-users_by_email_from (put_user m u) us
    ∙ ground (arith, get-put n.email [] n m, str_eq_iff n.email [])

-- No user is kept under the empty e-mail.
pub get_nil-users_by_email : (us : List RuntimeUser) → get [] (users_by_email us) ≡ none
unfolding users_by_email get
get_nil-users_by_email us = get_nil-users_by_email_from [] us

last_user-absent :
    (email : Text) (us : List RuntimeUser)
    → any (λ u. str_eq (normalize_user u).email email) us ≡ false
    → last_user email none us ≡ none
unfolding last_user
last_user-absent email [] h = refl
last_user-absent email (u ∷ us) h = ground (arith, last_user-absent email us)

-- No user, no entry.
pub get-absent :
    (email : Text) (us : List RuntimeUser)
    → any (λ u. str_eq (normalize_user u).email email) us ≡ false
    → get email (users_by_email us) ≡ none
get-absent email us h = elim (Bool-cases (str_eq email [])) [
  | inl e ↦ rw ((str_eq_iff email []).0 e) (get_nil-users_by_email us)
  | inr e ↦
      unfold users_by_email get in
      get-users_by_email_from email [] us (λ p. cc (p, e, str_eq_refl []))
      ∙ last_user-absent email us h
]

last_user-only :
    (email : Text) (v : RuntimeUser) (found : Option RuntimeUser) (us : List RuntimeUser)
    → All (λ u. str_eq (normalize_user u).email email ≡ true → normalize_user u ≡ v) us
    → (any (λ u. str_eq (normalize_user u).email email) us ≡ true) ⊎ (found ≡ some v)
    → last_user email found us ≡ some v
unfolding last_user
last_user-only email v found [] only (inl p) = absurd (ground arith)
last_user-only email v found [] only (inr p) = p
last_user-only email v found (u ∷ us) (one, only) p =
    elim (Bool-cases (str_eq (normalize_user u).email email)) [
      | inl e ↦
          rw e (last_user-only email v (some (normalize_user u)) us only (inr (ap some (one e))))
      | inr e ↦ rw e (last_user-only email v found us only (rest e p))
    ]
  where
    rest :
        str_eq (normalize_user u).email email ≡ false
        → (any (λ w. str_eq (normalize_user w).email email) (u ∷ us) ≡ true) ⊎ (found ≡ some v)
        → (any (λ w. str_eq (normalize_user w).email email) us ≡ true) ⊎ (found ≡ some v)
    rest e (inl q) = inl (ground arith)
    rest e (inr q) = inr q

-- One user and no other under an e-mail.
pub get-only :
    (email : Text) (v : RuntimeUser) (us : List RuntimeUser)
    → email ≢ []
    → All (λ u. str_eq (normalize_user u).email email ≡ true → normalize_user u ≡ v) us
    → any (λ u. str_eq (normalize_user u).email email) us ≡ true
    → get email (users_by_email us) ≡ some v
get-only email v us named only there =
    unfold users_by_email get in
    get-users_by_email_from email [] us named ∙ last_user-only email v none us only (inl there)

-- Every entry stands under its own e-mail and is trimmed.
pub record IsTrimmed (m : Dict RuntimeUser) : Type 0 where
  pub own : (k : Text) (u : RuntimeUser) → get k m ≡ some u → u.email ≡ k
  pub email : (k : Text) (u : RuntimeUser) → get k m ≡ some u → trim_space u.email ≡ u.email
  pub uuid : (k : Text) (u : RuntimeUser) → get k m ≡ some u → trim_space u.uuid ≡ u.uuid
  pub flow : (k : Text) (u : RuntimeUser) → get k m ≡ some u → trim_space u.flow ≡ u.flow

IsTrimmed-put_user :
    (m : Dict RuntimeUser) (u : RuntimeUser) → IsTrimmed m → IsTrimmed (put_user m u)
unfolding normalize_user put_user
IsTrimmed-put_user m u t = elim (Bool-cases (str_eq (normalize_user u).email [])) [
  | inl e ↦ rw e t
  | inr e ↦
      let n = normalize_user u in
      let entry = λ (k : Text). get-put n.email k n m in
      rw e (record {
        own = λ k v h. ground (arith, entry k, t.own k v, str_eq_iff n.email k);
        email = λ k v h. ground (arith, entry k, t.email k v, trim_space_idem u.email);
        uuid = λ k v h. ground (arith, entry k, t.uuid k v, trim_space_idem u.uuid);
        flow = λ k v h. ground (arith, entry k, t.flow k v, trim_space_idem u.flow);
      })
]

IsTrimmed-users_by_email_from :
    (m : Dict RuntimeUser) (us : List RuntimeUser)
    → IsTrimmed m
    → IsTrimmed (users_by_email_from m us)
unfolding users_by_email_from
IsTrimmed-users_by_email_from m [] t = t
IsTrimmed-users_by_email_from m (u ∷ us) t =
    IsTrimmed-users_by_email_from (put_user m u) us (IsTrimmed-put_user m u t)

pub users_by_email-IsTrimmed : (us : List RuntimeUser) → IsTrimmed (users_by_email us)
unfolding users_by_email get
users_by_email-IsTrimmed us =
    IsTrimmed-users_by_email_from [] us
      (record { own = λ k u h. cc; email = λ k u h. cc; uuid = λ k u h. cc; flow = λ k u h. cc })

-- The entry for a user of the runtime.
abbrev pub managed_entry : Text → Text → Credential → RuntimeUser
managed_entry id email cr = record {
  proxy_account_id = trim_space id;
  email = email;
  uuid = trim_space cr.uuid;
  flow = trim_space cr.flow;
}

find_user_absent :
    (email : Text) (us : List RuntimeUser)
    → mem email (emails us) ≡ false
    → find_user email us ≡ none
unfolding find_user emails mem
find_user_absent email [] h = refl
find_user_absent email (u ∷ us) h = ground (arith, find_user_absent email us)

module _ (email : Text) where
  last_user-unmanaged :
      (us : List RuntimeUser)
      → proxy_account_id_from_runtime_email email ≡ none
      → (found : Option RuntimeUser) → last_user email found (managed_users us) ≡ found
  unfolding last_user managed_users normalize_user
  last_user-unmanaged [] h found = refl
  last_user-unmanaged (u ∷ us) h found =
      elim (Option-cases (proxy_account_id_from_runtime_email u.email)) [
        | inl e ↦ ground (arith, last_user-unmanaged us h found)
        | inr (id, e) ↦ ground (
          arith,
          last_user-unmanaged us h found,
          trim-email u.email id e,
          str_eq_iff u.email email,
        )
      ]

  last_user-managed :
      (us : List RuntimeUser) (id : Text)
      → proxy_account_id_from_runtime_email email ≡ some id
      → Distinct (emails us)
      → (found : Option RuntimeUser)
      → last_user email found (managed_users us)
        ≡ elim (find_user email us) [ none ↦ found | some cr ↦ some (managed_entry id email cr) ]
  unfolding last_user managed_users normalize_user find_user emails
  last_user-managed [] id h d found = refl
  last_user-managed (u ∷ us) id h d found = elim (Bool-cases (str_eq u.email email)) [
    | inl same ↦
        let same' : u.email ≡ email = (str_eq_iff u.email email).0 same in
        let absent : find_user email us ≡ none = find_user_absent email us (rw same' at d.0) in
        let entry = managed_entry id email (credential u) in
        ground (
          arith,
          same',
          h,
          absent,
          last_user-managed us id h d.1 (some entry),
          trim-email email id h,
          trim_space_idem id,
          trim_space_idem u.uuid,
          trim_space_idem u.flow,
        )
    | inr other ↦ elim (Option-cases (proxy_account_id_from_runtime_email u.email)) [
      | inl e ↦ ground (arith, last_user-managed us id h d.1 found)
      | inr (j, e) ↦ ground (arith, last_user-managed us id h d.1 found, trim-email u.email j e)
    ]
  ]

-- What the runtime lists under an e-mail that is managed, and under one that is not.
module _ (us : List RuntimeUser) (email : Text) where
  abbrev pub managed_table : Dict RuntimeUser
  managed_table = users_by_email (managed_users us)

  pub get-managed :
      (id : Text)
      → proxy_account_id_from_runtime_email email ≡ some id
      → Distinct (emails us)
      → get email managed_table
        ≡ elim (find_user email us) [ none ↦ none | some cr ↦ some (managed_entry id email cr) ]
  unfolding users_by_email get
  get-managed id h d =
      get-users_by_email_from email [] (managed_users us) (email-ne-nil email id h)
      ∙ last_user-managed email us id h d none

  pub get-unmanaged :
      proxy_account_id_from_runtime_email email ≡ none → get email managed_table ≡ none
  get-unmanaged h = elim (Bool-cases (str_eq email [])) [
    | inl e ↦ rw ((str_eq_iff email []).0 e) (get_nil-users_by_email (managed_users us))
    | inr e ↦
        unfold users_by_email get in
        get-users_by_email_from email [] (managed_users us) (λ p. cc (p, e, str_eq_refl []))
        ∙ last_user-unmanaged email us h none
  ]
