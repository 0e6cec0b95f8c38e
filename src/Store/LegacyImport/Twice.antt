-- ===== src/Store/LegacyImport/Twice.antt =====
-- ImportLegacyProxyAccounts of internal/store/legacy_import.go, repeated: it finds everything in place.
use proxy_control_plane.Base.{
  ℕ, ◌+◌, Text, Bool, ◌||◌, some, List, [], ◌∷◌, ◌++◌, ◌≡◌, refl, ap, ◌∙◌, arith, inl, inr, Result,
  ok, Result-cases, Option-cases, Bool-cases, str_eq, str_eq_iff, trim_space,
}
use proxy_control_plane.Domain.{Time, Customer}
use proxy_control_plane.Store.{Error, Db, found, pure, ◌>>=◌}
use proxy_control_plane.Store.Steps.{>>=-eq-ok}
use proxy_control_plane.Store.Customers.{insert_customer}
use proxy_control_plane.Store.Nodes.{get_proxy_node_by_name, find_by_name}
use proxy_control_plane.Store.LegacyImport.{
  LegacyProxyAccountInput, LegacyProxyAccountImport, LegacyProxyAccountImportResult, find_by_email,
  ensure_customer, ensure_customer_by_email_tx, one_if, import_accounts, import_tx,
  import_legacy_proxy_accounts,
}
use proxy_control_plane.Store.LegacyImport.Placed.{Grows-refl, find-append_new}
use proxy_control_plane.Store.LegacyImport.Loop.{again, import_accounts-Ran}

-- The customer whom an import finds or creates is found under the e-mail afterwards.
ensure_customer_lem :
    (now : Time) (new_id : Result Error Text) (email display_name : Text) (db after : Db)
    (customer : Customer) (created : Bool)
    → ensure_customer_by_email_tx now new_id email display_name db ≡ (ok (customer, created), after)
    → find_by_email email after.customers ≡ some customer
unfolding ensure_customer_by_email_tx ensure_customer find_by_email insert_customer
ensure_customer_lem now new_id email display_name db after customer created h =
    elim (Option-cases (find_by_email email db.customers)) [
      | inr (c, e) ↦ ground (arith, e, h)
      | inl e ↦ elim (Result-cases new_id) [
        | inr (x, f) ↦ absurd (ground (arith, e, f, h))
        | inl (id, f) ↦
            let added : after.customers ≡ db.customers ++ customer ∷ [] = ground (arith, e, f, h) in
            let own : customer.email ≡ email = ground (arith, e, f, h) in
            ap (find_by_email email) added
            ∙ find-append_new (λ c. str_eq c.email email) db.customers customer e
                ((str_eq_iff customer.email email).1 own)
      ]
    ]

module _ (email display_name node_name : Text) (accounts : List LegacyProxyAccountInput) where
  import_tx_twice :
      (now later : Time) (new_id other_id : Result Error Text)
      (new_ids other_ids : ℕ → Result Error Text) (db after : Db)
      (first : LegacyProxyAccountImportResult)
      → import_tx now new_id new_ids email display_name node_name accounts db ≡ (ok first, after)
      → import_tx later other_id other_ids email display_name node_name accounts after
        ≡ (ok (again first), after)
  unfolding import_tx ensure_customer_by_email_tx ensure_customer get_proxy_node_by_name found
  import_tx_twice now later new_id other_id new_ids other_ids db after first h =
      let ensure = ensure_customer_by_email_tx now new_id email display_name in
      let (customer, e, h1) =
        >>=-eq-ok ensure
          (λ customer. get_proxy_node_by_name node_name >>= λ node.
            import_accounts now new_ids customer.0.id node.id 0 [] accounts >>= λ result.
            pure (record result { customer_created = one_if customer.1 }))
          db after h in
      let mid : Db = (ensure db).1 in
      let (node, f, h2) =
        >>=-eq-ok (get_proxy_node_by_name node_name)
          (λ node. import_accounts now new_ids customer.0.id node.id 0 [] accounts >>= λ result.
            pure (record result { customer_created = one_if customer.1 }))
          mid after h1 in
      let loop = import_accounts now new_ids customer.0.id node.id 0 [] accounts in
      let (rest, g, h3) =
        >>=-eq-ok loop (λ result. pure (record result { customer_created = one_if customer.1 })) mid
          after h2 in
      let ran =
        import_accounts-Ran customer.0.id node.id now new_ids 0 [] accounts mid after rest
          (λ k. (g k, (h3 k).1)) in
      let first_eq : again first ≡ again rest = ground (arith, h3) in
      let known : find_by_email email after.customers ≡ some customer.0 =
        ap (find_by_email email) ran.grows.customers
        ∙ ensure_customer_lem now new_id email display_name db mid customer.0 customer.1
            (λ k. (e k, mid)) in
      let node_known : found (find_by_name node_name after.nodes) ≡ ok node =
        ap (λ ns. found (find_by_name node_name ns)) ran.grows.nodes ∙ f in
      rw (known, node_known, ran.repeats later other_ids 0 after (Grows-refl after), first_eq) refl

-- An import of accounts that has succeeded, when it is repeated with the same input, succeeds again at
-- any later time, changes nothing, and reports no customer, account or binding as new: the accounts
-- that it created count as existing, and the same number is skipped.
pub import_twice :
    (now later : Time) (new_id other_id : Result Error Text)
    (new_ids other_ids : ℕ → Result Error Text) (input : LegacyProxyAccountImport) (db after : Db)
    (first : LegacyProxyAccountImportResult)
    → import_legacy_proxy_accounts now new_id new_ids input db ≡ (ok first, after)
    → import_legacy_proxy_accounts later other_id other_ids input after ≡ (
      ok (record {
        customer_created = 0;
        account_created = 0;
        account_existing = first.account_created + first.account_existing;
        node_bindings = 0;
        skipped = first.skipped;
      }),
      after,
    )
unfolding import_legacy_proxy_accounts
import_twice now later new_id other_id new_ids other_ids input db after first h =
    let email = trim_space input.customer_email in
    let display_name = trim_space input.customer_display_name in
    let node_name = trim_space input.node_name in
    let import = import_tx now new_id new_ids email display_name node_name input.accounts in
    elim (Bool-cases (str_eq email [] || str_eq node_name [])) [
      | inl e ↦ absurd (ground (arith, e, h))
      | inr e ↦ elim (Result-cases (import db).0) [
        | inr (x, f) ↦ absurd (ground (arith, e, f, h))
        | inl (r, f) ↦
            let done : import db ≡ (ok first, after) = ground (arith, e, f, h) in
            rw
              (
                e,
                import_tx_twice email display_name node_name input.accounts now later new_id
                    other_id new_ids other_ids db after first done,
              )
              refl
      ]
    ]
