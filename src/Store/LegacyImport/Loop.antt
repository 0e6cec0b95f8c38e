-- ===== src/Store/LegacyImport/Loop.antt =====
-- The loop of ImportLegacyProxyAccounts of internal/store/legacy_import.go, run twice.
use mathlib.Core.Path.{subst}
use proxy_control_plane.Base.{
  ℕ, suc, ◌+◌, Text, codes, Bool, true, false, ◌||◌, List, [], ◌∷◌, ◌≡◌, refl, ap, sym, ◌∙◌, arith,
  inl, inr, Result, ok, Bool-cases, mem, str_eq,
}
use proxy_control_plane.Domain.{Time}
use proxy_control_plane.Store.{Error, Db, pure, ◌>>=◌}
use proxy_control_plane.Store.Steps.{>>=-eq-ok}
use proxy_control_plane.Store.Accounts.{is_bound}
use proxy_control_plane.Store.LegacyImport.{
  LegacyProxyAccountInput, LegacyProxyAccountImportResult, upsert_account,
  upsert_legacy_proxy_account_by_uuid_tx, bind_proxy_account_node_tx, trimmed, tagged, counted,
  one_skipped, import_account, import_accounts, ImportRest, no_import,
}
use proxy_control_plane.Store.LegacyImport.Placed.{
  Grows, Grows-refl, Grows-trans, Imported, upsert_lem, bind_lem, still-Imported,
}

-- An import of the account does nothing more.
record IsThere (customer_id node_id : Text) (input : LegacyProxyAccountInput) (db : Db)
    : Type 0 where
  pub id : Text
  pub account : Imported customer_id id input db
  pub bound : is_bound id node_id db.bindings ≡ true

abbrev pub again : LegacyProxyAccountImportResult → LegacyProxyAccountImportResult
again r = record {
  customer_created = 0;
  account_created = 0;
  account_existing = r.account_created + r.account_existing;
  node_bindings = 0;
  skipped = r.skipped;
}

again-counted :
    (created bound : Bool) (r : LegacyProxyAccountImportResult)
    → again (counted created bound r) ≡ counted false false (again r)
unfolding counted
again-counted true bound r = ground arith
again-counted false bound r = ground arith

still-IsThere :
    (customer_id node_id : Text) (input : LegacyProxyAccountInput) (db after : Db)
    → Grows db after
    → IsThere customer_id node_id input db
    → IsThere customer_id node_id input after
still-IsThere customer_id node_id input db after g t = record {
  id = t.id;
  account = still-Imported customer_id t.id input db after g t.account;
  bound = g.bindings t.id node_id t.bound;
}

module _ (customer_id node_id : Text) where
  -- An account that is not skipped, taken apart.
  record Step (input : LegacyProxyAccountInput) (later : ImportRest) (db after : Db)
      (result : LegacyProxyAccountImportResult) : Type 0 where
    pub created : Bool
    pub bound : Bool
    pub mid : Db
    pub rest : LegacyProxyAccountImportResult
    pub grows : Grows db mid
    pub there : IsThere customer_id node_id input mid
    pub later_eq : later mid ≡ (ok rest, after)
    pub result_eq : result ≡ counted created bound rest

  import_account_inversion :
      (now : Time) (new_ids : ℕ → Result Error Text) (i : ℕ) (input : LegacyProxyAccountInput)
      (later : ImportRest) (db after : Db) (result : LegacyProxyAccountImportResult)
      → import_account now new_ids customer_id node_id i input later db ≡ (ok result, after)
      → Step input later db after result
  unfolding import_account
  import_account_inversion now new_ids i input later db after result h =
      let upsert = upsert_legacy_proxy_account_by_uuid_tx now (new_ids i) customer_id input in
      let (account, e, h1) =
        >>=-eq-ok upsert
          (λ account. bind_proxy_account_node_tx account.0 node_id >>= λ bound.
            later >>= λ result. pure (counted account.1 bound result))
          db after h in
      let bind = bind_proxy_account_node_tx account.0 node_id in
      let (bound, f, h2) =
        >>=-eq-ok bind (λ bound. later >>= λ result. pure (counted account.1 bound result))
          (upsert db).1 after h1 in
      let mid : Db = (bind (upsert db).1).1 in
      let (rest, g, h3) =
        >>=-eq-ok later (λ result. pure (counted account.1 bound result)) mid after h2 in
      let upserted =
        upsert_lem now (new_ids i) customer_id input db (upsert db).1 account.0 account.1
          (λ k. (e k, (upsert db).1)) in
      let placed = bind_lem account.0 node_id (upsert db).1 mid bound (λ k. (f k, mid)) in
      record {
        created = account.1;
        bound = bound;
        mid = mid;
        rest = rest;
        grows = Grows-trans db (upsert db).1 mid upserted.0 placed.0;
        there = record {
          id = account.0;
          account =
              still-Imported customer_id account.0 input (upsert db).1 mid placed.0 upserted.1;
          bound = placed.1;
        };
        later_eq = λ k. (g k, (h3 k).1);
        result_eq = ground (arith, h3);
      }

  import_account_again :
      (now : Time) (new_ids : ℕ → Result Error Text) (i : ℕ) (input : LegacyProxyAccountInput)
      (later : ImportRest) (db : Db) (rest : LegacyProxyAccountImportResult)
      → IsThere customer_id node_id input db
      → later db ≡ (ok rest, db)
      → import_account now new_ids customer_id node_id i input later db
        ≡ (ok (counted false false rest), db)
  unfolding import_account upsert_legacy_proxy_account_by_uuid_tx upsert_account
      bind_proxy_account_node_tx
  import_account_again now new_ids i input later db rest t same =
      rw (t.account.there, t.account.owned, t.account.same_flow, t.account.id_eq, t.bound, same)
        refl

  -- What the loop has done, and does when it is run again.
  pub record Ran (inputs : List LegacyProxyAccountInput) (seen : List Text) (db after : Db)
      (result : LegacyProxyAccountImportResult) : Type 0 where
    pub grows : Grows db after
    pub repeats :
        (now : Time) (new_ids : ℕ → Result Error Text) (i : ℕ) (final : Db)
        → Grows after final
        → import_accounts now new_ids customer_id node_id i seen inputs final
          ≡ (ok (again result), final)

  skipped-Ran :
      (given : LegacyProxyAccountInput) (seen : List Text) (inputs : List LegacyProxyAccountInput)
      (db after : Db) (rest result : LegacyProxyAccountImportResult) (mid : Db)
      → (str_eq (trimmed given).uuid [] || mem (trimmed given).uuid seen) ≡ true
      → pure (one_skipped rest) mid ≡ (ok result, after)
      → Ran inputs seen db mid rest
      → Ran (given ∷ inputs) seen db after result
  unfolding import_accounts one_skipped
  skipped-Ran given seen inputs db after rest result mid e h ran =
      subst (λ d. Ran (given ∷ inputs) seen db d result) (ap (λ p. p.1) h)
        (let result_eq : one_skipped rest ≡ result = ground (arith, h) in
          subst (λ r. Ran (given ∷ inputs) seen db mid r) result_eq
            (record {
              grows = ran.grows;
              repeats =
                  λ now new_ids j final g. rw (e, ran.repeats now new_ids (suc j) final g) refl;
            }))

  taken-Ran :
      (given : LegacyProxyAccountInput) (seen : List Text) (inputs : List LegacyProxyAccountInput)
      (later : ImportRest) (db after : Db) (result : LegacyProxyAccountImportResult)
      → (str_eq (trimmed given).uuid [] || mem (trimmed given).uuid seen) ≡ false
      → (step : Step (tagged (codes "legacy-public") (trimmed given)) later db after result)
      → Ran inputs ((trimmed given).uuid ∷ seen) step.mid after step.rest
      → Ran (given ∷ inputs) seen db after result
  unfolding import_accounts
  taken-Ran given seen inputs later db after result e step ran =
      let input = tagged (codes "legacy-public") (trimmed given) in
      subst (λ r. Ran (given ∷ inputs) seen db after r) (sym step.result_eq)
        (record {
          grows = Grows-trans db step.mid after step.grows ran.grows;
          repeats = λ now new_ids j final g.
              let there =
                still-IsThere customer_id node_id input step.mid final
                  (Grows-trans step.mid after final ran.grows g) step.there in
              let again_later =
                import_accounts now new_ids customer_id node_id (suc j)
                  ((trimmed given).uuid ∷ seen) inputs in
              rw e (
                import_account_again now new_ids j input again_later final (again step.rest) there
                  (ran.repeats now new_ids (suc j) final g)
                ∙ ap (λ r. (ok r, final)) (sym (again-counted step.created step.bound step.rest)));
        })

  pub import_accounts-Ran :
      (now : Time) (new_ids : ℕ → Result Error Text) (i : ℕ) (seen : List Text)
      (inputs : List LegacyProxyAccountInput) (db after : Db)
      (result : LegacyProxyAccountImportResult)
      → import_accounts now new_ids customer_id node_id i seen inputs db ≡ (ok result, after)
      → Ran inputs seen db after result
  unfolding import_accounts
  import_accounts-Ran now new_ids i seen [] db after result h =
      let result_eq : no_import ≡ result = ground (arith, h) in
      subst (λ d. Ran [] seen db d result) (ap (λ p. p.1) h)
        (subst (λ r. Ran [] seen db db r) result_eq
          (record { grows = Grows-refl db; repeats = λ now new_ids j final g. refl }))
  import_accounts-Ran now new_ids i seen (given ∷ inputs) db after result h =
      let input = trimmed given in
      elim (Bool-cases (str_eq input.uuid [] || mem input.uuid seen)) [
        | inl e ↦
            let skipping = import_accounts now new_ids customer_id node_id (suc i) seen inputs in
            let (rest, f, h1) =
              >>=-eq-ok skipping (λ r. pure (one_skipped r)) db after (rw e at h) in
            skipped-Ran given seen inputs db after rest result (skipping db).1 e h1 (
              import_accounts-Ran now new_ids (suc i) seen inputs db (skipping db).1 rest
                (λ k. (f k, (skipping db).1)))
        | inr e ↦
            let later =
              import_accounts now new_ids customer_id node_id (suc i) (input.uuid ∷ seen) inputs in
            let step =
              import_account_inversion now new_ids i (tagged (codes "legacy-public") input) later db
                after result (rw e at h) in
            taken-Ran given seen inputs later db after result e step (
              import_accounts-Ran now new_ids (suc i) (input.uuid ∷ seen) inputs step.mid after
                step.rest step.later_eq)
      ]
