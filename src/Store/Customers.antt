-- ===== src/Store/Customers.antt =====
-- The customers of internal/store/store.go.
use proxy_control_plane.Base.{
  Text, Bool, true, not, ◌&&◌, ◌||◌, Option, none, some, List, [], ◌∷◌, ◌++◌, map, find, any, keep,
  str_eq, if◌then◌else◌, Result, ok, err,
}
use proxy_control_plane.Domain.{Time, Customer, customer_status_or_default}
use proxy_control_plane.Store.{
  Error, not_found, conflict, Db, Exec, lift, found, id_or_new, stamp, ◌>>=◌,
}

unfoldable pub find_customer : Text → List Customer → Option Customer
find_customer id cs = find (λ c. str_eq c.id id) cs

unfoldable pub get_customer : Text → Exec Customer
get_customer id db = (found (find_customer id db.customers), db)

unfoldable pub get_customer_by_email : Text → Exec Customer
get_customer_by_email email db = (found (find (λ c. str_eq c.email email) db.customers), db)

-- INSERT: the primary key and the unique index on the e-mail.
unfoldable pub insert_customer : Time → Customer → Exec Customer
insert_customer now customer db =
    let row = record customer {
      created_at = stamp now customer.created_at;
      updated_at = stamp now customer.updated_at;
    } in
    if any (λ c. str_eq c.id customer.id || str_eq c.email customer.email) db.customers
    then (err conflict, db)
    else (ok row, record db { customers = db.customers ++ row ∷ [] })

-- UPDATE of all columns by primary key.
unfoldable pub save_customer : Time → Customer → Exec Customer
save_customer now customer db =
    let row = record customer { updated_at = now } in
    if any (λ c. not (str_eq c.id customer.id) && str_eq c.email customer.email) db.customers
    then (err conflict, db)
    else (
      ok row,
      record db { customers = map (λ c. if str_eq c.id row.id then row else c) db.customers },
    )

unfoldable pub create_customer : Time → Result Error Text → Customer → Exec Customer
create_customer now new_id given = do
  id ← lift (id_or_new given.id new_id)
  insert_customer now (record given { id = id; status = customer_status_or_default given.status })

unfoldable pub update_customer : Time → Customer → Exec Customer
update_customer now given = do
  current ← get_customer given.id
  row ← save_customer now (record given { status = customer_status_or_default given.status })
  get_customer given.id

-- The account of a row that references an account is the customer's.
unfoldable pub owns : Text → Db → Text → Bool
owns customer_id db account_id =
    any (λ a. str_eq a.id account_id && str_eq a.customer_id customer_id) db.accounts

-- DELETE by primary key; the foreign keys cascade through the accounts.
unfoldable pub delete_customer : Text → Exec (Unit {0})
delete_customer id db =
    if any (λ c. str_eq c.id id) db.customers
    then (
      ok tt,
      record db {
        customers = keep (λ c. not (str_eq c.id id)) db.customers;
        accounts = keep (λ a. not (str_eq a.customer_id id)) db.accounts;
        bindings = keep (λ b. not (owns id db b.proxy_account_id)) db.bindings;
        usage = keep (λ u. not (owns id db u.proxy_account_id)) db.usage;
        daily = keep (λ u. not (owns id db u.proxy_account_id)) db.daily;
        domain_logs = keep (λ l. not (owns id db l.proxy_account_id)) db.domain_logs;
        subscription_tokens = keep (λ t. not (str_eq t.customer_id id)) db.subscription_tokens;
        refresh_tokens =
            keep (λ t. elim t.customer_id [ none ↦ true | some c ↦ not (str_eq c id) ])
              db.refresh_tokens;
      },
    )
    else (err not_found, db)
