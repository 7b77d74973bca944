-- ===== src/Web/Admin.antt =====
-- The pages for admins of src/web/ui/admin_ui.rs, and `FileZone::get_unowned` of src/zones.rs. A panic of a
-- query that reads a zone is the outcome `panic`; queries and transactions of the database do not fail else.
pub mod Takeover
use goatns.Prelude.{
  ℕ, Bool, true, false, not, ◌==◌, Option, none, some, List, [], ◌∷◌, map, Result, ok, err, panic,
  stuck, ◌>>=◌, Bytes,
}
use goatns.Zone.{FileZone}
use goatns.Datastore.{ViewRow, records_merged, select}
use goatns.Database.{Db, RowIds, is_in}
use goatns.Database.Zones.{zone_from_row, get_with_txn}
use goatns.Database.Users.{User, ZoneOwnership, save_ownership}
use goatns.Database.Accounts.{get_user_by_name}
use goatns.Web.{
  Urls, redirect, page, Session, GoatState, Handled, Checked, logged_in, sent_to, sent, redirect_to,
  when_logged_in, check_logged_in,
}

pub record AdminReportUnownedRecords : Type 0 where
  pub user_is_admin : Bool
  pub records : List ViewRow
  pub zones : List FileZone

pub record AssignOwnershipTemplate : Type 0 where
  pub user_is_admin : Bool
  pub zone : FileZone
  pub user : Option Bytes

pub data AdminPage : Type 0 where
  admin_page : Bool → AdminPage
  unowned_page : AdminReportUnownedRecords → AdminPage
  assign_page : AssignOwnershipTemplate → AdminPage

-- `dashboard`
unfoldable pub admin_dashboard : Session → GoatState → Handled AdminPage
unfolding when_logged_in check_logged_in redirect
admin_dashboard session st =
    when_logged_in st (check_logged_in session (some (redirect Urls.home))) (λ session user.
      record { session = session; state = st; answer = page (admin_page user.admin) })

-- `FileZone::get_unowned`
unfoldable pub get_unowned : Db → List FileZone
unfolding select is_in zone_from_row
get_unowned db =
    map zone_from_row
      (select (λ row. not (is_in row.id (map (λ o. o.zoneid) db.ownership))) db.zones)

-- `report_unowned_records`: the join compares a record's number with an owner's.
unfoldable pub unowned_records : Db → List ViewRow
unfolding select is_in records_merged
unowned_records db =
    select (λ row. not (is_in row.record_id (map (λ o. o.id) db.ownership)))
      (records_merged db.zones db.records)

unfoldable pub report_unowned_records : Session → GoatState → Handled AdminPage
unfolding when_logged_in check_logged_in redirect unowned_records get_unowned
report_unowned_records session st =
    when_logged_in st (check_logged_in session (some (redirect Urls.home))) (λ session user.
      record {
        session = session;
        state = st;
        answer = page (
            unowned_page (record {
              user_is_admin = user.admin;
              records = unowned_records st.db;
              zones = get_unowned st.db;
            }));
      })

-- An error sends the browser to the page for admins; a panic is passed on.
unfoldable pub or_admin :
    {A : Type 0}
    → Result A
    → Session
    → GoatState
    → (A → Result (Handled AdminPage))
    → Result (Handled AdminPage)
unfolding redirect
or_admin (ok x) session st next = next x
or_admin (err e) session st next = ok (sent session st Urls.admin)
or_admin panic session st next = panic
or_admin stuck session st next = stuck

unfoldable pub assign_to :
    RowIds
    → Session
    → User
    → GoatState
    → FileZone
    → Option Bytes
    → Option ℕ
    → Option ℕ
    → Result (Handled AdminPage)
unfolding or_admin save_ownership redirect
assign_to ids session user st zone username (some userid) (some zoneid) =
    or_admin (save_ownership ids (record { id = none; zoneid = zoneid; userid = userid }) st.db)
      session st (λ saved. ok (sent session (record st { db = saved.1 }) Urls.admin))
assign_to ids session user st zone username _ _ = ok (record {
  session = session;
  state = st;
  answer = page (assign_page (record { user_is_admin = user.admin; zone = zone; user = username }));
})

unfoldable pub assign_named :
    RowIds → Session → User → GoatState → FileZone → Option Bytes → Result (Handled AdminPage)
unfolding or_admin assign_to get_user_by_name
assign_named ids session user st zone none = assign_to ids session user st zone none none none
assign_named ids session user st zone (some username) =
    or_admin (get_user_by_name st.db username) session st
      (λ named. assign_to ids session user st zone (some username) named.id zone.id)

unfoldable pub assign_checked :
    RowIds → GoatState → ℕ → Option Bytes → Session × Checked → Result (Handled AdminPage)
unfolding or_admin assign_named get_with_txn
assign_checked ids st id username (session, sent_to url) =
    ok (record { session = session; state = st; answer = redirect_to url })
assign_checked ids st id username (session, logged_in user) =
    or_admin (get_with_txn st.db id) session st
      (λ zone. assign_named ids session user st zone username)

-- `assign_zone_ownership`
unfoldable pub assign_zone_ownership :
    RowIds → ℕ → Option Bytes → Session → GoatState → Result (Handled AdminPage)
unfolding assign_checked check_logged_in redirect
assign_zone_ownership ids id username session st =
    assign_checked ids st id username (check_logged_in session (some (redirect Urls.home)))
