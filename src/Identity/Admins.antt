-- ===== src/Identity/Admins.antt =====
-- What account administration keeps, and what it ends.
use fraud_analyzer_engine.Prelude.{
  ◌*◌, ℕ, ◌+◌, ◌≤◌, String, ◌≡◌, true, false, not, Option, none, some, arith, ◌==◌, texts, numbers,
  eq_iff, eq_refl, Option-cases, inl, inr,
}
use fraud_analyzer_engine.Prelude.Outcome.{ok}
use fraud_analyzer_engine.Dict
use fraud_analyzer_engine.Dict.{
  IsDistinct, get-set, total-set, passing, get-keep_where, measure-le-total,
}
use fraud_analyzer_engine.Accounts.{User, UserRole}
use fraud_analyzer_engine.Identity.Defs.{UserSession, Db, Crypto, Settings}
use fraud_analyzer_engine.Identity.SessionDefs.{resolve}
use fraud_analyzer_engine.Identity.AdminDefs.{
  UserUpdate, count_active_admins, one_if_admin, updated, update_user, reset_password,
}

-- An installation that has an active administrator has one after every update of an account that is
-- not refused.
pub update_user-count_active_admins :
    (db db' : Db) (actor u : User) (user_id : String) (payload : UserUpdate)
    → 1 ≤ count_active_admins db
    → update_user db actor user_id payload ≡ ok (u, db')
    → 1 ≤ count_active_admins db'
unfolding update_user updated
update_user-count_active_admins db db' actor u user_id payload h e =
    elim (Option-cases (Dict.get user_id db.users)) [
      | inl n ↦ absurd (ground arith)
      | inr (target, found) ↦ ground (
        arith,
        total-set one_if_admin user_id (updated payload target) target db.users found,
        measure-le-total one_if_admin user_id target db.users found,
      )
    ]

-- Deactivating an account that was active ends its sessions at once and no others: afterwards the
-- sessions are those of other accounts.
pub update_user-sessions :
    (db db' : Db) (actor u target : User) (user_id k : String) (role : Option UserRole)
    → IsDistinct db.sessions
    → Dict.get user_id db.users ≡ some target
    → target.is_active ≡ true
    → update_user db actor user_id (record { role = role; is_active = some false }) ≡ ok (u, db')
    → Dict.get k db'.sessions
      ≡ passing (λ (s : UserSession). not (s.user_id == target.id)) (Dict.get k db.sessions)
unfolding update_user
update_user-sessions db db' actor u target user_id k role d found active e =
    ground
      (arith, get-keep_where (λ (s : UserSession). not (s.user_id == target.id)) k db.sessions d)

-- A reset gives the account a temporary password that must be changed, lifts its lock, and ends its
-- sessions and no others.
pub reset_password_lem :
    (crypto : Crypto) (db db' : Db) (actor target : User) (user_id temporary t k : String) (now : ℕ)
    → IsDistinct db.sessions
    → Dict.get user_id db.users ≡ some target
    → reset_password crypto db actor user_id temporary now ≡ ok (t, db')
    → (t ≡ temporary)
      × (Dict.get k db'.sessions
          ≡ passing (λ (s : UserSession). not (s.user_id == target.id)) (Dict.get k db.sessions))
      × (Dict.get user_id db'.users
          ≡ some (record target {
            password_hash = crypto.hash temporary;
            must_change_password = true;
            temp_password_expires_at = some (now + 72 * 3600);
            failed_login_count = 0;
            locked_until = none;
          }))
unfolding reset_password
reset_password_lem crypto db db' actor target user_id temporary t k now d found e = ground (
  arith,
  get-keep_where (λ (s : UserSession). not (s.user_id == target.id)) k db.sessions d,
  eq_refl user_id,
  get-set user_id user_id
      (record target {
        password_hash = crypto.hash temporary;
        must_change_password = true;
        temp_password_expires_at = some (now + 72 * 3600);
        failed_login_count = 0;
        locked_until = none;
      })
      db.users,
)

-- A token whose session belongs to an account that is not active, or whose session has ended, is
-- nobody's.
resolve_dead :
    (crypto : Crypto) (settings : Settings) (db : Db) (token : String) (now : ℕ)
    → Dict.get (crypto.digest token) db.sessions ≡ none
    → (resolve crypto settings db token now).0 ≡ none
unfolding resolve
resolve_dead crypto settings db token now h = ground arith

-- Deactivation is immediate: right after it no token of the account's sessions signs anybody in.
pub update_user-resolve :
    (crypto : Crypto) (settings : Settings) (db db' : Db) (actor u target : User)
    (user_id token : String) (role : Option UserRole) (s : UserSession) (now : ℕ)
    → IsDistinct db.sessions
    → Dict.get user_id db.users ≡ some target
    → target.is_active ≡ true
    → Dict.get (crypto.digest token) db.sessions ≡ some s
    → s.user_id ≡ target.id
    → update_user db actor user_id (record { role = role; is_active = some false }) ≡ ok (u, db')
    → (resolve crypto settings db' token now).0 ≡ none
update_user-resolve crypto settings db db' actor u target user_id token role s now d found active
      held owns e =
    resolve_dead crypto settings db' token now (
      ground (
        arith,
        eq_iff s.user_id target.id,
        update_user-sessions db db' actor u target user_id (crypto.digest token) role d found active
            e,
      ))
