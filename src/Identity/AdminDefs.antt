-- ===== src/Identity/AdminDefs.antt =====
-- services/analyzer/app/features/users/service.py. The new id and the temporary password, which are
-- drawn at random, are arguments.
use fraud_analyzer_engine.Prelude.{
  ℕ, ◌+◌, String, Bool, true, false, not, ◌||◌, Option, none, some, ◌∷◌, ltb, ◌==◌, texts,
  if◌then◌else◌, is_some,
}
use fraud_analyzer_engine.Prelude.Outcome.{Outcome, ok, raise}
use fraud_analyzer_engine.Prelude.Text.{PyText}
use fraud_analyzer_engine.Dict
use fraud_analyzer_engine.Dict.{Dict}
use fraud_analyzer_engine.Accounts.{User, UserRole, admin, analyst, is_admin}
use fraud_analyzer_engine.Identity.Defs.{
  UserSession, Db, Crypto, AuditAction, user_created, user_deactivated, user_reactivated,
  user_role_changed, user_password_reset, Error, last_admin, user_not_found, duplicate_email, hours,
}
use fraud_analyzer_engine.Identity.AuthDefs.{is_active_admin, find_user}

temp_password_hours : ℕ
temp_password_hours = 72

abbrev pub one_if_admin : User → ℕ
one_if_admin u = if is_active_admin u then 1 else 0

unfoldable pub count_active_admins : Db → ℕ
count_active_admins db = Dict.total one_if_admin db.users

-- whether the change is allowed; the rows that it counts are locked until the change is committed
unfoldable pub guard_last_admin : Db → User → Bool → Bool → Bool
unfolding count_active_admins
guard_last_admin db target becoming_inactive becoming_analyst =
    if not (becoming_inactive || becoming_analyst)
    then true
    else if not (is_admin target) || not target.is_active
    then true
    else ltb 1 (count_active_admins db)

audit : User → AuditAction → String → Db → Db
audit actor action target db = record db {
  audit_log = record { actor = actor.id; action = action; target = target } ∷ db.audit_log;
}

abbrev pub end_sessions : String → Db → Db
end_sessions user_id db = record db {
  sessions = Dict.keep_where (λ (s : UserSession). not (s.user_id == user_id)) db.sessions;
}

pub record UserCreate : Type 0 where
  pub email : String
  pub full_name : String
  pub role : UserRole

unfoldable pub create_user :
    PyText → Crypto → Db → User → UserCreate → String → String → ℕ → Outcome Error (String × Db)
unfolding audit temp_password_hours
create_user py crypto db actor payload new_id temporary now =
    let normalised = py.lower (py.strip payload.email) in
    if is_some (find_user normalised db.users)
    then raise duplicate_email
    else ok (
      temporary,
      audit actor user_created new_id (record db {
        users =
            Dict.set new_id
              (record {
                id = new_id;
                email = normalised;
                full_name = py.strip payload.full_name;
                password_hash = crypto.hash temporary;
                role = payload.role;
                is_active = true;
                must_change_password = true;
                temp_password_expires_at = some (now + hours temp_password_hours);
                failed_login_count = 0;
                locked_until = none;
                last_login_at = none;
                created_by = some actor.id;
              })
              db.users;
      }),
    )

pub record UserUpdate : Type 0 where
  pub role : Option UserRole
  pub is_active : Option Bool

same_role : UserRole → UserRole → Bool
same_role admin admin = true
same_role analyst analyst = true
same_role _ _ = false

wants_inactive : Option Bool → Bool
wants_inactive (some false) = true
wants_inactive _ = false

wants_analyst : Option UserRole → Bool
wants_analyst (some analyst) = true
wants_analyst _ = false

or_role : Option UserRole → UserRole → UserRole
or_role none r = r
or_role (some r) _ = r

or_active : Option Bool → Bool → Bool
or_active none b = b
or_active (some b) _ = b

unfoldable pub updated : UserUpdate → User → User
unfolding or_role or_active
updated payload target = record target {
  role = or_role payload.role target.role;
  is_active = or_active payload.is_active target.is_active;
}

differs : Bool → Bool → Bool
differs true b = not b
differs false b = b

-- what follows a change of `is_active`
unfoldable pub active_changed : User → User → Db → Db
unfolding audit
active_changed actor target db =
    if target.is_active
    then audit actor user_reactivated target.id db
    else audit actor user_deactivated target.id (end_sessions target.id db)

unfoldable pub update_user : Db → User → String → UserUpdate → Outcome Error (User × Db)
unfolding guard_last_admin active_changed audit same_role wants_inactive wants_analyst differs
    updated
update_user db actor user_id payload = elim (Dict.get user_id db.users) [
  | none ↦ raise user_not_found
  | some target ↦
      if not
        (guard_last_admin db target (wants_inactive payload.is_active) (wants_analyst payload.role))
      then raise last_admin
      else (let target' = updated payload target in
          let db1 = record db { users = Dict.set user_id target' db.users } in
          let db2 =
            if differs target.is_active target'.is_active
            then active_changed actor target' db1
            else db1 in
          ok (
            target',
            if same_role target.role target'.role
                then db2
                else audit actor user_role_changed target'.id db2,
          ))
]

unfoldable pub reset_password :
    Crypto → Db → User → String → String → ℕ → Outcome Error (String × Db)
unfolding audit temp_password_hours
reset_password crypto db actor user_id temporary now = elim (Dict.get user_id db.users) [
  | none ↦ raise user_not_found
  | some target ↦ ok (
    temporary,
    audit actor user_password_reset target.id (
        end_sessions target.id (record db {
          users =
              Dict.set user_id
                (record target {
                  password_hash = crypto.hash temporary;
                  must_change_password = true;
                  temp_password_expires_at = some (now + hours temp_password_hours);
                  failed_login_count = 0;
                  locked_until = none;
                })
                db.users;
        })),
  )
]
