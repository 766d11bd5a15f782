-- ===== src/Identity/AuthDefs.antt =====
-- services/analyzer/app/features/auth/service.py and router.py, and
-- services/analyzer/app/security/passwords.py.
use Prim.Native.String.{count}
use fraud_analyzer_engine.Prelude.{
  ℕ, ◌+◌, ◌*◌, String, Bool, false, not, ◌&&◌, ◌||◌, Option, none, some, List, [], ◌∷◌, ltb, leb,
  ◌==◌, texts, numbers, if◌then◌else◌, any,
}
use fraud_analyzer_engine.Prelude.Outcome.{Outcome, ok, raise}
use fraud_analyzer_engine.Prelude.Text.{PyText, before, after}
use fraud_analyzer_engine.Dict
use fraud_analyzer_engine.Dict.{Dict}
use fraud_analyzer_engine.Accounts.{User, is_admin}
use fraud_analyzer_engine.Identity.Defs.{
  UserSession, Db, Crypto, Settings, Error, invalid_credentials, account_locked, weak_password,
  not_authenticated,
}
use fraud_analyzer_engine.Identity.SessionDefs.{
  issue, resolve, issue_with_id, revoke, revoke_all_for_user, purge_expired,
}

min_password_length : ℕ
min_password_length = 12

common : List String
common =
    "password" ∷ "password1" ∷ "password123" ∷ "password1234" ∷ "password12345" ∷ "password123456"
    ∷ "passw0rd" ∷ "qwertyuiop" ∷ "1234567890" ∷ "123456789012" ∷ "letmein" ∷ "welcome"
    ∷ "welcome123" ∷ "administrator" ∷ "changeme" ∷ "changeme123" ∷ "switchboard" ∷ "switchboard1"
    ∷ []

unfoldable pub verify_password : Crypto → String → String → Bool
verify_password crypto plaintext hashed =
    if hashed == "" then false else crypto.verify hashed plaintext

-- whether the password is allowed
unfoldable pub validate_password_strength : PyText → String → Bool
unfolding min_password_length common
validate_password_strength py plaintext =
    if ltb (count plaintext) min_password_length
    then false
    else not (any (λ c. c == py.lower (py.strip plaintext)) common)

abbrev pub max_failed_logins : ℕ
max_failed_logins = 5

abbrev pub lockout_minutes : ℕ
lockout_minutes = 15

abbrev pub is_active_admin : User → Bool
is_active_admin user = is_admin user && user.is_active

-- an active administrator other than `user`
unfoldable pub other_active_admin : String → Dict User → Bool
other_active_admin id [] = false
other_active_admin id ((k, u) ∷ d) =
    is_active_admin u && not (u.id == id) || other_active_admin id d

unfoldable pub is_last_active_admin : Db → User → Bool
unfolding other_active_admin
is_last_active_admin db user =
    if not (is_admin user) || not user.is_active
    then false
    else not (other_active_admin user.id db.users)

-- the first user with this address
unfoldable pub find_user : String → Dict User → Option User
find_user email [] = none
find_user email ((k, u) ∷ d) = if u.email == email then some u else find_user email d

abbrev pub is_locked : User → ℕ → Bool
is_locked user now = elim user.locked_until [ none ↦ false | some t ↦ ltb now t ]

-- one more failure; the last one locks
abbrev pub failed_once : User → ℕ → User
failed_once user now =
    if leb max_failed_logins (user.failed_login_count + 1)
    then record user { failed_login_count = 0; locked_until = some (now + lockout_minutes * 60) }
    else record user { failed_login_count = user.failed_login_count + 1 }

abbrev pub expired_temporary : User → ℕ → Bool
expired_temporary user now = elim user.temp_password_expires_at [
  | none ↦ false
  | some t ↦ leb t now
]

unfoldable pub save : User → Db → Db
save user db = record db { users = Dict.set user.id user db.users }

unfoldable pub authenticate_user : Crypto → Db → User → String → ℕ → Outcome Error User × Db
authenticate_user crypto db user password now =
    if not (verify_password crypto password user.password_hash)
    then (
      raise invalid_credentials,
      if not (is_locked user now) && not (is_last_active_admin db user)
          then save (failed_once user now) db
          else db,
    )
    else if is_locked user now
    then (raise account_locked, db)
    else if not user.is_active
    then (raise invalid_credentials, db)
    else if expired_temporary user now
    then (raise invalid_credentials, db)
    else (let user' = record user {
      failed_login_count = 0;
      locked_until = none;
      last_login_at = some now;
    } in
        (ok user', (purge_expired (save user' db) now).1))

-- Users' addresses are stored in lower case (a CHECK of the table), so that the `lower` of the query
-- leaves them as they are. The check against the dummy hash, for an unknown address, has no effect
-- but its time.
unfoldable pub authenticate : PyText → Crypto → Db → String → String → ℕ → Outcome Error User × Db
unfolding authenticate_user save
authenticate py crypto db email password now =
    elim (find_user (py.lower (py.strip email)) db.users) [
      | none ↦ (raise invalid_credentials, db)
      | some user ↦ authenticate_user crypto db user password now
    ]

unfoldable pub change_password :
    PyText → Crypto → Db → User → String → String → Outcome Error (Unit {0}) × Db
unfolding save
change_password py crypto db user current new =
    if not (verify_password crypto current user.password_hash)
    then (raise invalid_credentials, db)
    else if verify_password crypto new user.password_hash
    then (raise weak_password, db)
    else if not (validate_password_strength py new)
    then (raise weak_password, db)
    else (
      ok tt,
      save
          (record user {
            password_hash = crypto.hash new;
            must_change_password = false;
            temp_password_expires_at = none;
          })
          db,
    )

-- `_bearer`, of the authorization header or ""
unfoldable pub bearer : PyText → String → String
bearer py header =
    if py.lower (before b' ' header) == "bearer" then py.strip (after b' ' header) else ""

unfoldable pub current_user : PyText → Crypto → Settings → Db → String → ℕ → Outcome Error User × Db
unfolding bearer
current_user py crypto settings db header now =
    let (found, db') = resolve crypto settings db (bearer py header) now in
    elim found [ none ↦ (raise not_authenticated, db') | some user ↦ (ok user, db') ]

-- the token, or the error
unfoldable pub login :
    PyText
    → Crypto
    → Settings
    → Db
    → String
    → String
    → Option String
    → Option String
    → String
    → ℕ
    → Outcome Error String × Db
login py crypto settings db email password ip user_agent raw now =
    let (answer, db') = authenticate py crypto db email password now in
    elim answer [
      | raise e ↦ (raise e, db')
      | ok user ↦
          let (token, db'') = issue crypto settings db' user ip user_agent raw now in
          (ok token, db'')
    ]

unfoldable pub logout : PyText → Crypto → Db → String → Db
unfolding bearer
logout py crypto db header = revoke crypto db (bearer py header)

unfoldable pub restore : Option UserSession → Db → User → String → ℕ → Db
restore none db user mine now = db
restore (some s) db user mine now =
    issue_with_id db user mine s.created_at s.expires_at s.ip s.user_agent now

-- the endpoint: the change, the end of every session of the user, and the one that asked restored
unfoldable pub change_password_endpoint :
    PyText → Crypto → Settings → Db → String → String → String → ℕ → Outcome Error (Unit {0}) × Db
unfolding bearer restore
change_password_endpoint py crypto settings db header current new now =
    let (signed_in, db1) = current_user py crypto settings db header now in
    elim signed_in [
      | raise e ↦ (raise e, db1)
      | ok user ↦
          let mine = crypto.digest (bearer py header) in
          let survivor = Dict.get mine db1.sessions in
          let (answer, db2) = change_password py crypto db1 user current new in
          elim answer [
            | raise e ↦ (raise e, db2)
            | ok done ↦
                (ok done, restore survivor (revoke_all_for_user db2 user.id).1 user mine now)
          ]
    ]
