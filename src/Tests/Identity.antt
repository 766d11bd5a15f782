-- ===== src/Tests/Identity.antt =====
-- services/analyzer/app/features/auth/ and features/users/ on two accounts.
use fraud_analyzer_engine.Prelude.{
  ◌<◌, ◌≤◌, String, ◌≡◌, refl, true, false, none, some, List, [], ◌∷◌, if◌then◌else◌, arith, ◌==◌,
  texts,
}
use fraud_analyzer_engine.Prelude.Outcome.{Outcome, ok, raise}
use fraud_analyzer_engine.Prelude.Text.{PyText, before, after}
use fraud_analyzer_engine.Dict
use fraud_analyzer_engine.Accounts.{User, admin, analyst}
use fraud_analyzer_engine.Identity.{
  find_user, UserSession, Db, Crypto, Settings, Error, issue, resolve, authenticate, current_user,
  change_password, change_password_endpoint, count_active_admins, update_user, reset_password,
  verify_password, is_last_active_admin, validate_password_strength,
}
use fraud_analyzer_engine.Identity.Admins.{
  update_user-count_active_admins, update_user-sessions, update_user-resolve, reset_password_lem,
}
use fraud_analyzer_engine.Identity.Lockout.{
  authenticate-wrong, authenticate-exempt, account, guesses, guesses-lock,
}
use fraud_analyzer_engine.Identity.Sessions.{resolve_ok}
use fraud_analyzer_engine.Identity.Expiry
use fraud_analyzer_engine.Identity.Expiry.{issue-resolve_ended}
use fraud_analyzer_engine.Identity.Passwords.{is_foreign, change_password_endpoint-sessions}

abbrev pub ann : User
ann = record {
  id = "ann";
  email = "ann@x";
  full_name = "Ann";
  password_hash = "secret";
  role = analyst;
  is_active = true;
  must_change_password = false;
  temp_password_expires_at = none;
  failed_login_count = 3;
  locked_until = none;
  last_login_at = none;
  created_by = none;
}

abbrev pub bea : User
bea = record ann { id = "bea"; email = "bea@x"; role = admin; failed_login_count = 0 }

abbrev session : UserSession
session = record {
  user_id = "ann";
  created_at = 0;
  expires_at = 36000;
  last_seen_at = 5;
  ip = none;
  user_agent = none;
}

abbrev db : Db
db = record {
  users = ("ann", ann) ∷ ("bea", bea) ∷ [];
  sessions = ("t", session) ∷ ("u", record session { user_id = "bea" }) ∷ [];
  audit_log = [];
}

-- a token is its own digest, and a password its own hash
abbrev plain : Crypto
plain = record { digest = λ s. s; hash = λ s. s; verify = λ h p. h == p }

abbrev same : PyText
same = record { strip = λ s. s; lower = λ s. s; casefold = λ s. s; upper = λ s. s }

abbrev day : Settings
day = record { session_absolute_hours = 10; session_idle_hours = 1 }

abbrev bearer_t : String
bearer_t = "bearer t"

authenticate-wrong_example :
    (authenticate same plain db "ann@x" "guess" 10).0 ≡ raise Error.invalid_credentials
unfolding find_user verify_password
authenticate-wrong_example = authenticate-wrong same plain db "ann@x" "guess" 10 refl

authenticate-exempt_example : (authenticate same plain db "bea@x" "guess" 10).1 ≡ db
unfolding find_user verify_password is_last_active_admin
authenticate-exempt_example =
    authenticate-exempt same plain db "bea@x" "guess" 10 bea refl refl refl

abbrev locked_ann : User
locked_ann = record ann { failed_login_count = 0; locked_until = some 911 }

guesses-lock_example :
    account same
      (authenticate same plain
        (guesses same plain "ann@x" (("guess", 10) ∷ []) db)
        "ann@x"
        "other"
        11).1
      "ann@x"
    ≡ some locked_ann
unfolding find_user verify_password is_last_active_admin
guesses-lock_example =
    guesses-lock same plain "ann@x" (("guess", 10) ∷ []) "other" 11 ann db
      (record { keyed = (refl, (refl, tt)); found = refl; others = refl }) refl refl refl refl

resolve_ok_example :
    (s : UserSession) × (Dict.get "t" db.sessions ≡ some s)
    × (6 < s.expires_at)
    × (Dict.get s.user_id db.users ≡ some ann)
    × (ann.is_active ≡ true)
    × ((resolve plain day db "t" 6).1
        ≡ record db { sessions = Dict.set "t" (record s { last_seen_at = 6 }) db.sessions })
unfolding resolve Dict.get
resolve_ok_example = resolve_ok same plain day db (resolve plain day db "t" 6).1 ann "t" 6 refl

abbrev use_of_v : List Expiry.Call
use_of_v =
    Expiry.Call.asking "bearer v" 30
    ∷ Expiry.Call.changing "bearer v" "secret" "another secret" 40
    ∷ []

issue-resolve_ended_example :
    (resolve plain day
      (Expiry.run same plain day use_of_v (issue plain day db ann none none "v" 20).1)
      "v"
      36020).0
    ≡ none
unfolding Dict.get
issue-resolve_ended_example =
    issue-resolve_ended same plain day db ann none none "v" 20 36020 use_of_v (refl, (refl, tt))
      refl (omega arith)

change_password_endpoint-sessions_example :
    (user : User) × (s : UserSession) × ((current_user same plain day db bearer_t 6).0 ≡ ok user)
    × (Dict.get "t" db.sessions ≡ some s)
    × (Dict.get "u"
          (change_password_endpoint same plain day db bearer_t "secret" "a much longer one"
            6).1.sessions
        ≡ (if ◌==◌ {K = String} "t" "u"
            then some (record s { user_id = user.id; last_seen_at = 6 })
            else Dict.passing (is_foreign user) (Dict.get "u" db.sessions)))
unfolding Dict.get change_password_endpoint current_user resolve change_password verify_password
    validate_password_strength before after
change_password_endpoint-sessions_example =
    change_password_endpoint-sessions same plain day db
      (change_password_endpoint same plain day db bearer_t "secret" "a much longer one" 6).1
      bearer_t "secret" "a much longer one" "u" 6 (refl, (refl, tt)) refl

abbrev two_admins : Db
two_admins = record db { users = ("cid", record bea { id = "cid" }) ∷ ("bea", bea) ∷ [] }

abbrev leaving : Outcome Error (User × Db)
leaving = update_user two_admins bea "cid" (record { role = none; is_active = some false })

abbrev after_leaving : Db
after_leaving = elim leaving [ ok (u, d) ↦ d | raise e ↦ two_admins ]

update_user-count_active_admins_example : 1 ≤ count_active_admins after_leaving
unfolding update_user count_active_admins Dict.get Dict.set Dict.total
update_user-count_active_admins_example =
    update_user-count_active_admins two_admins after_leaving bea
      (record bea { id = "cid"; is_active = false }) "cid"
      (record { role = none; is_active = some false }) (omega arith) refl

abbrev shut_out : Db
shut_out = elim (update_user db bea "ann" (record { role = none; is_active = some false })) [
  | ok (u, d) ↦ d
  | raise e ↦ db
]

update_user-sessions_example :
    Dict.get "u" shut_out.sessions ≡ some (record session { user_id = "bea" })
unfolding update_user Dict.get Dict.set
update_user-sessions_example =
    update_user-sessions db shut_out bea (record ann { is_active = false }) ann "ann" "u" none
      (refl, (refl, tt)) refl refl refl

update_user-resolve_example : (resolve plain day shut_out "t" 6).0 ≡ none
unfolding update_user Dict.get Dict.set
update_user-resolve_example =
    update_user-resolve plain day db shut_out bea (record ann { is_active = false }) ann "ann" "t"
      none session 6 (refl, (refl, tt)) refl refl refl refl refl

abbrev reset : Db
reset = elim (reset_password plain db bea "ann" "temporary" 9) [ ok (t, d) ↦ d | raise e ↦ db ]

reset_password_lem_example :
    (◌≡◌ {A = String} "temporary" "temporary")
    × (Dict.get "t" reset.sessions ≡ none)
    × (Dict.get "ann" reset.users
        ≡ some (record ann {
          password_hash = "temporary";
          must_change_password = true;
          temp_password_expires_at = some 259209;
          failed_login_count = 0;
        }))
unfolding reset_password Dict.get Dict.set
reset_password_lem_example =
    reset_password_lem plain db reset bea ann "ann" "temporary" "temporary" "t" 9 (refl, (refl, tt))
      refl refl
