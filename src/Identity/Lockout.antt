-- ===== src/Identity/Lockout.antt =====
-- Guessing passwords: what a sign-in answers and what it counts.
use fraud_analyzer_engine.Prelude.{
  ℕ, ◌+◌, ◌<◌, String, ◌≡◌, refl, Bool, true, false, not, ◌&&◌, ◌||◌, Option, none, some, List, [],
  ◌∷◌, arith, ◌==◌, texts, numbers, if◌then◌else◌, eq_iff, eq_refl, Option-cases, Bool-cases, inl,
  inr, length, ◌∙◌, ap,
}
use fraud_analyzer_engine.Prelude.Outcome.{ok, raise}
use fraud_analyzer_engine.Prelude.Text.{PyText}
use fraud_analyzer_engine.Dict
use fraud_analyzer_engine.Dict.{Dict, get-set}
use fraud_analyzer_engine.Accounts.{User}
use fraud_analyzer_engine.Identity.Defs.{Db, Crypto, invalid_credentials, account_locked}
use fraud_analyzer_engine.Identity.AuthDefs.{
  verify_password, authenticate, authenticate_user, find_user, is_last_active_admin, is_locked,
  other_active_admin, max_failed_logins, failed_once, expired_temporary, save,
}

-- The account that signs in with `email`.
abbrev pub account : PyText → Db → String → Option User
account py db email = find_user (py.lower (py.strip email)) db.users

-- A wrong password.
abbrev pub is_wrong : Crypto → String → User → Bool
is_wrong crypto password user = not (verify_password crypto password user.password_hash)

-- no account, or a password that is not the account's
abbrev pub is_mistaken : Crypto → String → Option User → Bool
is_mistaken crypto password none = true
is_mistaken crypto password (some user) = is_wrong crypto password user

-- A wrong password and an address with no account get the same answer, whatever the state of the
-- account: locked, inactive, or with an expired temporary password.
pub authenticate-wrong :
    (py : PyText) (crypto : Crypto) (db : Db) (email password : String) (now : ℕ)
    → is_mistaken crypto password (account py db email) ≡ true
    → (authenticate py crypto db email password now).0 ≡ raise invalid_credentials
unfolding authenticate authenticate_user
authenticate-wrong py crypto db email password now wrong =
    elim (Option-cases (account py db email)) [
      | inl n ↦ ground arith
      | inr (user, e) ↦ ground arith
    ]

-- Who signs in: exactly the holder of the right password of an account that is active, not locked
-- and not on an expired temporary password.
pub authenticate-ok :
    (py : PyText) (crypto : Crypto) (db : Db) (email password : String) (now : ℕ) (user : User)
    → account py db email ≡ some user
    → (authenticate py crypto db email password now).0 ≡ (
        if not (is_wrong crypto password user)
          && not (is_locked user now)
          && user.is_active
          && not (expired_temporary user now)
        then ok
            (record user { failed_login_count = 0; locked_until = none; last_login_at = some now })
        else if not (is_wrong crypto password user) && is_locked user now
        then raise account_locked
        else raise invalid_credentials)
unfolding authenticate authenticate_user
authenticate-ok py crypto db email password now user e =
    elim (Bool-cases (verify_password crypto password user.password_hash)) [
      | inl v ↦ ground arith
      | inr v ↦ ground arith
    ]

-- A wrong guess at an account that is locked, or at the last active administrator, changes nothing:
-- the lock is not prolonged, and nobody can lock the last administrator out.
pub authenticate-exempt :
    (py : PyText) (crypto : Crypto) (db : Db) (email password : String) (now : ℕ) (user : User)
    → account py db email ≡ some user
    → is_wrong crypto password user ≡ true
    → (is_locked user now || is_last_active_admin db user) ≡ true
    → (authenticate py crypto db email password now).1 ≡ db
unfolding authenticate authenticate_user
authenticate-exempt py crypto db email password now user e w x =
    elim (Bool-cases (is_last_active_admin db user)) [ inl l ↦ ground arith | inr l ↦ ground arith ]

-- Every user stands under their id.
abbrev pub IsKeyed : Dict User → Type 0
IsKeyed [] = Unit
IsKeyed ((k, u) ∷ d) = (u.id ≡ k) × IsKeyed d

found_email :
    (email : String) (user : User) (d : Dict User)
    → find_user email d ≡ some user
    → (user.email == email) ≡ true
unfolding find_user
found_email email user [] h = ground arith
found_email email user ((j, w) ∷ d) h = ground (arith, found_email email user d)

find_user-set :
    (email : String) (user user' : User) (d : Dict User)
    → IsKeyed d
    → find_user email d ≡ some user
    → user'.email ≡ user.email
    → find_user email (Dict.set user.id user' d) ≡ some user'
unfolding find_user Dict.set
find_user-set email user user' [] k h same = ground arith
find_user-set email user user' ((j, w) ∷ d) k h same = ground (
  arith,
  eq_iff w.email email,
  eq_iff j user.id,
  eq_refl j,
  found_email email user d,
  find_user-set email user user' d k.1,
)

other_active_admin-set :
    (id : String) (user : User) (d : Dict User)
    → IsKeyed d
    → user.id ≡ id
    → other_active_admin id (Dict.set id user d) ≡ other_active_admin id d
unfolding other_active_admin Dict.set
other_active_admin-set id user [] k e = ground (arith, eq_refl id)
other_active_admin-set id user ((j, w) ∷ d) k e =
    ground (arith, eq_iff j id, eq_refl id, other_active_admin-set id user d k.1)

set-IsKeyed : (user : User) (d : Dict User) → IsKeyed d → IsKeyed (Dict.set user.id user d)
unfolding Dict.set
set-IsKeyed user [] k = (refl, tt)
set-IsKeyed user ((j, w) ∷ d) k = ground (arith, set-IsKeyed user d k.1)

module _ (py : PyText) (crypto : Crypto) (email : String) where
  -- Sign-ins one after another: the password and the time of each.
  unfoldable pub guesses : List (String × ℕ) → Db → Db
  guesses [] db = db
  guesses ((password, now) ∷ rest) db =
      guesses rest (authenticate py crypto db email password now).1

  -- all wrong, and none while the account is locked
  abbrev pub all_counted : User → List (String × ℕ) → Bool
  all_counted user [] = true
  all_counted user ((password, now) ∷ rest) =
      is_wrong crypto password user && not (is_locked user now) && all_counted user rest

  -- An account that a guess counts for.
  pub record IsGuarded (user : User) (db : Db) : Type 0 where
    pub keyed : IsKeyed db.users
    pub found : account py db email ≡ some user
    pub others : is_last_active_admin db user ≡ false

  saved-IsGuarded :
      (user : User) (count : ℕ) (until : Option ℕ) (db : Db)
      → IsGuarded user db
      → IsGuarded
          (record user { failed_login_count = count; locked_until = until })
          (save (record user { failed_login_count = count; locked_until = until }) db)
  unfolding save is_last_active_admin
  saved-IsGuarded user count until db g =
      let user' = record user { failed_login_count = count; locked_until = until } in
      record {
        keyed = set-IsKeyed user' db.users g.keyed;
        found = find_user-set (py.lower (py.strip email)) user user' db.users g.keyed g.found refl;
        others = rw (other_active_admin-set user.id user' db.users g.keyed refl) g.others;
      }

  guess_lem :
      (user : User) (password : String) (now : ℕ) (db : Db)
      → IsGuarded user db
      → is_wrong crypto password user ≡ true
      → is_locked user now ≡ false
      → (authenticate py crypto db email password now).1 ≡ save (failed_once user now) db
  unfolding authenticate authenticate_user
  guess_lem user password now db g w l = ground (arith, g.found, g.others)

  all_counted_lem :
      (count : ℕ) (user : User) (attempts : List (String × ℕ))
      → all_counted (record user { failed_login_count = count }) attempts
        ≡ all_counted user attempts
  all_counted_lem count user [] = refl
  all_counted_lem count user (a ∷ rest) = rw (all_counted_lem count user rest) refl

  failed_once_few :
      (user : User) (now : ℕ)
      → user.failed_login_count + 1 < max_failed_logins
      → failed_once user now ≡ record user { failed_login_count = user.failed_login_count + 1 }
  failed_once_few user now h = ground arith

  failed_once_last :
      (user : User) (now : ℕ)
      → user.failed_login_count + 1 ≡ max_failed_logins
      → failed_once user now
        ≡ record user { failed_login_count = 0; locked_until = some (now + 900) }
  failed_once_last user now h = ground arith

  guesses-count :
      (attempts : List (String × ℕ)) (n : ℕ) (user : User) (db : Db)
      → IsGuarded user db
      → all_counted user attempts ≡ true
      → n ≡ user.failed_login_count + length attempts
      → n < max_failed_logins
      → IsGuarded (record user { failed_login_count = n }) (guesses attempts db)
  unfolding guesses
  guesses-count [] n user db g w e few = let q : n ≡ user.failed_login_count = omega arith in rw q g
  guesses-count ((password, now) ∷ rest) n user db g w e few =
      let user' = record user { failed_login_count = user.failed_login_count + 1 } in
      let step : (authenticate py crypto db email password now).1 ≡ save user' db =
        guess_lem user password now db g (ground arith) (ground arith)
        ∙ ap (λ u. save u db) (failed_once_few user now (omega arith)) in
      rw step (
        guesses-count rest n user' (save user' db)
          (saved-IsGuarded user (user.failed_login_count + 1) user.locked_until db g)
          (all_counted_lem (user.failed_login_count + 1) user rest ∙ ground arith) (omega arith)
          few)

  -- Guessing locks: at an account that a guess counts for, when the wrong guesses make up the five, the
  -- last of them locks the account for 900 seconds from its time and resets the count.
  pub guesses-lock :
      (attempts : List (String × ℕ)) (last : String) (now : ℕ) (user : User) (db : Db)
      → IsGuarded user db
      → all_counted user attempts ≡ true
      → is_wrong crypto last user ≡ true
      → is_locked user now ≡ false
      → user.failed_login_count + length attempts + 1 ≡ 5
      → account py (authenticate py crypto (guesses attempts db) email last now).1 email
        ≡ some (record user { failed_login_count = 0; locked_until = some (now + 900) })
  guesses-lock attempts last now user db g w wrong free five =
      let n = user.failed_login_count + length attempts in
      let user' = record user { failed_login_count = n } in
      let g' = guesses-count attempts n user db g w refl (omega arith) in
      let step : (authenticate py crypto (guesses attempts db) email last now).1
          ≡ save (record user { failed_login_count = 0; locked_until = some (now + 900) })
              (guesses attempts db) =
        guess_lem user' last now (guesses attempts db) g' wrong free
        ∙ ap (λ u. save u (guesses attempts db)) (failed_once_last user' now five) in
      rw step (saved-IsGuarded user' 0 (some (now + 900)) (guesses attempts db) g').found
