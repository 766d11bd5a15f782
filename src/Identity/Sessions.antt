-- ===== src/Identity/Sessions.antt =====
-- What each operation does to the end of a session.
use fraud_analyzer_engine.Prelude.{
  ℕ, ◌<◌, String, ◌≡◌, Bool, true, false, not, Option, none, some, arith, leb, ◌==◌, texts, numbers,
  eq_iff, Option-cases, inl, inr,
}
use fraud_analyzer_engine.Prelude.Outcome.{Outcome-cases}
use fraud_analyzer_engine.Prelude.Text.{PyText}
use fraud_analyzer_engine.Dict
use fraud_analyzer_engine.Dict.{
  Dict, IsDistinct, get-set, get-remove, get-keep_where, passing, set-IsDistinct, remove-IsDistinct,
  keep_where-IsDistinct,
}
use fraud_analyzer_engine.Accounts.{User}
use fraud_analyzer_engine.Identity.Defs.{UserSession, Db, Crypto, Settings}
use fraud_analyzer_engine.Identity.SessionDefs.{
  issue, resolve, resolve_stored, seen, issue_with_id, revoke_all_for_user, purge_expired,
}
use fraud_analyzer_engine.Identity.AuthDefs.{
  authenticate, authenticate_user, save, change_password, bearer, current_user, login, restore,
  change_password_endpoint,
}

-- Whether the session of a digest, if there is one, ends at `limit` at the latest.
abbrev pub ends_by : ℕ → Option UserSession → Bool
ends_by limit none = true
ends_by limit (some s) = leb s.expires_at limit

-- The session under `id` ends by `limit`; sessions are one to a digest.
pub record EndsBy (id : String) (limit : ℕ) (sessions : Dict UserSession) : Type 0 where
  pub distinct : IsDistinct sessions
  pub ends : ends_by limit (Dict.get id sessions) ≡ true

pub set-EndsBy :
    (id k : String) (limit : ℕ) (s : UserSession) (d : Dict UserSession)
    → EndsBy id limit d
    → (k ≡ id → leb s.expires_at limit ≡ true)
    → EndsBy id limit (Dict.set k s d)
set-EndsBy id k limit s d h new = record {
  distinct = set-IsDistinct k s d h.distinct;
  ends = ground (arith, get-set k id s d, eq_iff k id, h.ends, new);
}

pub remove-EndsBy :
    (id k : String) (limit : ℕ) (d : Dict UserSession)
    → EndsBy id limit d
    → EndsBy id limit (Dict.remove k d)
remove-EndsBy id k limit d h = record {
  distinct = remove-IsDistinct k d h.distinct;
  ends = ground (arith, get-remove k id d, h.ends);
}

pub keep_where-EndsBy :
    (id : String) (limit : ℕ) (test : UserSession → Bool) (d : Dict UserSession)
    → EndsBy id limit d
    → EndsBy id limit (Dict.keep_where test d)
keep_where-EndsBy id limit test d h = record {
  distinct = keep_where-IsDistinct test d h.distinct;
  ends = ground (arith, get-keep_where test id d h.distinct, h.ends);
}

module _ (py : PyText) (crypto : Crypto) (settings : Settings) where
  -- What a resolution that answers has found: a session that has not ended, of an active user, which
  -- it has marked as seen.
  pub resolve_ok :
      (db db' : Db) (user : User) (token : String) (now : ℕ)
      → resolve crypto settings db token now ≡ (some user, db')
      → (s : UserSession) × (Dict.get (crypto.digest token) db.sessions ≡ some s)
        × (now < s.expires_at)
        × (Dict.get s.user_id db.users ≡ some user)
        × (user.is_active ≡ true)
        × (db' ≡ seen crypto settings db (crypto.digest token) s now)
  unfolding resolve resolve_stored
  resolve_ok db db' user token now e =
      elim (Option-cases (Dict.get (crypto.digest token) db.sessions)) [
        | inl n ↦ absurd (ground arith)
        | inr (s, f) ↦ elim (Option-cases (Dict.get s.user_id db.users)) [
          | inl n ↦ absurd (ground arith)
          | inr (u, g) ↦ (s, f, ground arith, ground arith, ground arith, ground arith)
        ]
      ]

  resolve-none :
      (db : Db) (token : String) (now : ℕ)
      → (resolve crypto settings db token now).0 ≡ none
      → (resolve crypto settings db token now).1 ≡ db
  unfolding resolve resolve_stored
  resolve-none db token now e = ground arith

  resolve-EndsBy :
      (id token : String) (limit now : ℕ) (db : Db)
      → EndsBy id limit db.sessions
      → EndsBy id limit (resolve crypto settings db token now).1.sessions
  unfolding seen
  resolve-EndsBy id token limit now db h =
      elim (Option-cases (resolve crypto settings db token now).0) [
        | inl n ↦ rw (resolve-none db token now n) h
        | inr (u, f) ↦
            let (s, g, before, owner, active, marked) =
              resolve_ok db (resolve crypto settings db token now).1 u token now (ground arith) in
            rw marked (
              set-EndsBy id (crypto.digest token) limit (record s { last_seen_at = now })
                db.sessions h (λ same. ground (arith, h.ends, eq_iff (crypto.digest token) id)))
      ]

  authenticate-EndsBy :
      (id email password : String) (limit now : ℕ) (db : Db)
      → EndsBy id limit db.sessions
      → EndsBy id limit (authenticate py crypto db email password now).1.sessions
  unfolding authenticate authenticate_user save purge_expired
  authenticate-EndsBy id email password limit now db h = ground (
    arith,
    h,
    keep_where-EndsBy id limit (λ (s : UserSession). not (leb s.expires_at now)) db.sessions h,
  )

  pub login-EndsBy :
      (id email password raw : String) (ip user_agent : Option String) (limit now : ℕ) (db : Db)
      → (crypto.digest raw == id) ≡ false
      → EndsBy id limit db.sessions
      → EndsBy id limit
          (login py crypto settings db email password ip user_agent raw now).1.sessions
  unfolding login issue
  login-EndsBy id email password raw ip user_agent limit now db other h =
      let h' = authenticate-EndsBy id email password limit now db h in
      elim (Outcome-cases (authenticate py crypto db email password now).0) [
        | inl (user, e) ↦
            rw (login, e)
              (set-EndsBy id (crypto.digest raw) limit _
                (authenticate py crypto db email password now).1.sessions h'
                (λ same. absurd (ground (arith, eq_iff (crypto.digest raw) id))))
        | inr (e, f) ↦ rw (login, f) h'
      ]

  pub current_user-EndsBy :
      (id header : String) (limit now : ℕ) (db : Db)
      → EndsBy id limit db.sessions
      → EndsBy id limit (current_user py crypto settings db header now).1.sessions
  unfolding current_user
  current_user-EndsBy id header limit now db h =
      ground (arith, resolve-EndsBy id (bearer py header) limit now db h)

  pub change_password-sessions :
      (db : Db) (user : User) (current new : String)
      → (change_password py crypto db user current new).1.sessions ≡ db.sessions
  unfolding change_password save
  change_password-sessions db user current new = ground arith

  pub revoke-EndsBy :
      (id user_id : String) (limit : ℕ) (db : Db)
      → EndsBy id limit db.sessions
      → EndsBy id limit (revoke_all_for_user db user_id).1.sessions
  unfolding revoke_all_for_user
  revoke-EndsBy id user_id limit db h =
      keep_where-EndsBy id limit (λ s. not (s.user_id == user_id)) db.sessions h

  restore-EndsBy :
      (id mine : String) (limit now : ℕ) (survivor : Option UserSession) (user : User) (db : Db)
      → EndsBy id limit db.sessions
      → (mine ≡ id → ends_by limit survivor ≡ true)
      → EndsBy id limit (restore survivor db user mine now).sessions
  unfolding restore issue_with_id
  restore-EndsBy id mine limit now none user db h own = h
  restore-EndsBy id mine limit now (some s) user db h own =
      set-EndsBy id mine limit _ db.sessions h own

  pub change-EndsBy :
      (id header current new : String) (limit now : ℕ) (db : Db)
      → EndsBy id limit db.sessions
      → EndsBy id limit
          (change_password_endpoint py crypto settings db header current new now).1.sessions
  unfolding change_password_endpoint
  change-EndsBy id header current new limit now db h =
      let h1 = current_user-EndsBy id header limit now db h in
      let db1 = (current_user py crypto settings db header now).1 in
      elim (Outcome-cases (current_user py crypto settings db header now).0) [
        | inr (e, f) ↦ rw (change_password_endpoint, f) h1
        | inl (user, f) ↦
            let h2 : EndsBy id limit (change_password py crypto db1 user current new).1.sessions =
              rw (change_password-sessions db1 user current new) h1 in
            elim (Outcome-cases (change_password py crypto db1 user current new).0) [
              | inr (e, g) ↦ rw (change_password_endpoint, f, g) h2
              | inl (done, g) ↦
                  rw (change_password_endpoint, f, g)
                    (restore-EndsBy id (crypto.digest (bearer py header)) limit now
                      (Dict.get (crypto.digest (bearer py header)) db1.sessions) user
                      (revoke_all_for_user (change_password py crypto db1 user current new).1
                        user.id).1
                      (revoke-EndsBy id user.id limit
                        (change_password py crypto db1 user current new).1 h2)
                      (λ same. rw same h1.ends))
            ]
      ]
