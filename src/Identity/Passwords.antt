-- ===== src/Identity/Passwords.antt =====
-- What a change of password leaves of the sessions.
use fraud_analyzer_engine.Prelude.{
  ap, ℕ, String, ◌≡◌, refl, ◌∙◌, Bool, not, some, arith, ◌==◌, texts, numbers, if◌then◌else◌,
  eq_refl, Option-cases, inl, inr,
}
use fraud_analyzer_engine.Prelude.Outcome.{ok, Outcome-cases}
use fraud_analyzer_engine.Prelude.Text.{PyText}
use fraud_analyzer_engine.Dict
use fraud_analyzer_engine.Dict.{
  Dict, IsDistinct, get-set, get-remove, get-keep_where, passing, set-IsDistinct, remove-IsDistinct,
  keep_where-IsDistinct,
}
use fraud_analyzer_engine.Accounts.{User}
use fraud_analyzer_engine.Identity.Defs.{UserSession, Db, Crypto, Settings}
use fraud_analyzer_engine.Identity.SessionDefs.{resolve, seen, issue_with_id, revoke_all_for_user}
use fraud_analyzer_engine.Identity.AuthDefs.{
  change_password, bearer, current_user, restore, change_password_endpoint,
}
use fraud_analyzer_engine.Identity.Sessions.{resolve_ok, change_password-sessions}

-- whether a session is not the user's
abbrev pub is_foreign : User → UserSession → Bool
is_foreign user s = not (s.user_id == user.id)

module _ (py : PyText) (crypto : Crypto) (settings : Settings) where
  current_user_ok :
      (db : Db) (user : User) (header : String) (now : ℕ)
      → (current_user py crypto settings db header now).0 ≡ ok user
      → (s : UserSession) × (Dict.get (crypto.digest (bearer py header)) db.sessions ≡ some s)
        × ((current_user py crypto settings db header now).1
            ≡ seen crypto settings db (crypto.digest (bearer py header)) s now)
  unfolding current_user
  current_user_ok db user header now e =
      elim (Option-cases (resolve crypto settings db (bearer py header) now).0) [
        | inl n ↦ absurd (ground arith)
        | inr (u, f) ↦
            let (s, found, before, owner, active, marked) =
              resolve_ok py crypto settings db (resolve crypto settings db (bearer py header) now).1
                u (bearer py header) now (ground arith) in
            (s, found, ground arith)
      ]

  get-restored :
      (db : Db) (user : User) (k mine : String) (s : UserSession) (now : ℕ)
      → IsDistinct db.sessions
      → Dict.get k (restore (some s) (revoke_all_for_user db user.id).1 user mine now).sessions ≡ (
          if mine == k
          then some (record s { user_id = user.id; last_seen_at = now })
          else passing (is_foreign user) (Dict.get k db.sessions))
  unfolding restore issue_with_id revoke_all_for_user
  get-restored db user k mine s now d = ground (
    arith,
    get-set mine k (record s { user_id = user.id; last_seen_at = now })
        (Dict.keep_where (is_foreign user) db.sessions),
    get-keep_where (is_foreign user) k db.sessions d,
  )

  finished :
      (db db1 : Db) (user : User) (header current new k : String) (s : UserSession) (now : ℕ)
      → IsDistinct db.sessions
      → db1 ≡ seen crypto settings db (crypto.digest (bearer py header)) s now
      → Dict.get k
          (restore
            (Dict.get (crypto.digest (bearer py header)) db1.sessions)
            (revoke_all_for_user (change_password py crypto db1 user current new).1 user.id).1
            user
            (crypto.digest (bearer py header))
            now).sessions
        ≡ (if crypto.digest (bearer py header) == k
            then some (record s { user_id = user.id; last_seen_at = now })
            else passing (is_foreign user) (Dict.get k db.sessions))
  unfolding seen
  finished db db1 user header current new k s now d marked =
      let mine = crypto.digest (bearer py header) in
      let s' = record s { last_seen_at = now } in
      let db2 = (change_password py crypto db1 user current new).1 in
      let same : db2.sessions ≡ Dict.set mine s' db.sessions =
        change_password-sessions py crypto settings db1 user current new
        ∙ ap (λ x. x.sessions) marked in
      let survivor : Dict.get mine db1.sessions ≡ some s' =
        rw (marked, get-set mine mine s' db.sessions, eq_refl mine) refl in
      let distinct : IsDistinct db2.sessions = rw same (set-IsDistinct mine s' db.sessions d) in
      rw survivor (
        ground (
          arith,
          get-restored db2 user k mine s' now distinct,
          same,
          get-set mine k s' db.sessions,
        ))

  -- A change of password that is accepted ends every session of the user but the one that asked for
  -- it, which keeps its start and its end; the sessions of others stay as they were.
  pub change_password_endpoint-sessions :
      (db db' : Db) (header current new k : String) (now : ℕ)
      → IsDistinct db.sessions
      → change_password_endpoint py crypto settings db header current new now ≡ (ok tt, db')
      → (user : User) × (s : UserSession) × ((current_user py crypto settings db header now).0
          ≡ ok user)
        × (Dict.get (crypto.digest (bearer py header)) db.sessions ≡ some s)
        × (Dict.get k db'.sessions ≡ (
            if crypto.digest (bearer py header) == k
            then some (record s { user_id = user.id; last_seen_at = now })
            else passing (is_foreign user) (Dict.get k db.sessions)))
  unfolding change_password_endpoint
  change_password_endpoint-sessions db db' header current new k now d e =
      elim (Outcome-cases (current_user py crypto settings db header now).0) [
        | inr (x, f) ↦ absurd (ground arith)
        | inl (user, f) ↦
            let (s, found, marked) = current_user_ok db user header now f in
            let db1 = (current_user py crypto settings db header now).1 in
            elim (Outcome-cases (change_password py crypto db1 user current new).0) [
              | inr (x, g) ↦ absurd (ground arith)
              | inl (done, g) ↦
                  let left : restore (Dict.get (crypto.digest (bearer py header)) db1.sessions)
                        (revoke_all_for_user (change_password py crypto db1 user current new).1
                          user.id).1
                        user (crypto.digest (bearer py header)) now
                      ≡ db' =
                    ground arith in
                  (
                    user,
                    s,
                    f,
                    found,
                    rw (← left) (finished db db1 user header current new k s now d marked),
                  )
            ]
      ]
