-- ===== src/Identity/Expiry.antt =====
-- When a session ends, whatever happens after it is issued.
use fraud_analyzer_engine.Prelude.{
  ℕ, ◌+◌, ◌≤◌, String, ◌≡◌, Bool, true, not, Option, none, List, [], ◌∷◌, arith, leb, ◌==◌, texts,
  numbers, eq_refl, Option-cases, inl, inr, all,
}
use fraud_analyzer_engine.Prelude.Text.{PyText}
use fraud_analyzer_engine.Dict
use fraud_analyzer_engine.Dict.{
  Dict, IsDistinct, get-set, get-remove, get-keep_where, passing, set-IsDistinct, remove-IsDistinct,
  keep_where-IsDistinct,
}
use fraud_analyzer_engine.Accounts.{User}
use fraud_analyzer_engine.Identity.Defs.{Db, Crypto, Settings, hours}
use fraud_analyzer_engine.Identity.SessionDefs.{
  issue, resolve, resolve_stored, revoke, revoke_all_for_user, purge_expired,
}
use fraud_analyzer_engine.Identity.AuthDefs.{
  bearer, current_user, login, logout, change_password_endpoint,
}
use fraud_analyzer_engine.Identity.Sessions.{
  EndsBy, remove-EndsBy, keep_where-EndsBy, login-EndsBy, current_user-EndsBy, revoke-EndsBy,
  change-EndsBy,
}

-- What happens to the sessions: sign-ins, requests, sign-outs, purges, the ends of an account's
-- sessions, and changes of password, of any callers.
pub data Call : Type 0 where
  signing_in :
      (email password : String) → (ip user_agent : Option String) → (raw : String) → ℕ → Call
  asking : (header : String) → ℕ → Call
  signing_out : (header : String) → Call
  purging : ℕ → Call
  ending : (user_id : String) → Call
  changing : (header current new : String) → ℕ → Call

module _ (py : PyText) (crypto : Crypto) (settings : Settings) where
  unfoldable pub perform : Call → Db → Db
  perform (signing_in email password ip user_agent raw now) db =
      (login py crypto settings db email password ip user_agent raw now).1
  perform (asking header now) db = (current_user py crypto settings db header now).1
  perform (signing_out header) db = logout py crypto db header
  perform (purging now) db = (purge_expired db now).1
  perform (ending user_id) db = (revoke_all_for_user db user_id).1
  perform (changing header current new now) db =
      (change_password_endpoint py crypto settings db header current new now).1

  unfoldable pub run : List Call → Db → Db
  run [] db = db
  run (call ∷ calls) db = run calls (perform call db)

  -- a call that issues no token with this digest
  abbrev pub is_other : String → Call → Bool
  is_other id (signing_in email password ip user_agent raw now) = not (crypto.digest raw == id)
  is_other id _ = true

  perform-EndsBy :
      (id : String) (limit : ℕ) (call : Call) (db : Db)
      → is_other id call ≡ true
      → EndsBy id limit db.sessions
      → EndsBy id limit (perform call db).sessions
  unfolding perform logout revoke purge_expired
  perform-EndsBy id limit (signing_in email password ip user_agent raw now) db o h =
      login-EndsBy py crypto settings id email password raw ip user_agent limit now db
        (ground arith) h
  perform-EndsBy id limit (asking header now) db o h =
      current_user-EndsBy py crypto settings id header limit now db h
  perform-EndsBy id limit (signing_out header) db o h =
      remove-EndsBy id (crypto.digest (bearer py header)) limit db.sessions h
  perform-EndsBy id limit (purging now) db o h =
      keep_where-EndsBy id limit (λ s. not (leb s.expires_at now)) db.sessions h
  perform-EndsBy id limit (ending user_id) db o h =
      revoke-EndsBy py crypto settings id user_id limit db h
  perform-EndsBy id limit (changing header current new now) db o h =
      change-EndsBy py crypto settings id header current new limit now db h

  run-EndsBy :
      (id : String) (limit : ℕ) (calls : List Call) (db : Db)
      → all (is_other id) calls ≡ true
      → EndsBy id limit db.sessions
      → EndsBy id limit (run calls db).sessions
  unfolding run
  run-EndsBy id limit [] db o h = h
  run-EndsBy id limit (call ∷ calls) db o h =
      run-EndsBy id limit calls (perform call db) (ground arith)
        (perform-EndsBy id limit call db (ground arith) h)

  resolve_late :
      (token : String) (now : ℕ) (db : Db)
      → EndsBy (crypto.digest token) now db.sessions
      → (resolve crypto settings db token now).0 ≡ none
  unfolding resolve resolve_stored
  resolve_late token now db h = elim (Option-cases (Dict.get (crypto.digest token) db.sessions)) [
    | inl n ↦ ground arith
    | inr (s, f) ↦ ground (arith, h.ends)
  ]

  issue-EndsBy :
      (db : Db) (user : User) (ip user_agent : Option String) (raw : String) (issued limit : ℕ)
      → IsDistinct db.sessions
      → issued + hours settings.session_absolute_hours ≤ limit
      → EndsBy
          (crypto.digest raw)
          limit
          (issue crypto settings db user ip user_agent raw issued).1.sessions
  unfolding issue
  issue-EndsBy db user ip user_agent raw issued limit d late =
      let id = crypto.digest raw in
      record {
        distinct = set-IsDistinct id _ db.sessions d;
        ends = rw (get-set id id _ db.sessions, eq_refl id) (ground arith);
      }

  -- A session has an absolute end. Whatever happens after a token is issued, requests with it and
  -- changes of the password included, at the moment set by session_absolute_hours and after it the
  -- token signs nobody in, as long as no token with the same digest is issued.
  pub issue-resolve_ended :
      (db : Db) (user : User) (ip user_agent : Option String) (raw : String) (issued now : ℕ)
      (calls : List Call)
      → IsDistinct db.sessions
      → all (is_other (crypto.digest raw)) calls ≡ true
      → issued + hours settings.session_absolute_hours ≤ now
      → (resolve crypto settings
          (run calls (issue crypto settings db user ip user_agent raw issued).1)
          raw
          now).0
        ≡ none
  issue-resolve_ended db user ip user_agent raw issued now calls d o late =
      let db' = (issue crypto settings db user ip user_agent raw issued).1 in
      resolve_late raw now (run calls db') (
        run-EndsBy (crypto.digest raw) now calls db' o
          (issue-EndsBy db user ip user_agent raw issued now d late))
