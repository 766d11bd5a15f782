-- ===== src/Identity/SessionDefs.antt =====
-- services/analyzer/app/features/auth/sessions.py. A new token, which `secrets` draws, is an argument.
use fraud_analyzer_engine.Prelude.{
  ℕ, zero, suc, ◌+◌, ◌-◌, String, not, Option, none, some, leb, ◌==◌, texts, numbers, if◌then◌else◌,
  length,
}
use fraud_analyzer_engine.Dict
use fraud_analyzer_engine.Accounts.{User}
use fraud_analyzer_engine.Identity.Defs.{UserSession, Db, Crypto, Settings, hours}

-- `s[:n]`
take_chars : ℕ → String → String
take_chars zero s = ""
take_chars (suc n) String.[] = ""
take_chars (suc n) (String.◌∷◌ c s) = String.◌∷◌ c (take_chars n s)

-- `(user_agent or None) and user_agent[:400]`
truncated : Option String → Option String
truncated none = none
truncated (some s) = if s == "" then none else some (take_chars 400 s)

module _ (crypto : Crypto) (settings : Settings) where
  -- the new session stands under the digest of the token `raw`, which is returned
  unfoldable pub issue : Db → User → Option String → Option String → String → ℕ → String × Db
  unfolding truncated take_chars
  issue db user ip user_agent raw now = (
    raw,
    record db {
      sessions =
          Dict.set (crypto.digest raw)
            (record {
              user_id = user.id;
              created_at = now;
              expires_at = now + hours settings.session_absolute_hours;
              last_seen_at = now;
              ip = ip;
              user_agent = truncated user_agent;
            })
            db.sessions;
    },
  )

  unfoldable pub seen : Db → String → UserSession → ℕ → Db
  seen db id stored now = record db {
    sessions = Dict.set id (record stored { last_seen_at = now }) db.sessions;
  }

  unfoldable pub resolve_stored : Db → String → UserSession → ℕ → Option User × Db
  resolve_stored db id stored now =
      if leb stored.expires_at now
      then (none, db)
      else if leb (stored.last_seen_at + hours settings.session_idle_hours) now
      then (none, db)
      else (elim (Dict.get stored.user_id db.users) [
        | none ↦ (none, db)
        | some user ↦ if user.is_active then (some user, seen db id stored now) else (none, db)
      ])

  unfoldable pub resolve : Db → String → ℕ → Option User × Db
  unfolding resolve_stored seen
  resolve db raw_token now =
      if raw_token == ""
      then (none, db)
      else (elim (Dict.get (crypto.digest raw_token) db.sessions) [
        | none ↦ (none, db)
        | some stored ↦ resolve_stored db (crypto.digest raw_token) stored now
      ])

unfoldable pub issue_with_id : Db → User → String → ℕ → ℕ → Option String → Option String → ℕ → Db
issue_with_id db user session_id created_at expires_at ip user_agent now = record db {
  sessions =
      Dict.set session_id
        (record {
          user_id = user.id;
          created_at = created_at;
          expires_at = expires_at;
          last_seen_at = now;
          ip = ip;
          user_agent = user_agent;
        })
        db.sessions;
}

unfoldable pub revoke : Crypto → Db → String → Db
revoke crypto db raw_token = record db {
  sessions = Dict.remove (crypto.digest raw_token) db.sessions;
}

-- with the number of rows deleted
unfoldable pub revoke_all_for_user : Db → String → ℕ × Db
revoke_all_for_user db user_id =
    let kept = Dict.keep_where (λ (s : UserSession). not (s.user_id == user_id)) db.sessions in
    (length db.sessions - length kept, record db { sessions = kept })

unfoldable pub purge_expired : Db → ℕ → ℕ × Db
purge_expired db now =
    let kept = Dict.keep_where (λ (s : UserSession). not (leb s.expires_at now)) db.sessions in
    (length db.sessions - length kept, record db { sessions = kept })
