-- ===== src/Identity/Defs.antt =====
-- The rows of the tables users, sessions and audit_log, and what the modules take from outside: the
-- hash functions and two settings. A moment is a number of seconds.
use fraud_analyzer_engine.Prelude.{ℕ, ◌*◌, String, Bool, Option, List}
use fraud_analyzer_engine.Dict.{Dict}
use fraud_analyzer_engine.Accounts.{User}

pub record UserSession : Type 0 where
  pub user_id : String
  pub created_at : ℕ
  pub expires_at : ℕ
  pub last_seen_at : ℕ
  pub ip : Option String
  pub user_agent : Option String

pub data AuditAction : Type 0 where
  user_created user_deactivated user_reactivated user_role_changed user_password_reset : AuditAction

pub record AuditEntry : Type 0 where
  pub actor : String
  pub action : AuditAction
  pub target : String

-- Sessions are under their ids, the digests of their tokens; users are under their ids.
pub record Db : Type 0 where
  pub users : Dict User
  pub sessions : Dict UserSession
  pub audit_log : List AuditEntry

-- `hashlib.sha256(...).hexdigest()`, and argon2's `hash` and `verify`, which is false where the library
-- raises.
pub record Crypto : Type 0 where
  pub digest : String → String
  pub hash : String → String
  pub verify : String → String → Bool

pub record Settings : Type 0 where
  pub session_absolute_hours : ℕ
  pub session_idle_hours : ℕ

abbrev pub hours : ℕ → ℕ
hours h = h * 3600

pub data Error : Type 0 where
  invalid_credentials account_locked weak_password not_authenticated : Error
  last_admin user_not_found duplicate_email : Error
