-- ===== src/Accounts.antt =====
-- The accounts that act: services/analyzer/app/features/users/models.py and the roles of
-- services/analyzer/app/enums.py. A moment is a number of seconds.
use fraud_analyzer_engine.Prelude.{ℕ, String, Bool, true, false, Option}

pub data UserRole : Type 0 where
  admin analyst : UserRole

pub record User : Type 0 where
  pub id : String
  pub email : String
  pub full_name : String
  pub password_hash : String
  pub role : UserRole
  pub is_active : Bool
  pub must_change_password : Bool
  pub temp_password_expires_at : Option ℕ
  pub failed_login_count : ℕ
  pub locked_until : Option ℕ
  pub last_login_at : Option ℕ
  pub created_by : Option String

abbrev pub role_is_admin : UserRole → Bool
role_is_admin admin = true
role_is_admin analyst = false

abbrev pub is_admin : User → Bool
is_admin user = role_is_admin user.role
