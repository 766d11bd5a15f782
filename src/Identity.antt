-- ===== src/Identity.antt =====
-- Signing in, staying signed in, and administering accounts: services/analyzer/app/features/auth/,
-- services/analyzer/app/features/users/service.py and services/analyzer/app/security/passwords.py.
mod Defs
mod SessionDefs
mod AuthDefs
mod AdminDefs
pub mod Sessions
pub mod Expiry
pub mod Passwords
pub mod Lockout
pub mod Admins
unfoldable pub use SessionDefs.{
  issue, resolve, issue_with_id, revoke, revoke_all_for_user, purge_expired,
}
unfoldable pub use AuthDefs.{
  find_user, verify_password, validate_password_strength, is_last_active_admin, authenticate,
  change_password, current_user, login, logout, change_password_endpoint,
}
unfoldable pub use AdminDefs.{
  count_active_admins, guard_last_admin, create_user, update_user, reset_password,
}
pub use Defs.{UserSession, Db, Crypto, Settings, Error, AuditEntry, hours}
