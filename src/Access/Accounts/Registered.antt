-- ===== src/Access/Accounts/Registered.antt =====
-- The accounts that visitors can register.
use threat_scope_xdr.Prelude.{◌≡◌, false, none}
use threat_scope_xdr.Access.Models.{Source, UserAccount}
use threat_scope_xdr.Access.Store.{Env}
use threat_scope_xdr.Access.Returns.{Returns}
use threat_scope_xdr.Access.Accounts.{initial_status}

-- What a registered account may do is what the mode says, and no more.
pub record IsLimitedAccount (env : Env) (u : UserAccount) : Type 0 where
  pub not_administrator : u.is_system_admin ≡ false
  pub status : u.status ≡ initial_status env.config.registration_mode
  pub source : u.registration_source ≡ Source.local
  pub unapproved : u.approved_by_user_id ≡ none
