-- ===== src/Auth/Permissions.antt =====
-- internal/auth/permissions.go: the administrative roles and what they permit.
pub mod Separation
use stumpfworks_identity.Base.{Text, any, Bool, List, [], ◌∷◌, ◌++◌, ℕ, ◌==◌}

-- A role is a string; the program knows five of them.
pub data Role : Type 0 where
  admin operator oidc_operator client_operator auditor : Role
  unknown : Text → Role

pub data Permission : Type 0 where
  dashboard_read identity_read identity_write credentials_read credentials_write : Permission
  audit_read oidc_read oidc_write oidc_sessions_read oidc_sessions_revoke : Permission
  clients_read client_updates_write system_read : Permission

-- The position of a permission in the list of all, by which two are compared.
abbrev pub rank : Permission → ℕ
rank dashboard_read = 0
rank identity_read = 1
rank identity_write = 2
rank credentials_read = 3
rank credentials_write = 4
rank audit_read = 5
rank oidc_read = 6
rank oidc_write = 7
rank oidc_sessions_read = 8
rank oidc_sessions_revoke = 9
rank clients_read = 10
rank client_updates_write = 11
rank system_read = 12

unfoldable pub all_permissions : List Permission
all_permissions =
    dashboard_read ∷ identity_read ∷ identity_write ∷ credentials_read ∷ credentials_write
    ∷ audit_read ∷ oidc_read ∷ oidc_write ∷ oidc_sessions_read ∷ oidc_sessions_revoke ∷ clients_read
    ∷ client_updates_write ∷ system_read ∷ []

unfoldable pub role_permissions : Role → List Permission
unfolding all_permissions
role_permissions admin = all_permissions
role_permissions operator =
    dashboard_read ∷ identity_read ∷ identity_write ∷ credentials_read ∷ credentials_write
    ∷ system_read ∷ []
role_permissions oidc_operator =
    dashboard_read ∷ oidc_read ∷ oidc_write ∷ oidc_sessions_read ∷ oidc_sessions_revoke
    ∷ system_read ∷ []
role_permissions client_operator =
    dashboard_read ∷ clients_read ∷ client_updates_write ∷ system_read ∷ []
role_permissions auditor =
    dashboard_read ∷ identity_read ∷ credentials_read ∷ audit_read ∷ oidc_read ∷ oidc_sessions_read
    ∷ clients_read ∷ system_read ∷ []
role_permissions (unknown name) = []

-- The union, as the list of what the loops add to the set.
unfoldable pub permissions : List Role → List Permission
permissions [] = []
permissions (role ∷ roles) = role_permissions role ++ permissions roles

unfoldable pub allowed : Permission → List Role → Bool
unfolding permissions
allowed permission roles = any (λ p. rank p == rank permission) (permissions roles)
