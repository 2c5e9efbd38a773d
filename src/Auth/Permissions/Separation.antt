-- ===== src/Auth/Permissions/Separation.antt =====
-- Which permissions a set of roles grants, and which no combination of the limited roles does.
use stumpfworks_identity.Base.{
  any, Bool, true, false, List, [], ◌∷◌, ◌++◌, ◌≡◌, refl, ◌==◌, ◌||◌, arith, ◌∙◌,
}
use stumpfworks_identity.Auth.Permissions.{
  admin, operator, oidc_operator, client_operator, identity_write, credentials_write, oidc_write,
  oidc_sessions_revoke, client_updates_write, all_permissions, Role, Permission, rank,
  role_permissions, permissions, allowed,
}

-- Whether one role lists the permission.
unfoldable pub grants : Permission → Role → Bool
grants permission role = any (λ p. rank p == rank permission) (role_permissions role)

any-append {ℓ} :
    {A : Type ℓ} (p : A → Bool) (xs ys : List A) → any p (xs ++ ys) ≡ (any p xs || any p ys)
unfolding any
any-append p [] ys = refl
any-append p (x ∷ xs) ys = ground (arith, any-append p xs ys)

-- A permission is allowed exactly when one of the roles lists it.
pub allowed-any :
    (permission : Permission) (roles : List Role)
    → allowed permission roles ≡ any (grants permission) roles
unfolding allowed grants any
allowed-any permission [] = refl
allowed-any permission (role ∷ roles) =
    any-append (λ p. rank p == rank permission) (role_permissions role) (permissions roles)
    ∙ ground (arith, allowed-any permission roles)

-- The permissions to change something, and the one role besides admin whose duty each is.
unfoldable pub writes : Permission → Bool
writes permission =
    any (λ p. rank p == rank permission)
      (identity_write ∷ credentials_write ∷ oidc_write ∷ oidc_sessions_revoke ∷ client_updates_write
        ∷ [])

unfoldable pub has_duty : Permission → Role → Bool
has_duty identity_write operator = true
has_duty credentials_write operator = true
has_duty oidc_write oidc_operator = true
has_duty oidc_sessions_revoke oidc_operator = true
has_duty client_updates_write client_operator = true
has_duty permission admin = true
has_duty permission role = false

any-cong {ℓ} :
    {A : Type ℓ} (p q : A → Bool) (xs : List A) → ((x : A) → p x ≡ q x) → any p xs ≡ any q xs
unfolding any
any-cong p q [] e = refl
any-cong p q (x ∷ xs) e = ground (arith, e x, any-cong p q xs e)

grants-has_duty :
    (permission : Permission) (role : Role)
    → writes permission ≡ true
    → grants permission role ≡ has_duty permission role
unfolding writes grants has_duty role_permissions any all_permissions
grants-has_duty permission role h = ground arith

-- To change something is allowed exactly when one of the roles is admin or the one role whose duty
-- it is: users and credentials are for operator, OIDC for oidc_operator, updates for
-- client_operator. An auditor changes nothing.
pub allowed-has_duty :
    (permission : Permission) (roles : List Role)
    → writes permission ≡ true
    → allowed permission roles ≡ any (has_duty permission) roles
allowed-has_duty permission roles h =
    allowed-any permission roles
    ∙ any-cong (grants permission) (has_duty permission) roles
        (λ role. grants-has_duty permission role h)
