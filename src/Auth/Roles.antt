-- ===== src/Auth/Roles.antt =====
-- internal/auth/auth.go, roles: the RBAC matrix. A role is a string, and the rank of one that the map
-- does not name is Go's zero, that of `readonly`.
use ovcp.Base.{ℕ, ◌≡◌, ◌⊎◌, Bool, true, ◌||◌, arith, leb, if◌then◌else◌, Text, codes, text_eq}

abbrev pub role_admin : Text
role_admin = codes "admin"

abbrev pub role_operator : Text
role_operator = codes "operator"

abbrev pub role_readonly : Text
role_readonly = codes "readonly"

unfoldable pub rank : Text → ℕ
rank r = if text_eq r role_admin then 2 else if text_eq r role_operator then 1 else 0

unfoldable pub can : Text → Text → Bool
unfolding rank
can r required = leb (rank required) (rank r)

unfoldable pub valid_role : Text → Bool
valid_role s = text_eq s role_admin || text_eq s role_operator || text_eq s role_readonly

-- Permissions nest: whatever a role may do, each role that may do that role's work may do too.
pub can_trans : (a b c : Text) → can a b ≡ true → can b c ≡ true → can a c ≡ true
unfolding can
can_trans a b c h k = ground arith

-- Of two valid roles one may do the other's work, and two that may do each other's work are one.
pub can_order :
    (a b : Text)
    → valid_role a ≡ true
    → valid_role b ≡ true
    → ((can a b ≡ true) ⊎ (can b a ≡ true)) × (can a b ≡ true → can b a ≡ true → a ≡ b)
unfolding can valid_role
can_order a b h k = (ground arith, λ p q. ground arith)
