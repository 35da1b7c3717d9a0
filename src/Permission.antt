-- ===== src/Permission.antt =====
-- src/permission-enforcer.ts
pub mod Laws
use omnibase.Prelude.{Bool, true, false, ◌||◌, List, [], ◌∷◌, any, if◌then◌else◌}
use omnibase.Text.{Text}
use omnibase.Types.{
  PermissionLevel, read_only, read_write, admin, QueryCategory, read, write, ddl, permission_denied,
}
use omnibase.Exec.{Result, ok, err}

abbrev same_category : QueryCategory → QueryCategory → Bool
same_category read read = true
same_category write write = true
same_category ddl ddl = true
same_category _ _ = false

unfoldable pub permission_hierarchy : PermissionLevel → List QueryCategory
permission_hierarchy read_only = read ∷ []
permission_hierarchy read_write = read ∷ write ∷ []
permission_hierarchy admin = read ∷ write ∷ ddl ∷ []

-- `allowed.has(queryCategory)`
unfoldable pub allows : PermissionLevel → QueryCategory → Bool
unfolding permission_hierarchy
allows level category = any (same_category category) (permission_hierarchy level)

unfoldable pub enforce_permission : Text → PermissionLevel → QueryCategory → Result (Unit {0})
unfolding allows
enforce_permission name level category =
    if allows level category then ok tt else err (permission_denied name level category)
