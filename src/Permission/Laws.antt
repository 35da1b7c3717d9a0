-- ===== src/Permission/Laws.antt =====
-- What the three permission levels allow.
use Prim.Native.Nat.{ℕ, ◌≤◌, ◌<◌}
use omnibase.Prelude.{◌≡◌, ◌↔◌, true, arith}
use omnibase.Text.{Text}
use omnibase.Types.{
  PermissionLevel, read_only, read_write, admin, QueryCategory, read, write, ddl, permission_denied,
}
use omnibase.Exec.{ok, err}
use omnibase.Permission.{allows, enforce_permission}

-- How much a category of statement may change.
abbrev pub category_rank : QueryCategory → ℕ
category_rank read = 0
category_rank write = 1
category_rank ddl = 2

-- How much a level lets through.
abbrev pub level_rank : PermissionLevel → ℕ
level_rank read_only = 0
level_rank read_write = 1
level_rank admin = 2

-- A statement passes the check exactly when its category ranks no higher than the level, and
-- otherwise the refusal names the connection, the level and the category.
pub enforce_permission_iff :
    (name : Text) (level : PermissionLevel) (category : QueryCategory)
    → ((enforce_permission name level category ≡ ok tt)
        ↔ (category_rank category ≤ level_rank level))
      × ((enforce_permission name level category ≡ err (permission_denied name level category))
          ↔ (level_rank level < category_rank category))
unfolding enforce_permission
enforce_permission_iff name read_only read = ground arith
enforce_permission_iff name read_only write = ground arith
enforce_permission_iff name read_only ddl = ground arith
enforce_permission_iff name read_write read = ground arith
enforce_permission_iff name read_write write = ground arith
enforce_permission_iff name read_write ddl = ground arith
enforce_permission_iff name admin read = ground arith
enforce_permission_iff name admin write = ground arith
enforce_permission_iff name admin ddl = ground arith

pub allows_of_enforce_permission :
    (name : Text) (level : PermissionLevel) (category : QueryCategory)
    → enforce_permission name level category ≡ ok tt
    → allows level category ≡ true
unfolding enforce_permission
allows_of_enforce_permission name level category h = ground arith
