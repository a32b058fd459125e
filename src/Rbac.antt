-- ===== src/Rbac.antt =====
-- plugins/rbac/rbac.go: which permissions the roles of a policy have. A set of permissions is the
-- list of its members.
pub mod Grants
mod Tests
use golang_gin_rpc.Base.{
  ◌≡◌, Bool, true, false, ◌||◌, Option, none, some, List, [], ◌∷◌, ◌++◌, String, Dict, lookup,
  insert, has, if◌then◌else◌, contains, ◌==◌, string_eq,
}

abbrev pub Policy : Type 0
Policy = Dict String (List String)

-- `set[perm] = struct{}{}`.
unfoldable pub set_member : String → List String → List String
set_member permission set = if contains set permission then set else set ++ permission ∷ []

-- The loop of `SetRolePermissions`.
unfoldable pub collect : List String → List String → List String
collect set [] = set
collect set (permission ∷ permissions) =
    collect (if permission == "" then set else set_member permission set) permissions

unfoldable pub set_role_permissions : String → List String → Policy → Policy
set_role_permissions role permissions p =
    if role == "" then p else insert role (collect [] permissions) p

-- `p.rolePerm[role]`, made where it is missing.
abbrev pub permissions_of : Option (List String) → List String
permissions_of none = []
permissions_of (some set) = set

unfoldable pub add_permission : String → String → Policy → Policy
add_permission role permission p =
    if role == "" || permission == ""
    then p
    else insert role (set_member permission (permissions_of (lookup role p))) p

-- `NewPolicy`: the bindings in the order in which Go visits them.
unfoldable pub bind_each : Dict String (List String) → Policy → Policy
bind_each [] p = p
bind_each ((role, permissions) ∷ bindings) p =
    bind_each bindings (set_role_permissions role permissions p)

unfoldable pub new_policy : Dict String (List String) → Policy
new_policy bindings = bind_each bindings []

-- The loop of `HasPermission`.
unfoldable pub any_role : List String → String → Policy → Bool
any_role [] permission p = false
any_role (role ∷ roles) permission p =
    elim (lookup role p) [ none ↦ false | some set ↦ contains set permission ]
    || any_role roles permission p

unfoldable pub has_permission : List String → String → Policy → Bool
has_permission roles permission p = if permission == "" then false else any_role roles permission p

unfoldable pub has_any_permission : List String → List String → Policy → Bool
has_any_permission roles [] p = false
has_any_permission roles (permission ∷ permissions) p =
    if has_permission roles permission p then true else has_any_permission roles permissions p

unfoldable pub has_all_permissions : List String → List String → Policy → Bool
has_all_permissions roles [] p = true
has_all_permissions roles (permission ∷ permissions) p =
    if has_permission roles permission p then has_all_permissions roles permissions p else false

-- A call that changes the policy.
pub data Change : Type 0 where
  set_role : String → List String → Change
  add : String → String → Change

unfoldable pub change : Change → Policy → Policy
change (set_role role permissions) p = set_role_permissions role permissions p
change (add role permission) p = add_permission role permission p

-- A history of changes, the latest first, of a policy that starts without roles.
unfoldable pub after : List Change → Policy
after [] = []
after (c ∷ history) = change c (after history)
