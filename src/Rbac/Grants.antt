-- ===== src/Rbac/Grants.antt =====
-- plugins/rbac/rbac.go: the checks of a policy against the set of pairs of a role and a permission
-- that its history of changes grants.
use golang_gin_rpc.Base.{
  ◌≡◌, refl, sym, ◌∙◌, Bool, true, false, ◌||◌, ◌&&◌, not, none, some, List, [], ◌∷◌, arith, String,
  Dict, lookup, if◌then◌else◌, contains, contains-append, ◌==◌, ==_iff, ==_self, string_eq,
  lookup-insert, keys, IsDistinct, has, contains-keys, Bool-cases, inl, inr,
}
use golang_gin_rpc.Rbac.{
  Policy, set_member, collect, set_role_permissions, permissions_of, add_permission, bind_each,
  new_policy, any_role, has_permission, has_any_permission, has_all_permissions, Change, change,
  after,
}
use golang_gin_rpc.Rbac.Change.{set_role, add}

-- Whether a role has a permission: the last setting of the role's permissions decides, with what has
-- been added since. Empty names name nothing.
unfoldable pub grants : List Change → String → String → Bool
grants [] role permission = false
grants (set_role r permissions ∷ history) role permission =
    if r == role && not (role == "")
    then contains permissions permission && not (permission == "")
    else grants history role permission
grants (add r p ∷ history) role permission =
    (r == role && p == permission && not (role == "") && not (permission == ""))
    || grants history role permission

abbrev pub any : (String → Bool) → List String → Bool
any test [] = false
any test (x ∷ xs) = test x || any test xs

abbrev pub every : (String → Bool) → List String → Bool
every test [] = true
every test (x ∷ xs) = test x && every test xs

contains-set_member :
    (permission q : String) (set : List String)
    → contains (set_member permission set) q ≡ (permission == q || contains set q)
unfolding set_member
contains-set_member permission q set =
    ground (arith, contains-append set (permission ∷ []) q, ==_iff permission q)

contains-collect :
    (set permissions : List String) (q : String)
    → contains (collect set permissions) q
      ≡ (contains set q || (contains permissions q && not (q == "")))
unfolding collect
contains-collect set [] q = ground arith
contains-collect set (permission ∷ permissions) q = ground (
  arith,
  contains-collect (if permission == "" then set else set_member permission set) permissions q,
  contains-set_member permission q set,
  ==_iff permission q,
  ==_iff permission "",
  ==_iff q "",
)

-- Whether the policy's entry of a role has a permission.
abbrev member : String → String → Policy → Bool
member role permission p = elim (lookup role p) [
  | none ↦ false
  | some set ↦ contains set permission
]

member-after :
    (history : List Change) (role permission : String)
    → member role permission (after history) ≡ grants history role permission
unfolding after grants change set_role_permissions add_permission lookup
member-after [] role permission = refl
member-after (set_role r permissions ∷ history) role permission = ground (
  arith,
  member-after history role permission,
  lookup-insert r role (collect [] permissions) (after history),
  contains-collect [] permissions permission,
  ==_iff r role,
  ==_iff r "",
  ==_iff role "",
)
member-after (add r p ∷ history) role permission = ground (
  arith,
  member-after history role permission,
  lookup-insert r role (set_member p (permissions_of (lookup r (after history)))) (after history),
  contains-set_member p permission (permissions_of (lookup r (after history))),
  ==_iff r role,
  ==_iff r "",
  ==_iff role "",
  ==_iff p permission,
  ==_iff p "",
  ==_iff permission "",
)

grants-empty : (history : List Change) (role : String) → grants history role "" ≡ false
unfolding grants
grants-empty [] role = refl
grants-empty (set_role r permissions ∷ history) role =
    ground (arith, grants-empty history role, ==_self {K = String} "")
grants-empty (add r p ∷ history) role =
    ground (arith, grants-empty history role, ==_self {K = String} "")

any_role-any :
    (roles : List String) (permission : String) (p : Policy)
    → any_role roles permission p ≡ any (λ role. member role permission p) roles
unfolding any_role
any_role-any [] permission p = refl
any_role-any (role ∷ roles) permission p = rw (any_role-any roles permission p)

any-eq : (f g : String → Bool) (xs : List String) → ((x : String) → f x ≡ g x) → any f xs ≡ any g xs
any-eq f g [] h = refl
any-eq f g (x ∷ xs) h = rw (h x, any-eq f g xs h)

any-false : (f : String → Bool) (xs : List String) → ((x : String) → f x ≡ false) → any f xs ≡ false
any-false f [] h = refl
any-false f (x ∷ xs) h = rw (h x, any-false f xs h)

has_permission-any :
    (roles : List String) (permission : String) (history : List Change)
    → has_permission roles permission (after history)
      ≡ any (λ role. grants history role permission) roles
unfolding has_permission
has_permission-any roles permission history = elim (Bool-cases (permission == "")) [
  | inl empty ↦
      rw (empty, (==_iff permission "").0 empty)
        (sym (any-false (λ role. grants history role "") roles (grants-empty history)))
  | inr named ↦
      rw (named, any_role-any roles permission (after history))
        (any-eq (λ role. member role permission (after history))
          (λ role. grants history role permission) roles
          (λ role. member-after history role permission))
]

has_any-any :
    (roles permissions : List String) (p : Policy)
    → has_any_permission roles permissions p ≡ any (λ q. has_permission roles q p) permissions
unfolding has_any_permission
has_any-any roles [] p = refl
has_any-any roles (q ∷ permissions) p = ground (arith, has_any-any roles permissions p)

has_all-every :
    (roles permissions : List String) (p : Policy)
    → has_all_permissions roles permissions p ≡ every (λ q. has_permission roles q p) permissions
unfolding has_all_permissions
has_all-every roles [] p = refl
has_all-every roles (q ∷ permissions) p = ground (arith, has_all-every roles permissions p)

every-eq :
    (f g : String → Bool) (xs : List String) → ((x : String) → f x ≡ g x) → every f xs ≡ every g xs
every-eq f g [] h = refl
every-eq f g (x ∷ xs) h = rw (h x, every-eq f g xs h)

-- After any history of SetRolePermissions and AddPermission, the three checks answer what the set of
-- granted pairs says: HasPermission, whether one of the roles is granted the permission;
-- HasAnyPermission, whether one of the permissions is granted so; HasAllPermissions, whether each of
-- them is. Setting the permissions of a role forgets its earlier ones, and an empty name of a role or
-- a permission is granted nothing.
pub checks-grants :
    (history : List Change) (roles : List String)
    → ((permission : String)
        → has_permission roles permission (after history)
          ≡ any (λ role. grants history role permission) roles)
      × ((permissions : List String)
          → has_any_permission roles permissions (after history)
            ≡ any (λ permission. any (λ role. grants history role permission) roles) permissions)
      × ((permissions : List String)
          → has_all_permissions roles permissions (after history)
            ≡ every (λ permission. any (λ role. grants history role permission) roles) permissions)
checks-grants history roles =
    let one : (q : String)
        → has_permission roles q (after history) ≡ any (λ role. grants history role q) roles =
      λ q. has_permission-any roles q history in
    let granted = λ (q : String). any (λ role. grants history role q) roles in
    let checked = λ (q : String). has_permission roles q (after history) in
    (
      one,
      λ qs. has_any-any roles qs (after history) ∙ any-eq checked granted qs one,
      λ qs. has_all-every roles qs (after history) ∙ every-eq checked granted qs one,
    )

-- What the bindings of a role give it.
abbrev pub bound : String → String → Dict String (List String) → Bool
bound role permission bindings = elim (lookup role bindings) [
  | none ↦ false
  | some permissions ↦ contains permissions permission && not (role == "")
]

member-bind_each :
    (bindings : Dict String (List String)) (p : Policy) (role permission : String)
    → IsDistinct (keys bindings)
    → not (permission == "") ≡ true
    → member role permission (bind_each bindings p) ≡ (
        if has role bindings && not (role == "")
        then bound role permission bindings
        else member role permission p)
unfolding bind_each set_role_permissions lookup
member-bind_each [] p role permission d named = refl
member-bind_each ((r, permissions) ∷ bindings) p role permission d named = ground (
  arith,
  member-bind_each bindings (set_role_permissions r permissions p) role permission d.1 named,
  lookup-insert r role (collect [] permissions) p,
  contains-collect [] permissions permission,
  contains-keys r bindings,
  ==_iff r role,
  ==_iff r "",
  ==_iff role "",
)

-- NewPolicy grants what its bindings say and no more, in whichever order Go visits them: each role
-- that has a name is bound once, and HasPermission answers whether one of the given roles is bound
-- to a list that has the permission. An empty permission is never granted.
pub new_policy-bound :
    (bindings : Dict String (List String)) (roles : List String) (permission : String)
    → IsDistinct (keys bindings)
    → has_permission roles permission (new_policy bindings)
      ≡ (if permission == "" then false else any (λ role. bound role permission bindings) roles)
unfolding has_permission new_policy lookup
new_policy-bound bindings roles permission d = elim (Bool-cases (permission == "")) [
  | inl empty ↦ rw empty
  | inr named ↦
      rw (named, any_role-any roles permission (bind_each bindings []))
        (any-eq (λ role. member role permission (bind_each bindings []))
          (λ role. bound role permission bindings) roles (λ role. role_bound role named))
]
  where
    role_bound :
        (role : String)
        → (permission == "") ≡ false
        → member role permission (bind_each bindings []) ≡ bound role permission bindings
    role_bound role named =
        let h : not (permission == "") ≡ true = rw named in
        ground (arith, member-bind_each bindings [] role permission d h)
