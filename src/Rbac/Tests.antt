-- ===== src/Rbac/Tests.antt =====
-- The policy on concrete inputs.
use golang_gin_rpc.Base.{◌≡◌, List, [], ◌∷◌, String, string_eq}
use golang_gin_rpc.Rbac.{Change, has_permission, has_any_permission, has_all_permissions, after}
use golang_gin_rpc.Rbac.Change.{set_role, add}
use golang_gin_rpc.Rbac.Grants.{grants, any, every, checks-grants}

-- The latest first: the editor's permissions are set, one is added, and the guest has one of his own.
abbrev history : List Change
history =
    add "guest" "read" ∷ add "editor" "publish" ∷ set_role "editor" ("read" ∷ "write" ∷ []) ∷ []

checks-grants_example :
    ((permission : String)
      → has_permission ("guest" ∷ "editor" ∷ []) permission (after history)
        ≡ any (λ role. grants history role permission) ("guest" ∷ "editor" ∷ []))
    × ((permissions : List String)
        → has_any_permission ("guest" ∷ "editor" ∷ []) permissions (after history)
          ≡ any
              (λ permission. any (λ role. grants history role permission) ("guest" ∷ "editor" ∷ []))
              permissions)
    × ((permissions : List String)
        → has_all_permissions ("guest" ∷ "editor" ∷ []) permissions (after history)
          ≡ every
              (λ permission. any (λ role. grants history role permission) ("guest" ∷ "editor" ∷ []))
              permissions)
checks-grants_example = checks-grants history ("guest" ∷ "editor" ∷ [])
