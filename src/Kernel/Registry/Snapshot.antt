-- ===== src/Kernel/Registry/Snapshot.antt =====
-- What a registry holds after a series of registrations.
use golang_gin_rpc.Base.{
  ◌≡◌, refl, sym, ap, ◌∙◌, Bool, true, false, ◌||◌, some, List, [], ◌∷◌, ◌++◌, map, arith, String,
  ◌==◌, ==_iff, string_eq, Dict, lookup, insert, has, lookup-insert, lookup-insert_self, ap₂,
  contains, contains-append, Bool-cases, inl, inr,
}
use mathlib.Core.List.{append_assoc, append-nil}
use golang_gin_rpc.Kernel.Registry.{
  Plugin, Registry, new_registry, register, plugins, plugins_in_order,
}

-- The registrations one after another.
pub register_all : Registry → List Plugin → Registry
register_all r [] = r
register_all r (p ∷ ps) = register_all (register r (some p)).0 ps

-- The plugins with a name that is not empty and that no earlier one has.
abbrev pub first_of_each : List String → List Plugin → List Plugin
first_of_each seen [] = []
first_of_each seen (p ∷ ps) = elim (p.name == "" || contains seen p.name) [
  | true ↦ first_of_each seen ps
  | false ↦ p ∷ first_of_each (seen ++ (p.name ∷ [])) ps
]

-- The order lists the names of the map.
abbrev IsListed : Registry → Type 0
IsListed r = (k : String) → has k r.plugins ≡ contains r.order k

in_order-insert :
    (k : String) (p : Plugin) (names : List String) (m : Dict String Plugin)
    → contains names k ≡ false
    → plugins_in_order names (insert k p m) ≡ plugins_in_order names m
in_order-insert k p [] m h = refl
in_order-insert k p (x ∷ names) m h =
    ground (arith, in_order-insert k p names m, lookup-insert k x p m, ==_iff k x, ==_iff x k)

in_order-append :
    (xs ys : List String) (m : Dict String Plugin)
    → plugins_in_order (xs ++ ys) m ≡ plugins_in_order xs m ++ plugins_in_order ys m
in_order-append [] ys m = refl
in_order-append (x ∷ xs) ys m = ap (◌∷◌ (lookup x m)) (in_order-append xs ys m)

abbrev refused : Registry → Plugin → Bool
refused r p = p.name == "" || contains r.order p.name

register-refused :
    (r : Registry) (p : Plugin) → IsListed r → refused r p ≡ true → (register r (some p)).0 ≡ r
unfolding register
register-refused r p l h = ground (arith, l p.name)

register-accepted :
    (r : Registry) (p : Plugin)
    → IsListed r
    → refused r p ≡ false
    → (register r (some p)).0
      ≡ record { plugins = insert p.name p r.plugins; order = r.order ++ (p.name ∷ []) }
unfolding register
register-accepted r p l h = ground (arith, l p.name)

accepted-IsListed :
    (r : Registry) (p : Plugin)
    → IsListed r
    → IsListed (record { plugins = insert p.name p r.plugins; order = r.order ++ (p.name ∷ []) })
accepted-IsListed r p l k =
    ground (arith, l k, lookup-insert p.name k p r.plugins, contains-append r.order (p.name ∷ []) k)

one_more :
    (r : Registry) (p : Plugin)
    → contains r.order p.name ≡ false
    → plugins_in_order (r.order ++ (p.name ∷ [])) (insert p.name p r.plugins)
      ≡ plugins_in_order r.order r.plugins ++ (some p ∷ [])
one_more r p h =
    in_order-append r.order (p.name ∷ []) (insert p.name p r.plugins)
    ∙ ap₂ (λ x y. x ++ (y ∷ [])) (in_order-insert p.name p r.order r.plugins h)
        (lookup-insert_self p.name p r.plugins)

snapshot :
    (r : Registry) (ps : List Plugin)
    → IsListed r
    → plugins (register_all r ps) ≡ plugins r ++ map some (first_of_each r.order ps)
unfolding register_all plugins
snapshot r [] l = sym (append-nil _)
snapshot r (p ∷ ps) l = elim (Bool-cases (refused r p)) [
  | inl no_change ↦
      rw (no_change, first_of_each)
        (ap (λ x. plugins_in_order x.order x.plugins)
            (ap (λ x. register_all x ps) (register-refused r p l no_change))
          ∙ snapshot r ps l)
  | inr adds ↦
      rw (adds, first_of_each)
        (ap (λ x. plugins_in_order x.order x.plugins)
            (ap (λ x. register_all x ps) (register-accepted r p l adds))
          ∙ snapshot
              (record { plugins = insert p.name p r.plugins; order = r.order ++ (p.name ∷ []) }) ps
              (accepted-IsListed r p l)
          ∙ ap (λ x. x ++ map some (first_of_each (r.order ++ (p.name ∷ [])) ps))
              (one_more r p (ground arith))
          ∙ append_assoc (plugins_in_order r.order r.plugins) (some p ∷ []) _)
]

-- The plugins of a registry, after any registrations on a new one, in the order of registration:
-- of each name that is not empty the plugin that was registered first. No entry is nil.
pub registered_order :
    (ps : List Plugin) → plugins (register_all new_registry ps) ≡ map some (first_of_each [] ps)
unfolding plugins lookup
registered_order ps = snapshot new_registry ps (λ k. refl)
