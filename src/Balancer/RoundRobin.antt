-- ===== src/Balancer/RoundRobin.antt =====
-- plugins/loadbalancer/factory.go: how the round robin shares the selections out.
use golang_gin_rpc.Base.{
  ℕ, zero, suc, ◌+◌, ◌*◌, ◌%◌, ◌≤◌, ◌<◌, ◌≡◌, refl, sym, ◌∙◌, ap, ap₂, none, some, List, [], ◌∷◌,
  ◌++◌, arith, nat_eq, length, length-append, get_elem?, u64,
}
use mathlib.Core.List.{append_assoc}
use golang_gin_rpc.Base.Count.{count, count-append}
use golang_gin_rpc.Balancer.{
  Store, Balancer, Selected, target, failed, panicked, at_index, healthy_targets,
  select_round_robin,
}

-- The target, where the selection returns one.
abbrev pub chosen_by : Selected → List ℕ
chosen_by (target p) = p ∷ []
chosen_by (failed e) = []
chosen_by panicked = []

-- The targets that a number of selections in a row return.
unfoldable pub chosen : ℕ → Store → Balancer → List ℕ
chosen zero store lb = []
chosen (suc k) store lb =
    chosen_by (select_round_robin store lb).1 ++ chosen k store (select_round_robin store lb).0

abbrev at_list : List ℕ → ℕ → List ℕ
at_list targets i = elim (get_elem? targets i) [ none ↦ [] | some p ↦ p ∷ [] ]

-- The targets at the indices from one on, modulo a number.
walk : List ℕ → ℕ → ℕ → ℕ → List ℕ
walk targets n c zero = []
walk targets n c (suc k) = at_list targets (c % n) ++ walk targets n (c + 1) k

chosen_by-at_index : (targets : List ℕ) (i : ℕ) → chosen_by (at_index targets i) ≡ at_list targets i
chosen_by-at_index targets i = ground arith

abbrev moved : Balancer → Balancer
moved lb = record lb { current = u64 (lb.current + 1) }

select_lem :
    (p : ℕ) (rest : List ℕ) (store : Store) (lb : Balancer)
    → healthy_targets store lb ≡ p ∷ rest
    → select_round_robin store lb ≡ (moved lb, at_index (p ∷ rest) (lb.current % length (p ∷ rest)))
unfolding select_round_robin
select_lem p rest store lb h = rw (h, select_round_robin)

healthy_targets-moved :
    (store : Store) (lb : Balancer) → healthy_targets store (moved lb) ≡ healthy_targets store lb
unfolding healthy_targets
healthy_targets-moved store lb = refl

chosen-walk :
    (k : ℕ) (p : ℕ) (rest : List ℕ) (store : Store) (lb : Balancer)
    → healthy_targets store lb ≡ p ∷ rest
    → lb.current + k ≤ 18446744073709551616
    → chosen k store lb ≡ walk (p ∷ rest) (length (p ∷ rest)) lb.current k
unfolding chosen walk
chosen-walk zero p rest store lb h b = refl
chosen-walk (suc zero) p rest store lb h b =
    rw (select_lem p rest store lb h)
      (ap (λ l. l ++ []) (chosen_by-at_index (p ∷ rest) (lb.current % length (p ∷ rest))))
chosen-walk (suc (suc k)) p rest store lb h b =
    let e : u64 (lb.current + 1) ≡ lb.current + 1 = omega arith in
    rw (select_lem p rest store lb h) (
      ap₂ (λ l r. l ++ r) (chosen_by-at_index (p ∷ rest) (lb.current % length (p ∷ rest)))
        (chosen-walk (suc k) p rest store (moved lb) (healthy_targets-moved store lb ∙ h)
            (omega arith)
          ∙ ap (λ (c : ℕ). walk (p ∷ rest) (length (p ∷ rest)) c (suc k)) e))

count-walk-add :
    (v : ℕ) (targets : List ℕ) (n c j k : ℕ)
    → count v (walk targets n c (j + k))
      ≡ count v (walk targets n c j) + count v (walk targets n (c + j) k)
unfolding walk
count-walk-add v targets n c zero k = ground arith
count-walk-add v targets n c (suc j) k =
    let e : suc j + k ≡ suc (j + k) = omega arith in
    let d : c + suc j ≡ c + 1 + j = omega arith in
    rw
      (
        e,
        d,
        count-append v (at_list targets (c % n)) (walk targets n (c + 1) (j + k)),
        count-append v (at_list targets (c % n)) (walk targets n (c + 1) j),
        count-walk-add v targets n (c + 1) j k,
      )
      (omega arith)

one_step :
    (v : ℕ) (targets : List ℕ) (n c : ℕ)
    → 0 < n
    → count v (walk targets n (c + n) 1) ≡ count v (walk targets n c 1)
unfolding walk
one_step v targets n c h = let e : (c + n) % n ≡ c % n = grind arith in rw e

count-walk-shift :
    (v : ℕ) (targets : List ℕ) (n c : ℕ)
    → 0 < n
    → count v (walk targets n (c + 1) n) ≡ count v (walk targets n c n)
count-walk-shift v targets n c h =
    let e : n + 1 ≡ 1 + n = omega arith in
    omega (
      arith,
      sym (count-walk-add v targets n c n 1)
          ∙ ap (λ (k : ℕ). count v (walk targets n c k)) e
          ∙ count-walk-add v targets n c 1 n,
      one_step v targets n c h,
    )

get_elem-append :
    (before : List ℕ) (x : ℕ) (rest : List ℕ)
    → get_elem? (before ++ x ∷ rest) (length before) ≡ some x
get_elem-append [] x rest = refl
get_elem-append (y ∷ before) x rest = get_elem-append before x rest

walk_suffix :
    (targets before rest : List ℕ)
    → targets ≡ before ++ rest
    → walk targets (length targets) (length before) (length rest) ≡ rest
unfolding walk
walk_suffix targets before [] e = refl
walk_suffix targets before (x ∷ rest) e =
    let lt : length before < length targets =
      rw e (omega (arith, length-append {0} before (x ∷ rest))) in
    let i : length before % length targets ≡ length before = grind arith in
    let n : length before + 1 ≡ length (before ++ x ∷ []) =
      omega (arith, length-append {0} before (x ∷ [])) in
    let found : get_elem? targets (length before) ≡ some x = rw e (get_elem-append before x rest) in
    rw (i, found, n, at_list)
      (ap (λ l. x ∷ l)
        (walk_suffix targets (before ++ x ∷ []) rest (e ∙ sym (append_assoc before (x ∷ []) rest))))

count-round :
    (v : ℕ) (targets : List ℕ) (c : ℕ)
    → 0 < length targets
    → count v (walk targets (length targets) c (length targets)) ≡ count v targets
count-round v targets zero h = ap (count v) (walk_suffix targets [] targets refl)
count-round v targets (suc c) h =
    let e : suc c ≡ c + 1 = omega arith in
    rw e (count-walk-shift v targets (length targets) c h ∙ count-round v targets c h)

count-rounds :
    (v : ℕ) (targets : List ℕ) (m c : ℕ)
    → 0 < length targets
    → count v (walk targets (length targets) c (m * length targets)) ≡ m * count v targets
unfolding walk
count-rounds v targets zero c h = ground arith
count-rounds v targets (suc m) c h =
    let n = length targets in
    let e : suc m * n ≡ n + m * n = grind arith in
    let d : suc m * count v targets ≡ count v targets + m * count v targets = grind arith in
    rw (e, d, count-walk-add v targets n c n (m * n))
      (omega (arith, count-round v targets c h, count-rounds v targets m (c + n) h))

rounds_of :
    (targets : List ℕ) (m : ℕ) (store : Store) (lb : Balancer)
    → healthy_targets store lb ≡ targets
    → 0 < length targets
    → lb.current + m * length targets ≤ 18446744073709551616
    → (v : ℕ) → count v (chosen (m * length targets) store lb) ≡ m * count v targets
rounds_of [] m store lb e h b v = absurd (omega arith)
rounds_of (p ∷ rest) m store lb e h b v =
    rw (chosen-walk (m * length (p ∷ rest)) p rest store lb e b)
      (count-rounds v (p ∷ rest) m lb.current h)

-- The round robin is fair: while the health of the targets stays as it is, any number m of full
-- rounds of selections, begun at any count of the selections before, returns each target m times for
-- each time that it stands among the healthy ones (all of them, where health is not checked), and so
-- never an error or an unhealthy target. The counter, of 64 bits, does not wrap within these rounds.
pub chosen-rounds :
    (m : ℕ) (store : Store) (lb : Balancer)
    → 0 < length (healthy_targets store lb)
    → lb.current + m * length (healthy_targets store lb) ≤ 18446744073709551616
    → (v : ℕ)
    → count v (chosen (m * length (healthy_targets store lb)) store lb)
      ≡ m * count v (healthy_targets store lb)
chosen-rounds m store lb h b v = rounds_of (healthy_targets store lb) m store lb refl h b v
