-- ===== src/Canister/Upgrade/Tables.antt =====
-- Proofs about tables without a repeated key, and about the loops of the canister that write them.
use yaqeen_stark_winterfell.Prelude.{
  zero, suc, ℕ, ◌+◌, ◌/◌, refl, ap, sym, ◌∙◌, Option, none, some, List, [], ◌∷◌, nat_eq, pair_eq,
  PartialEq, ◌==◌, Bool-cases, inl, inr, Option-cases, arith,
}
use yaqeen_stark_winterfell.Prelude.Map.{Map, get, insert, remove, get-insert, get-remove}
use yaqeen_stark_winterfell.Prelude.Words.{ltb_i64, sub64}
use yaqeen_stark_winterfell.Field.{FieldOps}
use yaqeen_stark_winterfell.Canister.State.{Record, Principals, principal_eq, throttle_retention_ns}
use yaqeen_stark_winterfell.Canister.Tree.{node_in, sibling_index, parent, climb}
use yaqeen_stark_winterfell.Canister.Throttle.{check_and_update_throttle, evict, prune_throttle_log}
use yaqeen_stark_winterfell.Canister.Upgrade.RoundTrip.{HasDistinctKeys, HasOwnKeys}

module _ {ℓ κ} {K : Type ℓ} {V : Type κ} ⦃e : PartialEq K⦄ where
  pub insert-HasDistinctKeys :
      (m : Map K V) (k : K) (v : V) → HasDistinctKeys m → HasDistinctKeys (insert m k v)
  unfolding insert get
  insert-HasDistinctKeys [] k v d = (refl, tt)
  insert-HasDistinctKeys ((j, w) ∷ m) k v (h, d) = elim (Bool-cases (j == k)) [
    | inl same ↦ rw same (ap (get m) (sym ((e.eq_iff j k).0 same)) ∙ h, d)
    | inr other ↦ rw other (
      ground (arith, get-insert m k v j, e.eq_iff k j, e.eq_iff j k),
      insert-HasDistinctKeys m k v d,
    )
  ]

  pub remove-HasDistinctKeys :
      (m : Map K V) (k : K) → HasDistinctKeys m → HasDistinctKeys (remove m k)
  unfolding remove
  remove-HasDistinctKeys [] k d = tt
  remove-HasDistinctKeys ((j, w) ∷ m) k (h, d) = elim (Bool-cases (j == k)) [
    | inl same ↦ rw same (remove-HasDistinctKeys m k d)
    | inr other ↦ rw other (ground (arith, get-remove m k j), remove-HasDistinctKeys m k d)
  ]

pub insert-HasOwnKeys :
    (m : Map ℕ Record) (r : Record) → HasOwnKeys m → HasOwnKeys (insert m r.property_id r)
unfolding insert
insert-HasOwnKeys [] r own = (refl, tt)
insert-HasOwnKeys ((k, r') ∷ m) r (own, rest) = elim (Bool-cases (k == r.property_id)) [
  | inl same ↦ rw same (refl, rest)
  | inr other ↦ rw other (own, insert-HasOwnKeys m r rest)
]

module _ {F : Type 0} ⦃o : FieldOps F⦄ where
  -- The nodes that a climb leaves, if it does not panic.
  abbrev pub LeavesTable : Option (Map (ℕ × ℕ) F × F) → Type 0
  LeavesTable none = Unit
  LeavesTable (some (nodes, root)) = HasDistinctKeys nodes

  pub climb-LeavesTable :
      (zs : List F) (n level idx : ℕ) (cur : F) (nodes : Map (ℕ × ℕ) F)
      → HasDistinctKeys nodes
      → LeavesTable (climb zs n level idx cur nodes)
  unfolding climb
  climb-LeavesTable zs zero level idx cur nodes d = d
  climb-LeavesTable zs (suc n) level idx cur nodes d =
      elim (Option-cases (node_in zs nodes level (sibling_index idx))) [
        | inl e ↦ rw (e, climb) tt
        | inr (sibling, e) ↦
            let up : F = parent idx cur sibling in
            rw (e, climb)
              (climb-LeavesTable zs n (level + 1) (idx / 2) up
                (insert nodes (level + 1, idx / 2) up)
                (insert-HasDistinctKeys nodes (level + 1, idx / 2) up d))
      ]

module _ {P : Type 0} ⦃p : Principals P⦄ where
  pub check_and_update_throttle-HasDistinctKeys :
      (store : Map P ℕ) (log : List (P × ℕ)) (caller : P) (now_ns : ℕ)
      → HasDistinctKeys store
      → HasDistinctKeys (check_and_update_throttle store log caller now_ns).1
  unfolding check_and_update_throttle
  check_and_update_throttle-HasDistinctKeys store log caller now_ns d =
      ground (arith, insert-HasDistinctKeys store caller now_ns d)

  evict-HasDistinctKeys :
      (store : Map P ℕ) (who : P) (ts : ℕ)
      → HasDistinctKeys store
      → HasDistinctKeys (evict store who ts)
  unfolding evict
  evict-HasDistinctKeys store who ts d = ground (arith, remove-HasDistinctKeys store who d)

  pub prune_throttle_log-HasDistinctKeys :
      (store : Map P ℕ) (log : List (P × ℕ)) (now_ns n : ℕ)
      → HasDistinctKeys store
      → HasDistinctKeys (prune_throttle_log store log now_ns n).0
  unfolding prune_throttle_log
  prune_throttle_log-HasDistinctKeys store log now_ns zero d = d
  prune_throttle_log-HasDistinctKeys store [] now_ns (suc n) d = d
  prune_throttle_log-HasDistinctKeys store ((who, ts) ∷ log) now_ns (suc n) d =
      elim (Bool-cases (ltb_i64 (sub64 now_ns ts) throttle_retention_ns)) [
        | inl young ↦ rw young d
        | inr old ↦ rw old (
            prune_throttle_log-HasDistinctKeys (evict store who ts) log now_ns n
              (evict-HasDistinctKeys store who ts d))
      ]
