-- ===== src/Examples/Accounts.antt =====
-- The theorems on the allow-list and the registry at concrete accounts and records.
use yaqeen_stark_winterfell.Prelude.{
  ℕ, ◌<◌, ◌≡◌, ◌≢◌, refl, Bool, true, false, some, List, [], ◌∷◌, if◌then◌else◌, nat_eq, nat_beq,
  length, contains, arith,
}
use yaqeen_stark_winterfell.Prelude.Map.{get}
use yaqeen_stark_winterfell.Harness.{recompute_root}
use yaqeen_stark_winterfell.Canister.Outcome.{ok}
use yaqeen_stark_winterfell.Canister.Text.{parse_fe, fe_to_string}
use yaqeen_stark_winterfell.Canister.State.{State, Record, MerkleProof, fresh_state}
use yaqeen_stark_winterfell.Canister.Admin.{is_admin, remove_admin_impl, add_admin_impl}
use yaqeen_stark_winterfell.Canister.Admin.Laws.{
  HasDistinctAdmins, remove_admin_impl-nonempty, remove_admin_impl_lem, add_admin_impl_lem,
}
use yaqeen_stark_winterfell.Canister.Tree.{
  leaf_hash, submit_record_impl, get_merkle_proof_impl, insert_leaf, with_path,
}
use yaqeen_stark_winterfell.Prover.Tree.{tree_root, tree_insert, tree_proof}
use yaqeen_stark_winterfell.Prover.Mirror.{tree_mirrors, tree_of, tree_after, printed}
use yaqeen_stark_winterfell.Canister.Tree.Registry.{IsRegistry, capacity, fresh-IsRegistry}
use yaqeen_stark_winterfell.Canister.Tree.Submit.{Submitted, submit_record_impl_lem}
use yaqeen_stark_winterfell.Canister.Tree.Proof.{parse_all, get_merkle_proof_impl_lem}
use yaqeen_stark_winterfell.Examples.Instances.{bits, bits-Encoding, accounts, issued, deed}

distinct : HasDistinctAdmins issued
unfolding contains
distinct = (refl, (refl, tt))

remove_admin_impl-nonempty_example : 0 < length (remove_admin_impl issued 5 5).1.admins
remove_admin_impl-nonempty_example = remove_admin_impl-nonempty issued distinct 5 5 (omega arith)

remove_admin_impl_lem_example :
    ((remove_admin_impl issued 5 6).0 ≡ ok tt
      → (is_admin issued 5 ≡ true)
        × (is_admin (remove_admin_impl issued 5 6).1 6
            ≡ (if nat_beq 6 6 then false else is_admin issued 6)))
    × ((remove_admin_impl issued 5 6).0 ≢ ok tt → (remove_admin_impl issued 5 6).1 ≡ issued)
remove_admin_impl_lem_example = remove_admin_impl_lem issued 5 6 6

add_admin_impl_lem_example :
    ((add_admin_impl issued 5 8).0 ≡ ok tt
      → (is_admin issued 5 ≡ true)
        × (is_admin (add_admin_impl issued 5 8).1 8
            ≡ (if nat_beq 8 8 then true else is_admin issued 8)))
    × ((add_admin_impl issued 5 8).0 ≢ ok tt → (add_admin_impl issued 5 8).1 ≡ issued)
add_admin_impl_lem_example = add_admin_impl_lem issued 5 8 8

-- An empty registry with the administrator 5.
abbrev empty : State Bool ℕ
empty = record fresh_state { admins = 5 ∷ [] }

empty-IsRegistry : IsRegistry empty
empty-IsRegistry =
    let f : IsRegistry (fresh_state {F = Bool} {P = ℕ}) = fresh-IsRegistry in
    record {
      zeros = f.zeros;
      tree = f.tree;
      root = f.root;
      leaves = λ p i h.
          let g = f.leaves p i h in
          record { allocated = g.allocated; filed = g.filed; stored = g.stored; hashed = g.hashed };
      one_each = f.one_each;
      within = f.within;
    }

abbrev deed_leaf : Bool
deed_leaf = elim (leaf_hash {F = Bool} deed) [ ok x ↦ x | _ ↦ false ]

hashed : leaf_hash deed ≡ ok deed_leaf
unfolding leaf_hash parse_fe
hashed = refl

room : (empty).next_leaf_index < capacity
unfolding fresh_state
room = omega arith

listed : is_admin empty 5 ≡ true
unfolding is_admin contains
listed = refl

submit_record_impl_lem_example :
    (t : State Bool ℕ) × (submit_record_impl empty 5 deed ≡ (ok (fe_to_string t.current_root), t))
    × Submitted empty deed t
submit_record_impl_lem_example =
    submit_record_impl_lem empty 5 deed deed_leaf empty-IsRegistry listed hashed (λ _. room)

submitted :
    (t : State Bool ℕ) × (submit_record_impl empty 5 deed ≡ (ok (fe_to_string t.current_root), t))
    × Submitted empty deed t
submitted = submit_record_impl_lem empty 5 deed deed_leaf empty-IsRegistry listed hashed (λ _. room)

abbrev filed : State Bool ℕ
filed = submitted.0

get_merkle_proof_impl_lem_example :
    (proof : MerkleProof) × (siblings : List Bool) × (r : Record) × (leaf : Bool)
    × (get_merkle_proof_impl filed 44 ≡ some (some proof))
    × (proof.leaf_index ≡ submitted.2.index)
    × (parse_all proof.siblings ≡ ok siblings)
    × (get filed.records 44 ≡ some r)
    × (leaf_hash r ≡ ok leaf)
    × (recompute_root leaf siblings proof.path_bits ≡ some filed.current_root)
    × (proof.root ≡ fe_to_string filed.current_root)
get_merkle_proof_impl_lem_example =
    get_merkle_proof_impl_lem bits-Encoding filed 44 submitted.2.index submitted.2.registry
      submitted.2.indexed

tree_mirrors_example :
    (tree_root (tree_of filed) ≡ some filed.current_root)
    × ((index : ℕ) (leaf : Bool)
        → tree_insert (tree_of filed) index leaf ≡ tree_after (insert_leaf filed index leaf))
    × ((property_id index : ℕ)
        → get filed.leaf_index_by_property property_id ≡ some index
        → get_merkle_proof_impl filed property_id
          ≡ with_path filed index (printed (tree_proof (tree_of filed) index)))
tree_mirrors_example = tree_mirrors filed submitted.2.registry
