-- ===== src/Canister/Upgrade/RoundTrip.antt =====
-- Proofs about `post_upgrade` after `pre_upgrade`.
use mathlib.Core.List.{foldl}
use yaqeen_stark_winterfell.Prelude.{
  subst, ℕ, ◌≡◌, refl, sym, ap, ◌∙◌, none, some, [], ◌∷◌, ◌++◌, map, nat_eq, pair_eq, list_eq,
  PartialEq, ◌==◌, Bool-cases, inl, inr,
}
use yaqeen_stark_winterfell.Prelude.Map.{Map, get, insert, collect}
use yaqeen_stark_winterfell.Field.{FieldOps, Encoding}
use yaqeen_stark_winterfell.Air.Layout.{tree_depth}
use yaqeen_stark_winterfell.Canister.Outcome.{ok}
use yaqeen_stark_winterfell.Canister.Text.Canonical.{parse_fe-fe_to_string}
use yaqeen_stark_winterfell.Canister.State.{
  State, Record, Challenge, Principals, principal_eq, init_zero_hashes,
}
use yaqeen_stark_winterfell.Canister.Tree.Shape.{node}
use yaqeen_stark_winterfell.Canister.Tree.{or_else}
use yaqeen_stark_winterfell.Air.Permutation.{lane}
use yaqeen_stark_winterfell.Canister.Upgrade.{
  save_record, restore_record, save_node, save_challenge, pre_upgrade, add_node, restore_nodes,
  add_challenge, restore_challenges, restored, post_upgrade,
}

module _ {ℓ κ} {K : Type ℓ} {V : Type κ} ⦃e : PartialEq K⦄ where
  -- No key stands twice, as in every table.
  abbrev pub HasDistinctKeys : Map K V → Type (ℓ ⊔ κ)
  HasDistinctKeys [] = Unit
  HasDistinctKeys ((k, v) ∷ m) = (get m k ≡ none) × HasDistinctKeys m

  insert_new : (m : Map K V) (k : K) (v : V) → get m k ≡ none → insert m k v ≡ m ++ (k, v) ∷ []
  unfolding get insert
  insert_new [] k v h = refl
  insert_new ((j, w) ∷ m) k v h = elim (Bool-cases (j == k)) [
    | inl same ↦ cc (rw same at h)
    | inr other ↦ rw other (ap (λ l. (j, w) ∷ l) (insert_new m k v (rw other at h)))
  ]

  get-append_here : (m l : Map K V) (k : K) (v : V) → get (m ++ (k, v) ∷ l) k ≡ none → ⊥
  unfolding get
  get-append_here [] l k v h = cc (rw ((e.eq_iff k k).1 refl) at h)
  get-append_here ((j, w) ∷ m) l k v h = elim (Bool-cases (j == k)) [
    | inl same ↦ cc (rw same at h)
    | inr other ↦ get-append_here m l k v (rw other at h)
  ]

  absent_before :
      (m l : Map K V) (k : K) (v : V) → HasDistinctKeys (m ++ (k, v) ∷ l) → get m k ≡ none
  unfolding get
  absent_before [] l k v d = refl
  absent_before ((j, w) ∷ m) l k v (h, d) = elim (Bool-cases (j == k)) [
    | inl same ↦
        let one : j ≡ k = (e.eq_iff j k).0 same in
        absurd (get-append_here m l k v (ap (get (m ++ (k, v) ∷ l)) (sym one) ∙ h))
    | inr other ↦ rw other (absent_before m l k v d)
  ]

  append_one : (m l : Map K V) (x : K × V) → (m ++ x ∷ []) ++ l ≡ m ++ x ∷ l
  append_one [] l x = refl
  append_one (y ∷ m) l x = ap (λ n. y ∷ n) (append_one m l x)

  collect_from :
      (l m : Map K V) → HasDistinctKeys (m ++ l) → foldl (λ m x. insert m x.0 x.1) m l ≡ m ++ l
  collect_from [] m d = sym (append_nil m)
    where
      append_nil : (m : Map K V) → m ++ [] ≡ m
      append_nil [] = refl
      append_nil (y ∷ m) = ap (λ n. y ∷ n) (append_nil m)
  collect_from ((k, v) ∷ l) m d =
      let new : insert m k v ≡ m ++ (k, v) ∷ [] = insert_new m k v (absent_before m l k v d) in
      ap (λ n. foldl (λ m x. insert m x.0 x.1) n l) new
      ∙ collect_from l (m ++ (k, v) ∷ []) (subst HasDistinctKeys (sym (append_one m l (k, v))) d)
      ∙ append_one m l (k, v)

  -- A table is collected from its own entries.
  collect_lem : (m : Map K V) → HasDistinctKeys m → collect m ≡ m
  unfolding collect
  collect_lem m d = collect_from m [] d

-- Records stand under their own numbers.
abbrev pub HasOwnKeys : Map ℕ Record → Type 0
HasOwnKeys [] = Unit
HasOwnKeys ((k, r) ∷ m) = (r.property_id ≡ k) × HasOwnKeys m

restore-save_records :
    (m : Map ℕ Record) → HasOwnKeys m → map restore_record (map save_record m) ≡ m
restore-save_records [] h = refl
restore-save_records ((k, r) ∷ m) (e, h) = λ i. (e i, r) ∷ restore-save_records m h i

module _ {F : Type 0} ⦃o : FieldOps F⦄ (laws : Encoding F) where
  restore-save_nodes : (m : Map (ℕ × ℕ) F) → restore_nodes (map save_node m) ≡ some m
  unfolding restore_nodes
  restore-save_nodes [] = refl
  restore-save_nodes (((level, idx), v) ∷ m) =
      ap (λ x. add_node (level, idx) x (restore_nodes (map save_node m)))
        (parse_fe-fe_to_string laws v)
      ∙ ap (add_node (level, idx) (ok v)) (restore-save_nodes m)

  restore-save_challenges :
      {P : Type 0} (m : Map ℕ (Challenge F P)) → restore_challenges (map save_challenge m) ≡ some m
  unfolding restore_challenges
  restore-save_challenges [] = refl
  restore-save_challenges ((id, c) ∷ m) =
      ap (λ x. add_challenge (save_challenge (id, c)) x (restore_challenges (map save_challenge m)))
        (parse_fe-fe_to_string laws c.merkle_root)
      ∙ ap (add_challenge (save_challenge (id, c)) (ok c.merkle_root)) (restore-save_challenges m)

module _ {F P : Type 0} ⦃o : FieldOps F⦄ ⦃p : Principals P⦄ where
  -- What an upgrade relies on: the maps are tables, each record stands under its own number, and the
  -- root is the topmost node.
  pub record IsStorable (s : State F P) : Type 0 where
    pub records : HasDistinctKeys s.records
    pub own_keys : HasOwnKeys s.records
    pub indices : HasDistinctKeys s.leaf_index_by_property
    pub nodes : HasDistinctKeys s.nodes
    pub challenges : HasDistinctKeys s.challenges
    pub nullifiers : HasDistinctKeys s.nullifiers
    pub challenge_calls : HasDistinctKeys s.last_challenge_call_at
    pub verify_calls : HasDistinctKeys s.last_verify_call_at
    pub zeros : s.zero_hashes ≡ init_zero_hashes
    pub root : s.current_root ≡ node s.nodes tree_depth 0

  -- For a state whose maps have no key twice, whose records stand under their own numbers, whose
  -- table of empty hashes is the initial one and whose root is the topmost node, restoring the
  -- snapshot that `pre_upgrade` takes does not panic and gives back the state, with the two
  -- throttle logs rebuilt from the entries of the throttle's maps. The field's encoding is
  -- lawful.
  pub post_upgrade-pre_upgrade :
      Encoding F
      → (s : State F P) → IsStorable s
      → post_upgrade (pre_upgrade s)
        ≡ some (record s {
          challenge_throttle_log = s.last_challenge_call_at;
          verify_throttle_log = s.last_verify_call_at;
        })
  unfolding post_upgrade pre_upgrade node
  post_upgrade-pre_upgrade laws s h =
      let table : collect s.nodes ≡ s.nodes = collect_lem s.nodes h.nodes in
      let calls = collect_lem s.last_challenge_call_at h.challenge_calls in
      let verifies = collect_lem s.last_verify_call_at h.verify_calls in
      let records : collect (map restore_record (map save_record s.records)) ≡ s.records =
        ap collect (restore-save_records s.records h.own_keys) ∙ collect_lem s.records h.records in
      let root : or_else (get (collect s.nodes) (tree_depth, 0)) (lane init_zero_hashes tree_depth)
          ≡ s.current_root =
        ap (λ m. or_else (get m (tree_depth, 0)) (lane init_zero_hashes tree_depth)) table
        ∙ sym h.root in
      ap (λ x. restored (pre_upgrade s) x (restore_challenges (map save_challenge s.challenges)))
        (restore-save_nodes laws s.nodes)
      ∙ ap (λ x. restored (pre_upgrade s) (some s.nodes) x)
          (restore-save_challenges laws s.challenges)
      ∙ (λ i. some (record s {
        records = records i;
        leaf_index_by_property = collect_lem s.leaf_index_by_property h.indices i;
        zero_hashes = sym h.zeros i;
        nodes = table i;
        current_root = root i;
        challenges = collect_lem s.challenges h.challenges i;
        nullifiers = collect_lem s.nullifiers h.nullifiers i;
        last_challenge_call_at = calls i;
        last_verify_call_at = verifies i;
        challenge_throttle_log = calls i;
        verify_throttle_log = verifies i;
      }))
