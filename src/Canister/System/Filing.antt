-- ===== src/Canister/System/Filing.antt =====
-- Proofs about the part of the state that `submit_record` does not write.
use yaqeen_stark_winterfell.Prelude.{
  ℕ, ◌≡◌, refl, ap, Option, none, some, nat_eq, pair_eq, inl, inr, Bool-cases,
}
use yaqeen_stark_winterfell.Prelude.Map.{Map, get, insert}
use yaqeen_stark_winterfell.Field.{FieldOps}
use yaqeen_stark_winterfell.Canister.Outcome.{Outcome, ok, err, trap}
use yaqeen_stark_winterfell.Canister.State.{State, Principals, Record}
use yaqeen_stark_winterfell.Canister.Admin.{is_admin}
use yaqeen_stark_winterfell.Canister.Tree.{
  submit_record_impl, store_record, store_hashed, insert_leaf, leaf_index, allocate, with_root,
  root_reply, climb, leaf_hash,
}
use yaqeen_stark_winterfell.Canister.System.Frames.{book}

module _ {F P : Type 0} ⦃o : FieldOps F⦄ ⦃p : Principals P⦄ where
  -- `t` with what `submit_record` writes taken from `s`.
  abbrev pub unfiled : State F P → State F P → State F P
  unfiled s t = record t {
    records = s.records;
    leaf_index_by_property = s.leaf_index_by_property;
    nodes = s.nodes;
    current_root = s.current_root;
    next_leaf_index = s.next_leaf_index;
  }

  allocate_rest : (s : State F P) (q : ℕ) (found : Option ℕ) → unfiled s (allocate s q found).1 ≡ s
  allocate_rest s q none = refl
  allocate_rest s q (some i) = refl

  root_reply_rest :
      (s u : State F P) (x : Option (Map (ℕ × ℕ) F × F))
      → unfiled s u ≡ s
      → unfiled s (root_reply s (with_root u x)).1 ≡ s
  root_reply_rest s u none e = refl
  root_reply_rest s u (some (nodes, root)) e = e

  store_record_rest :
      (s : State F P) (r : Record) (leaf : F) → unfiled s (store_record s r leaf).1 ≡ s
  unfolding store_record insert_leaf leaf_index
  store_record_rest s r leaf =
      let a : State F P =
        (allocate s r.property_id (get s.leaf_index_by_property r.property_id)).1 in
      let index : ℕ = (allocate s r.property_id (get s.leaf_index_by_property r.property_id)).0 in
      let u : State F P = record a { records = insert a.records r.property_id r } in
      root_reply_rest s u (climb u.zero_hashes 25 0 index leaf (insert u.nodes (0, index) leaf))
        (allocate_rest s r.property_id (get s.leaf_index_by_property r.property_id))

  store_hashed_rest :
      (s : State F P) (r : Record) (h : Outcome F) → unfiled s (store_hashed s r h).1 ≡ s
  store_hashed_rest s r (ok leaf) = store_record_rest s r leaf
  store_hashed_rest s r (err e) = refl
  store_hashed_rest s r trap = refl

  pub submit_record_impl_rest :
      (s : State F P) (c : P) (r : Record) → unfiled s (submit_record_impl s c r).1 ≡ s
  unfolding submit_record_impl
  submit_record_impl_rest s c r = elim (Bool-cases (is_admin s c)) [
    | inl e ↦ rw (e, submit_record_impl) (store_hashed_rest s r (leaf_hash r))
    | inr e ↦ rw (e, submit_record_impl) refl
  ]

  pub submit_record_impl-book :
      (s : State F P) (c : P) (r : Record) → book (submit_record_impl s c r).1 ≡ book s
  submit_record_impl-book s c r = ap book (submit_record_impl_rest s c r)
