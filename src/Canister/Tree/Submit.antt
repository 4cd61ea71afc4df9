-- ===== src/Canister/Tree/Submit.antt =====
-- Proofs about `submit_record`.
use yaqeen_stark_winterfell.Prelude.{
  ℕ, ◌+◌, ◌<◌, ◌≤◌, ◌≡◌, ◌≢◌, refl, ap, sym, ◌∙◌, true, Option, none, some, nat_beq, nat_eq,
  pair_eq, if◌then◌else◌, arith, inl, inr, Option-cases,
}
use yaqeen_stark_winterfell.Prelude.Words.{add64}
use yaqeen_stark_winterfell.Prelude.Map.{Map, get, insert, get-insert, get-insert_self}
use yaqeen_stark_winterfell.Field.{FieldOps}
use yaqeen_stark_winterfell.Canister.Outcome.{ok}
use yaqeen_stark_winterfell.Canister.Text.{fe_to_string}
use yaqeen_stark_winterfell.Canister.State.{State, Principals, Record}
use yaqeen_stark_winterfell.Canister.Admin.{is_admin}
use yaqeen_stark_winterfell.Canister.Tree.{
  insert_leaf, leaf_hash, allocate, leaf_index, root_reply, store_record, submit_record_impl,
}
use yaqeen_stark_winterfell.Canister.Tree.Shape.{node}
use yaqeen_stark_winterfell.Canister.Tree.Registry.{capacity, IsFiled, IsRegistry, file_leaf}

add64_small : (n : ℕ) → n < capacity → add64 n 1 ≡ n + 1
unfolding add64
add64_small n h = omega arith

module _ {F P : Type 0} ⦃o : FieldOps F⦄ ⦃p : Principals P⦄ where
  -- The call stored `r` under its leaf and touched no other property.
  pub record Submitted (s : State F P) (r : Record) (t : State F P) : Type 0 where
    pub registry : IsRegistry t
    pub filed : get t.records r.property_id ≡ some r
    pub next : t.next_leaf_index ≤ s.next_leaf_index + 1
    pub index : ℕ
    pub indexed : get t.leaf_index_by_property r.property_id ≡ some index
    pub in_place : (i : ℕ) → get s.leaf_index_by_property r.property_id ≡ some i → i ≡ index
    pub same_records : (q : ℕ) → q ≢ r.property_id → get t.records q ≡ get s.records q
    pub same_indices :
        (q : ℕ)
        → q ≢ r.property_id
        → get t.leaf_index_by_property q ≡ get s.leaf_index_by_property q
    pub same_leaves :
        (q i : ℕ)
        → q ≢ r.property_id
        → get s.leaf_index_by_property q ≡ some i
        → node t.nodes 0 i ≡ node s.nodes 0 i
    pub others : (j : ℕ) → index ≢ j → node t.nodes 0 j ≡ node s.nodes 0 j
    pub grows : s.next_leaf_index ≤ t.next_leaf_index
    pub room : (j : ℕ) → j < t.next_leaf_index → index ≢ j → j < s.next_leaf_index

  pub store_record-insert_leaf :
      (s t : State F P) (r : Record) (leaf : F) (found : Option ℕ)
      → get s.leaf_index_by_property r.property_id ≡ found
      → (let (index, s') = allocate s r.property_id found in
          insert_leaf (record s' { records = insert s'.records r.property_id r }) index leaf
          ≡ some t)
      → store_record s r leaf ≡ (ok (fe_to_string t.current_root), t)
  unfolding store_record leaf_index
  store_record-insert_leaf s t r leaf found e run =
      ap
        (λ q.
          let (index, s') = allocate s r.property_id q in
          root_reply s
            (insert_leaf (record s' { records = insert s'.records r.property_id r }) index leaf))
        e
      ∙ ap (root_reply s) run

  module _ (s : State F P) (r : Record) (leaf : F) (reg : IsRegistry s)
      (hashed : leaf_hash r ≡ ok leaf) where
    -- What does not concern `r`'s property stays filed when `r` is stored.
    keep :
        (u : State F P) (q j : ℕ)
        → q ≢ r.property_id
        → u.records ≡ insert s.records r.property_id r
        → s.next_leaf_index ≤ u.next_leaf_index
        → u.nodes ≡ s.nodes
        → IsFiled s q j
        → IsFiled u q j
    keep u q j ne records next nodes old = record {
      allocated = omega (arith, old.allocated);
      filed = old.filed;
      stored =
          ap (λ m. get m q) records
          ∙ ground (arith, get-insert s.records r.property_id r q, old.stored);
      hashed = old.hashed ∙ ap (λ m. ok (node m 0 j)) (sym nodes);
    }

    -- A record of a known property goes into the leaf that the property has.
    store_known :
        (i : ℕ)
        → get s.leaf_index_by_property r.property_id ≡ some i
        → (t : State F P) × (store_record s r leaf ≡ (ok (fe_to_string t.current_root), t))
          × Submitted s r t
    store_known i e =
        let u : State F P = record s { records = insert s.records r.property_id r } in
        let (t, run, registry, written, indices, records, same_next, leaves) =
          file_leaf u r i leaf reg.zeros reg.tree reg.within
            (reg.leaves r.property_id i e).allocated e (get-insert_self s.records r.property_id r)
            hashed (λ q j ne h. keep u q j ne refl (omega arith) refl (reg.leaves q j h))
            reg.one_each in
        (
          t,
          store_record-insert_leaf s t r leaf (some i) e run,
          record {
            registry = registry;
            filed =
                ap (λ m. get m r.property_id) records ∙ get-insert_self s.records r.property_id r;
            next = rw same_next (omega arith);
            index = i;
            indexed = ap (λ m. get m r.property_id) indices ∙ e;
            in_place = λ j h. cc;
            same_records = λ q ne.
                ap (λ m. get m q) records ∙ ground (arith, get-insert s.records r.property_id r q);
            same_indices = λ q ne. ap (λ m. get m q) indices;
            same_leaves = λ q j ne h.
                leaves j (λ (f : i ≡ j). ne (reg.one_each q r.property_id j h (cc (e, f))));
            others = leaves;
            grows = omega (arith, same_next);
            room = λ j h apart. omega (arith, h, same_next);
          },
        )

    -- A record of a new property goes into the next leaf.
    store_new :
        get s.leaf_index_by_property r.property_id ≡ none
        → s.next_leaf_index < capacity
        → (t : State F P) × (store_record s r leaf ≡ (ok (fe_to_string t.current_root), t))
          × Submitted s r t
    store_new e room =
        let pid : ℕ = r.property_id in
        let m : Map ℕ ℕ = insert s.leaf_index_by_property pid s.next_leaf_index in
        let u : State F P = record s {
          next_leaf_index = add64 s.next_leaf_index 1;
          leaf_index_by_property = m;
          records = insert s.records pid r;
        } in
        let next : add64 s.next_leaf_index 1 ≡ s.next_leaf_index + 1 =
          add64_small s.next_leaf_index room in
        let at : (q : ℕ)
            → get m q
              ≡ (if nat_beq pid q then some s.next_leaf_index else get s.leaf_index_by_property q) =
          get-insert s.leaf_index_by_property pid s.next_leaf_index in
        let old : (q j : ℕ) → q ≢ pid → get m q ≡ some j → get s.leaf_index_by_property q ≡ some j =
          λ q j ne h. ground (arith, at q) in
        let (t, run, registry, written, indices, records, same_next, leaves) =
          file_leaf u r s.next_leaf_index leaf reg.zeros reg.tree (omega arith) (omega arith)
            (get-insert_self s.leaf_index_by_property pid s.next_leaf_index)
            (get-insert_self s.records pid r) hashed
            (λ q j ne h. keep u q j ne refl (omega arith) refl (reg.leaves q j (old q j ne h)))
            (λ a b i ha hb. ground (
              arith,
              at a,
              at b,
              reg.one_each a b i,
              λ (h : get s.leaf_index_by_property a ≡ some i). (reg.leaves a i h).allocated,
              λ (h : get s.leaf_index_by_property b ≡ some i). (reg.leaves b i h).allocated,
            )) in
        (
          t,
          store_record-insert_leaf s t r leaf none e run,
          record {
            registry = registry;
            filed = ap (λ x. get x pid) records ∙ get-insert_self s.records pid r;
            next = rw same_next (omega arith);
            index = s.next_leaf_index;
            indexed =
                ap (λ x. get x pid) indices
                ∙ get-insert_self s.leaf_index_by_property pid s.next_leaf_index;
            in_place = λ j h. cc (e, h);
            same_records =
                λ q ne. ap (λ x. get x q) records ∙ ground (arith, get-insert s.records pid r q);
            same_indices = λ q ne. ap (λ x. get x q) indices ∙ ground (arith, at q);
            same_leaves = λ q j ne h.
                leaves j
                  (λ (f : s.next_leaf_index ≡ j). omega (arith, f, (reg.leaves q j h).allocated));
            others = leaves;
            grows = omega (arith, same_next, next);
            room = λ j h apart. omega (arith, h, same_next, next, apart);
          },
        )

  -- In a consistent registry, an administrator's record whose leaf hash is defined, of a property
  -- that has a leaf or for which there is room, is accepted: the call returns the text of the new
  -- root, the registry is consistent afterwards, the record is stored under one leaf (the one
  -- that the property had, if it had one), at most one more leaf is taken, and no other
  -- property's record, index or leaf changes.
  pub submit_record_impl_lem :
      (s : State F P) (caller : P) (r : Record) (leaf : F)
      → IsRegistry s
      → is_admin s caller ≡ true
      → leaf_hash r ≡ ok leaf
      → (get s.leaf_index_by_property r.property_id ≡ none → s.next_leaf_index < capacity)
      → (t : State F P) × (submit_record_impl s caller r ≡ (ok (fe_to_string t.current_root), t))
        × Submitted s r t
  unfolding submit_record_impl
  submit_record_impl_lem s caller r leaf reg admin hashed room =
      elim (Option-cases (get s.leaf_index_by_property r.property_id)) [
        | inl e ↦
            let (t, run, done) = store_new s r leaf reg hashed e (room e) in
            (t, rw (admin, hashed) run, done)
        | inr (i, e) ↦
            let (t, run, done) = store_known s r leaf reg hashed i e in
            (t, rw (admin, hashed) run, done)
      ]
