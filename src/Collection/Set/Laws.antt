-- ===== src/Collection/Set/Laws.antt =====
-- What the operations of a Set do to its members, for every order of iteration.
use mathlib.Core.List.{append_assoc, append-nil, Permᴰ}
use grpcx.Common.{
  RangeOrder, Equality, lookup, length, is_some, List, [], ◌∷◌, ◌++◌, false, if◌then◌else◌, ◌≡◌,
  refl, ◌&&◌, ◌||◌, contains, eqb, lookup-store, lookup-delete, arith, Distinct, HasUniqueKeys, not,
  store-HasUniqueKeys, ◌∙◌, sym, ap, inl, inr, Bool-cases, visit-HasUniqueKeys,
  delete-HasUniqueKeys, length-perm, suc,
}
use grpcx.Collection.Set.{
  Set, add, add_all, new_set, remove, set_contains, append_items, put_items, put_shared, to_slice,
  union, intersect, set_len,
}

-- tactics read membership through these
module _ {ℓ} {T : Type ℓ} ⦃e : Equality T⦄ where
  pub contains-add :
      (v : T) (s : Set T) (a : T) → set_contains (add v s) a ≡ eqb v a || set_contains s a
  unfolding set_contains add
  contains-add v s a = ground (arith, lookup-store v a tt s)

  pub contains-remove :
      (v : T) (s : Set T) (a : T) → set_contains (remove v s) a ≡ not (eqb v a) && set_contains s a
  unfolding set_contains remove
  contains-remove v s a = ground (arith, lookup-delete {V = Unit {0}} v a s)

  contains-add_all :
      (vals : List T) (s : Set T) (a : T)
      → set_contains (add_all vals s) a ≡ contains vals a || set_contains s a
  unfolding add_all
  contains-add_all [] s a = refl
  contains-add_all (v ∷ vals) s a =
      ground (arith, contains-add_all vals (add v s) a, contains-add v s a)

  pub contains-new_set : (vals : List T) (a : T) → set_contains (new_set vals) a ≡ contains vals a
  unfolding new_set set_contains lookup
  contains-new_set vals a = ground (arith, contains-add_all vals [] a)

  abbrev pub keys : Set T → List T
  keys [] = []
  keys ((k, _) ∷ s) = k ∷ keys s

  contains-keys : (s : Set T) (a : T) → contains (keys s) a ≡ set_contains s a
  unfolding set_contains lookup
  contains-keys [] a = refl
  contains-keys ((k, _) ∷ s) a = ground (arith, contains-keys s a)

  append_items-keys : (result : List T) (s : Set T) → append_items result s ≡ result ++ keys s
  unfolding append_items
  append_items-keys result [] = sym (append-nil result)
  append_items-keys result ((k, _) ∷ s) =
      append_items-keys (result ++ k ∷ []) s ∙ append_assoc result (k ∷ []) (keys s)

  contains-cons :
      (k : T) (x : Unit {0}) (s : Set T) (a : T)
      → set_contains ((k, x) ∷ s) a ≡ eqb k a || set_contains s a
  unfolding set_contains lookup
  contains-cons k x s a = ground arith

  contains-nil : (a : T) → set_contains [] a ≡ false
  unfolding set_contains lookup
  contains-nil a = refl

  contains-put_items :
      (result items : Set T) (a : T)
      → set_contains (put_items result items) a ≡ set_contains items a || set_contains result a
  unfolding put_items
  contains-put_items result [] a = ground (arith, contains-nil a)
  contains-put_items result ((k, x) ∷ items) a = ground (
    arith,
    contains-put_items (add k result) items a,
    contains-add k result a,
    contains-cons k x items a,
  )

  contains-put_shared :
      (other result items : Set T) (a : T)
      → set_contains (put_shared other result items) a
        ≡ (set_contains items a && set_contains other a) || set_contains result a
  unfolding put_shared
  contains-put_shared other result [] a = ground (arith, contains-nil a)
  contains-put_shared other result ((k, x) ∷ items) a = elim (Bool-cases (set_contains other k)) [
    | inl shared ↦ rw shared (
        ground (
          arith,
          contains-put_shared other (add k result) items a,
          contains-add k result a,
          contains-cons k x items a,
          e.test_iff k a,
          same_member k a,
        ))
    | inr missing ↦ rw missing (
        ground (
          arith,
          contains-put_shared other result items a,
          contains-cons k x items a,
          e.test_iff k a,
          same_member k a,
        ))
  ]
    where
      same_member : (b c : T) → b ≡ c → set_contains other b ≡ set_contains other c
      same_member b c q = ap (set_contains other) q

  contains-perm_set : {l m : Set T} → Permᴰ l m → (a : T) → set_contains l a ≡ set_contains m a
  contains-perm_set Permᴰ.nil a = refl
  contains-perm_set (Permᴰ.cons {a = (j, x)} {b = (i, y)} {l₁} {l₂} p q) a =
      let same_key : j ≡ i = ap (λ t. t.0) p in
      ground (arith, contains-cons j x l₁ a, contains-cons i y l₂ a, contains-perm_set q a)
  contains-perm_set (Permᴰ.swap {a = (j, x)} {b = (i, y)} {a' = (i', y')} {b' = (j', x')} {l} p q)
        a =
      let key_a : j ≡ j' = ap (λ t. t.0) p in
      let key_b : i ≡ i' = ap (λ t. t.0) q in
      ground (
        arith,
        contains-cons j x ((i, y) ∷ l) a,
        contains-cons i y l a,
        contains-cons i' y' ((j', x') ∷ l) a,
        contains-cons j' x' l a,
      )
  contains-perm_set (Permᴰ.trans p q) a = contains-perm_set p a ∙ contains-perm_set q a

  keys-Distinct : (s : Set T) → HasUniqueKeys s → Distinct (keys s)
  keys-Distinct [] h = tt
  keys-Distinct ((k, x) ∷ s) h =
      (contains-keys s k ∙ (unfold set_contains in ap is_some h.0), keys-Distinct s h.1)

  length-keys : (s : Set T) → length (keys s) ≡ length s
  length-keys [] = refl
  length-keys (item ∷ s) = ap suc (length-keys s)

  add_all-HasUniqueKeys :
      (vals : List T) (s : Set T) → HasUniqueKeys s → HasUniqueKeys (add_all vals s)
  unfolding add_all
  add_all-HasUniqueKeys [] s h = h
  add_all-HasUniqueKeys (v ∷ vals) s h =
      add_all-HasUniqueKeys vals (add v s) (store-HasUniqueKeys v tt s h)

  pub new_set-HasUniqueKeys : (vals : List T) → HasUniqueKeys (new_set vals)
  unfolding new_set
  new_set-HasUniqueKeys vals = add_all-HasUniqueKeys vals [] tt

  put_shared-HasUniqueKeys :
      (other result items : Set T)
      → HasUniqueKeys result
      → HasUniqueKeys (put_shared other result items)
  unfolding put_shared
  put_shared-HasUniqueKeys other result [] h = h
  put_shared-HasUniqueKeys other result ((k, x) ∷ items) h =
      put_shared-HasUniqueKeys other (if set_contains other k then add k result else result) items
        (elim (Bool-cases (set_contains other k)) [
          | inl shared ↦ rw shared (unfold add in store-HasUniqueKeys k tt result h)
          | inr missing ↦ rw missing h
        ])

  put_items-HasUniqueKeys :
      (result items : Set T) → HasUniqueKeys result → HasUniqueKeys (put_items result items)
  unfolding put_items
  put_items-HasUniqueKeys result [] h = h
  put_items-HasUniqueKeys result ((k, x) ∷ items) h =
      put_items-HasUniqueKeys (add k result) items (unfold add in store-HasUniqueKeys k tt result h)

  module _ (range : RangeOrder (T × Unit {0})) where
    contains-visit : (s : Set T) (a : T) → set_contains (range.visit s) a ≡ set_contains s a
    contains-visit s a = sym (contains-perm_set (range.visit-perm s) a)

    pub contains-union :
        (s other : Set T) (a : T)
        → set_contains (union range s other) a ≡ set_contains s a || set_contains other a
    unfolding union
    contains-union s other a = ground (
      arith,
      contains-put_items (put_items [] (range.visit s)) (range.visit other) a,
      contains-put_items [] (range.visit s) a,
      contains-visit s a,
      contains-visit other a,
      contains-nil a,
    )

    pub contains-intersect :
        (s other : Set T) (a : T)
        → set_contains (intersect range s other) a ≡ set_contains s a && set_contains other a
    unfolding intersect
    contains-intersect s other a =
        ground (
          arith,
          contains-put_shared other [] (range.visit s) a,
          contains-visit s a,
          contains-nil a,
        )

    pub contains-to_slice : (s : Set T) (a : T) → contains (to_slice range s) a ≡ set_contains s a
    unfolding to_slice
    contains-to_slice s a =
        rw append_items-keys (contains-keys (range.visit s) a ∙ contains-visit s a)

    pub intersect-HasUniqueKeys : (s other : Set T) → HasUniqueKeys (intersect range s other)
    unfolding intersect
    intersect-HasUniqueKeys s other = put_shared-HasUniqueKeys other [] (range.visit s) tt

    pub to_slice-Distinct : (s : Set T) → HasUniqueKeys s → Distinct (to_slice range s)
    unfolding to_slice
    to_slice-Distinct s h =
        rw append_items-keys (keys-Distinct (range.visit s) (visit-HasUniqueKeys range s h))

    length-to_slice : (s : Set T) → length (to_slice range s) ≡ set_len s
    unfolding to_slice set_len
    length-to_slice s =
        rw append_items-keys (length-keys (range.visit s) ∙ sym (length-perm (range.visit-perm s)))

    -- The set operations are those of finite sets, whatever the order of iteration: membership after
    -- Add, Remove, NewSet, Union and Intersect is that of the insertion, the deletion, the list, the
    -- union and the intersection.
    pub membership :
        (s other : Set T) (v a : T) (vals : List T)
        → (set_contains (add v s) a ≡ eqb v a || set_contains s a)
          × (set_contains (remove v s) a ≡ not (eqb v a) && set_contains s a)
          × (set_contains (new_set vals) a ≡ contains vals a)
          × (set_contains (union range s other) a ≡ set_contains s a || set_contains other a)
          × (set_contains (intersect range s other) a ≡ set_contains s a && set_contains other a)
    membership s other v a vals = (
      contains-add v s a,
      contains-remove v s a,
      contains-new_set vals a,
      contains-union s other a,
      contains-intersect s other a,
    )

    -- A set that the operations built lists each of its members once: ToSlice of a map with distinct
    -- keys has the members of the set, each once, and as many as Len says. NewSet, Add, Remove, Union
    -- and Intersect keep the keys distinct.
    pub to_slice_lem :
        (s other : Set T) (v a : T) (vals : List T)
        → HasUniqueKeys s
        → Distinct (to_slice range s)
          × (contains (to_slice range s) a ≡ set_contains s a)
          × (length (to_slice range s) ≡ set_len s)
          × HasUniqueKeys (new_set vals)
          × HasUniqueKeys (add v s)
          × HasUniqueKeys (remove v s)
          × HasUniqueKeys (union range s other)
          × HasUniqueKeys (intersect range s other)
    unfolding add remove union
    to_slice_lem s other v a vals h = (
      to_slice-Distinct s h,
      contains-to_slice s a,
      length-to_slice s,
      new_set-HasUniqueKeys vals,
      store-HasUniqueKeys v tt s h,
      delete-HasUniqueKeys v s h,
      put_items-HasUniqueKeys _ (range.visit other) (put_items-HasUniqueKeys [] (range.visit s) tt),
      intersect-HasUniqueKeys s other,
    )
