-- ===== src/SkipList/Assoc.antt =====
-- The abstract view of the skip list: a list of keys and values, sorted by key.
use raft_storage.Common.{
  ◌≡◌, ◌↔◌, refl, inl, inr, true, false, Option, none, some, List, [], ◌∷◌, if◌then◌else◌, All,
  Bool-cases,
}
use raft_storage.SkipList.{KeyOrder}

-- What the skip list asks of `<` and `==`: a strict total order.
pub record IsTotal {ℓ} {K : Type ℓ} (o : KeyOrder K) : Type ℓ where
  pub irreflexive : (a : K) → o.less a a ≡ false
  pub transitive : (a b c : K) → o.less a b ≡ true → o.less b c ≡ true → o.less a c ≡ true
  pub total : (a b : K) → o.less a b ≡ false → o.same a b ≡ false → o.less b a ≡ true
  pub same_iff : (a b : K) → (o.same a b ≡ true) ↔ (a ≡ b)

module _ {ℓ κ} {K : Type ℓ} {V : Type κ} (o : KeyOrder K) where
  unfoldable pub put : K → V → List (K × V) → List (K × V)
  put k v [] = (k, v) ∷ []
  put k v ((j, w) ∷ m) =
      let rest = put k v m in
      if o.less j k then (j, w) ∷ rest else (if o.same j k then (j, v) ∷ m else (k, v) ∷ (j, w) ∷ m)

  unfoldable pub look : K → List (K × V) → Option V
  look k [] = none
  look k ((j, w) ∷ m) =
      let rest = look k m in if o.less j k then rest else (if o.same j k then some w else none)

  unfoldable pub del : K → List (K × V) → List (K × V)
  del k [] = []
  del k ((j, w) ∷ m) =
      let rest = del k m in
      if o.less j k then (j, w) ∷ rest else (if o.same j k then m else (j, w) ∷ m)

  -- Every key is greater than the one before.
  abbrev pub IsAbove : K → List (K × V) → Type 0
  IsAbove k = All (λ e. o.less k e.0 ≡ true)

  abbrev pub IsSorted : List (K × V) → Type 0
  IsSorted [] = Unit {0}
  IsSorted (e ∷ m) = IsAbove e.0 m × IsSorted m

  module _ (t : IsTotal o) where
    -- The keys above a key are above every smaller one.
    IsAbove-less : (i j : K) (m : List (K × V)) → o.less i j ≡ true → IsAbove j m → IsAbove i m
    IsAbove-less i j [] h a = tt
    IsAbove-less i j (e ∷ m) h a = (t.transitive i j e.0 h a.0, IsAbove-less i j m h a.1)

    put-IsAbove :
        (k : K) (v : V) (i : K) (m : List (K × V))
        → o.less i k ≡ true
        → IsAbove i m
        → IsAbove i (put k v m)
    unfolding put
    put-IsAbove k v i [] h a = (h, tt)
    put-IsAbove k v i ((j, w) ∷ m) h a = elim (Bool-cases (o.less j k)) [
      | inl low ↦ rw low (a.0, put-IsAbove k v i m h a.1)
      | inr high ↦ elim (Bool-cases (o.same j k)) [
        | inl same ↦ rw (high, same) a
        | inr other ↦ rw (high, other) (h, a)
      ]
    ]

    pub put-IsSorted : (k : K) (v : V) (m : List (K × V)) → IsSorted m → IsSorted (put k v m)
    unfolding put
    put-IsSorted k v [] h = (tt, tt)
    put-IsSorted k v ((j, w) ∷ m) h = elim (Bool-cases (o.less j k)) [
      | inl low ↦ rw low (put-IsAbove k v j m low h.0, put-IsSorted k v m h.1)
      | inr high ↦ elim (Bool-cases (o.same j k)) [
        | inl same ↦ rw (high, same) h
        | inr other ↦
            let less = t.total j k high other in
            rw (high, other) ((less, IsAbove-less k j m less h.0), h)
      ]
    ]

    del-IsAbove : (k i : K) (m : List (K × V)) → IsAbove i m → IsAbove i (del k m)
    unfolding del
    del-IsAbove k i [] a = tt
    del-IsAbove k i ((j, w) ∷ m) a = elim (Bool-cases (o.less j k)) [
      | inl low ↦ rw low (a.0, del-IsAbove k i m a.1)
      | inr high ↦ elim (Bool-cases (o.same j k)) [
        | inl same ↦ rw (high, same) a.1
        | inr other ↦ rw (high, other) a
      ]
    ]

    pub del-IsSorted : (k : K) (m : List (K × V)) → IsSorted m → IsSorted (del k m)
    unfolding del
    del-IsSorted k [] h = tt
    del-IsSorted k ((j, w) ∷ m) h = elim (Bool-cases (o.less j k)) [
      | inl low ↦ rw low (del-IsAbove k j m h.0, del-IsSorted k m h.1)
      | inr high ↦ elim (Bool-cases (o.same j k)) [
        | inl same ↦ rw (high, same) h.1
        | inr other ↦ rw (high, other) h
      ]
    ]

    -- The laws of a map: what a key reads after an operation on the same key or on another.
    pub look-put_same : (k : K) (v : V) (m : List (K × V)) → look k (put k v m) ≡ some v
    unfolding look put
    look-put_same k v [] = rw (t.irreflexive k, (t.same_iff k k).1 refl) refl
    look-put_same k v ((j, w) ∷ m) = elim (Bool-cases (o.less j k)) [
      | inl low ↦ rw (low, low) (look-put_same k v m)
      | inr high ↦ elim (Bool-cases (o.same j k)) [
        | inl same ↦ rw (high, same, high, same) refl
        | inr other ↦ rw (high, other, t.irreflexive k, (t.same_iff k k).1 refl) refl
      ]
    ]
