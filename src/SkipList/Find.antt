-- ===== src/SkipList/Find.antt =====
-- What the search finds, and what `find` and `get` answer, against the abstract list.
use raft_storage.Common.{
  contains, ℕ, ◌≤◌, ◌≡◌, refl, sym, ap, subst, ◌∙◌, inl, inr, Bool, true, false, Option, none, some,
  List, [], ◌∷◌, ◌++◌, arith, ◌==◌, if◌then◌else◌, Bool-cases, is_some, length, All,
}
use raft_storage.SkipList.{KeyOrder, SkipList, header, has_level, read_forward, read_value}
use raft_storage.SkipList.Assoc.{look, IsSorted, IsTotal, IsAbove}
use raft_storage.SkipList.Shape.{
  IsLaid, contents, Sound, next_on, read_key_eq, level_of, header-has_level, read_forward_eq,
  Sound-has_level,
}
use raft_storage.SkipList.Edit.{find, get, find_node, hits}
use raft_storage.SkipList.Search.{
  IsLow, IsHigh, All_last, search_lem, All-right, All-map, All-left, before,
}
use raft_storage.SkipList.Chains.{Chain, Chain-append}
use raft_storage.SkipList.Levels.{keep, keep_zero, keep-append, All-keep}

-- A laid list that stands for a sorted list of keys and values.
pub record Represents {ℓ κ} {K : Type ℓ} {V : Type κ} (o : KeyOrder K) (s : SkipList K V)
    (m : List (K × V)) : Type (ℓ ⊔ κ) where
  pub order : List ℕ
  pub laid : IsLaid s order
  pub holds : contents s order ≡ m
  pub sorted : IsSorted o m
  pub count : s.element_count ≡ length order

abbrev pub first : List ℕ → Option ℕ
first [] = none
first (x ∷ xs) = some x

module _ {ℓ κ} {K : Type ℓ} {V : Type κ} (o : KeyOrder K) (s : SkipList K V) (k : K) where
  abbrev pub hit : List ℕ → Bool
  hit [] = false
  hit (x ∷ xs) = o.same (s.cells x).key k

  -- A sorted list falls in two at a key.
  pub split_order :
      (t : IsTotal o) (order : List ℕ)
      → IsSorted o (contents s order)
      → (lo : List ℕ) × (hi : List ℕ) × (order ≡ lo ++ hi)
        × All (IsLow o s k) lo
        × All (IsHigh o s k) hi
  split_order t [] h = ([], [], refl, tt, tt)
  split_order t (x ∷ xs) h = elim (Bool-cases (o.less (s.cells x).key k)) [
    | inl low ↦
        let (lo, hi, e, l, g) = split_order t xs h.1 in (x ∷ lo, hi, ap (◌∷◌ x) e, (low, l), g)
    | inr high ↦ ([], x ∷ xs, refl, tt, (high, rest xs high h.0))
  ]
    where
      rest :
          (ys : List ℕ)
          → o.less (s.cells x).key k ≡ false
          → IsAbove o (s.cells x).key (contents s ys)
          → All (IsHigh o s k) ys
      rest [] high h = tt
      rest (y ∷ ys) high h =
          let here : o.less (s.cells y).key k ≡ false =
            elim (Bool-cases (o.less (s.cells y).key k)) [
              | inr high' ↦ high'
              | inl low' ↦ let less = t.transitive _ _ _ h.0 low' in cc less
            ] in
          (here, rest ys high h.1)

  pub low_apart :
      (a : ℕ) (lo : List ℕ)
      → All (IsLow o s k) lo
      → o.less (s.cells a).key k ≡ false
      → contains lo a ≡ false
  low_apart a [] l g = refl
  low_apart a (x ∷ lo) l g = elim (Bool-cases (x == a)) [
    | inr other ↦ rw other (low_apart a lo l.1 g)
    | inl same ↦
        let e : x ≡ a = ground arith in
        let low = subst (λ z. o.less (s.cells z).key k ≡ true) e l.0 in cc low
  ]

  pub look-append :
      (lo hi : List ℕ)
      → All (IsLow o s k) lo
      → look o k (contents s (lo ++ hi)) ≡ look o k (contents s hi)
  unfolding look
  look-append [] hi l = refl
  look-append (x ∷ lo) hi l = rw l.0 (look-append lo hi l.1)

  module _ (lo hi : List ℕ) (laid : IsLaid s (lo ++ hi)) (l : All (IsLow o s k) lo)
      (g : All (IsHigh o s k) hi) where
    -- On every level the rest of the chain stands after the place that the search finds.
    pub Chain-before :
        (i : ℕ)
        → i ≤ s.max_level
        → Chain (next_on s i) (before o s k lo hi laid l g i) (keep (level_of s) i hi)
    Chain-before i h =
        Chain-append (next_on s i) header (keep (level_of s) i lo) (keep (level_of s) i hi)
          (subst (Chain (next_on s i) header) (keep-append (level_of s) i lo hi) (laid.chains i h))

    pub before-has_level :
        (i : ℕ) → i ≤ s.max_level → has_level s (before o s k lo hi laid l g i) i ≡ true
    before-has_level i h =
        All_last (λ a. has_level s a i ≡ true) header (keep (level_of s) i lo)
          (header-has_level s (lo ++ hi) i laid h)
          (All-map _ _ (keep (level_of s) i lo) (λ a b. Sound-has_level s a i b.0 b.1)
            (All-keep (level_of s) (Sound s) i lo (All-left (Sound s) lo hi laid.nodes)))

    pub read_before : read_forward s (before o s k lo hi laid l g 0) 0 ≡ some (first hi)
    read_before =
        let c = Chain-before 0 (omega arith) in
        let c' =
          subst (Chain (next_on s 0) (before o s k lo hi laid l g 0)) (keep_zero (level_of s) hi)
            c in
        read_forward_eq s (before o s k lo hi laid l g 0) 0 (before-has_level 0 (omega arith))
        ∙ ap some (starts hi _ _ c')
      where
        starts : (ys : List ℕ) (f : ℕ → Option ℕ) (c : ℕ) → Chain f c ys → f c ≡ first ys
        starts [] f c h = h
        starts (y ∷ ys) f c h = h.0

    pub hits_lem : hits o s k (first hi) ≡ some (hit hi)
    unfolding hits
    hits_lem = go hi (All-right (Sound s) lo hi laid.nodes)
      where
        go : (ys : List ℕ) → All (Sound s) ys → hits o s k (first ys) ≡ some (hit ys)
        go [] h = refl
        go (y ∷ ys) h = rw (read_key_eq s y h.0.live) refl

    pub find_node_lem : find_node o s k ≡ some (if hit hi then first hi else none)
    unfolding find_node
    find_node_lem =
        let (u, r, _) = search_lem o s k lo hi laid l g in rw (r, read_before, hits_lem) refl

answers {ℓ κ} :
    {K : Type ℓ} {V : Type κ} (o : KeyOrder K) (s : SkipList K V) (k : K) (ys : List ℕ)
    → find_node o s k ≡ some (if hit o s k ys then first ys else none)
    → All (IsHigh o s k) ys
    → All (Sound s) ys
    → (find o s k ≡ some (is_some (look o k (contents s ys))))
      × (get o s k ≡ some (look o k (contents s ys)))
unfolding find get look read_value
answers o s k [] f g h = (rw f refl, rw f refl)
answers o s k (y ∷ ys) f g h = elim (Bool-cases (o.same (s.cells y).key k)) [
  | inl same ↦ let f' = rw same at f in (rw (f', g.0, same) refl, rw (f', h.0.live, g.0, same) refl)
  | inr other ↦ let f' = rw other at f in (rw (f', g.0, other) refl, rw (f', g.0, other) refl)
]

-- `find` and `get` read only allocated nodes and end, and they answer as the abstract list does.
pub find_lem {ℓ κ} :
    {K : Type ℓ} {V : Type κ} (o : KeyOrder K) (t : IsTotal o) (s : SkipList K V) (m : List (K × V))
    (k : K)
    → Represents o s m
    → (find o s k ≡ some (is_some (look o k m))) × (get o s k ≡ some (look o k m))
find_lem o t s m k r =
    let (lo, hi, e, l, g) =
      split_order o s k t r.order (subst (IsSorted o) (sym r.holds) r.sorted) in
    let laid = subst (IsLaid s) e r.laid in
    let same : look o k (contents s hi) ≡ look o k m =
      sym (look-append o s k lo hi l)
      ∙ ap (λ x. look o k (contents s x)) (sym e)
      ∙ ap (look o k) r.holds in
    let (found, got) =
      answers o s k hi (find_node_lem o s k lo hi laid l g) g
        (All-right (Sound s) lo hi laid.nodes) in
    (found ∙ ap (λ x. some (is_some x)) same, got ∙ ap some same)
