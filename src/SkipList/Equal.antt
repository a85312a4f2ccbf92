-- ===== src/SkipList/Equal.antt =====
-- `operator==` against the abstract lists.
use raft_storage.Common.{
  true_case, false_case, ℕ, zero, suc, ◌+◌, ◌<◌, ◌≡◌, refl, sym, ap, ◌∙◌, ◌↔◌, inl, inr, Bool, true,
  false, ◌&&◌, some, List, [], ◌∷◌, arith, ◌==◌, Bool-cases, length, All,
}
use raft_storage.SkipList.Find.{Represents}
use raft_storage.SkipList.{size, KeyOrder, SkipList, header, read_key, read_value}
use raft_storage.SkipList.Dump.{compare_nodes, equal}
use raft_storage.SkipList.Shape.{
  Sound, next_on, contents, read_forward_eq, Sound-has_level, header-has_level, bottom-Chain,
}
use raft_storage.SkipList.Chains.{Chain}

module _ {ℓ κ} {K : Type ℓ} {V : Type κ} (same_key : K → K → Bool) (same_value : V → V → Bool)
    (keys : (j k : K) → (same_key j k ≡ true) ↔ (j ≡ k))
    (values : (v w : V) → (same_value v w ≡ true) ↔ (v ≡ w)) where
  -- The abstract comparison.
  abbrev same_pairs : List (K × V) → List (K × V) → Bool
  same_pairs [] m = true
  same_pairs (e ∷ l) [] = true
  same_pairs (e ∷ l) (f ∷ m) = (same_key e.0 f.0 && same_value e.1 f.1) && same_pairs l m

  same_pairs_iff : (l m : List (K × V)) → length l ≡ length m → (same_pairs l m ≡ true) ↔ (l ≡ m)
  same_pairs_iff [] [] h = (λ _. refl, λ _. refl)
  same_pairs_iff [] (f ∷ m) h = absurd (omega arith)
  same_pairs_iff (e ∷ l) [] h = absurd (omega arith)
  same_pairs_iff ((j, v) ∷ l) ((k, w) ∷ m) h = (
    λ e.
        let a : same_key j k ≡ true = ground arith in
        let b : same_value v w ≡ true = ground arith in
        let c : same_pairs l m ≡ true = ground arith in
        let p = (keys j k).0 a in
        let q = (values v w).0 b in let r = (same_pairs_iff l m (omega arith)).0 c in cc,
    λ e.
        let p : j ≡ k = cc in
        let q : v ≡ w = cc in
        let r : l ≡ m = cc in
        let a = (keys j k).1 p in
        let b = (values v w).1 q in let c = (same_pairs_iff l m (omega arith)).1 r in ground arith,
  )

  compare_lem :
      (s t : SkipList K V) (n a b : ℕ) (xs ys : List ℕ)
      → length xs < n
      → All (Sound s) xs
      → All (Sound t) ys
      → Chain (next_on s 0) a xs
      → Chain (next_on t 0) b ys
      → compare_nodes same_key same_value n s t (next_on s 0 a) (next_on t 0 b)
        ≡ some (same_pairs (contents s xs) (contents t ys))
  unfolding compare_nodes read_key read_value
  compare_lem s t zero a b xs ys f g h d e = absurd (omega arith)
  compare_lem s t (suc n) a b [] ys f g h d e = rw d refl
  compare_lem s t (suc n) a b (x ∷ xs) [] f g h d e = rw (d.0, e) refl
  compare_lem s t (suc n) a b (x ∷ xs) (y ∷ ys) f g h d e =
      let rest = compare_lem s t n x y xs ys (omega arith) g.1 h.1 d.1 e.1 in
      let left = read_forward_eq s x 0 (Sound-has_level s x 0 g.0 (omega arith)) in
      let right = read_forward_eq t y 0 (Sound-has_level t y 0 h.0 (omega arith)) in
      let here =
        same_key (s.cells x).key (t.cells y).key
        && same_value (s.cells x).value (t.cells y).value in
      rw (d.0, e.0, g.0.live, h.0.live)
        (elim (Bool-cases here) [
          | inl same ↦ true_case here (some false) _ same ∙ rw (left, right, rest, same) refl
          | inr other ↦ false_case here (some false) _ other ∙ rw other refl
        ])

  length-contents : (s : SkipList K V) (xs : List ℕ) → length (contents s xs) ≡ length xs
  length-contents s [] = refl
  length-contents s (x ∷ xs) = ap suc (length-contents s xs)

  -- `operator==` ends, and it holds of two lists that stand for the same keys and values, and of no
  -- others.
  pub equal_lem :
      (o : KeyOrder K) (s t : SkipList K V) (l m : List (K × V))
      → Represents o s l
      → Represents o t m
      → (b : Bool) × (equal same_key same_value s t ≡ some b) × ((b ≡ true) ↔ (l ≡ m))
  unfolding equal size
  equal_lem o s t l m p q =
      let left = read_forward_eq s header 0 (header-has_level s p.order 0 p.laid (omega arith)) in
      let right = read_forward_eq t header 0 (header-has_level t q.order 0 q.laid (omega arith)) in
      let n : length l ≡ s.element_count =
        ap length (sym p.holds) ∙ length-contents s p.order ∙ sym p.count in
      let n' : length m ≡ t.element_count =
        ap length (sym q.holds) ∙ length-contents t q.order ∙ sym q.count in
      elim (Bool-cases (s.element_count == t.element_count)) [
        | inr other ↦ (
          false,
          false_case (s.element_count == t.element_count) (some false) _ other,
          (λ h. cc h, λ h. let e = ap length h in absurd (ground arith)),
        )
        | inl same ↦
            let room = p.laid.room in
            let run =
              compare_lem s t (s.fresh + 1) header header p.order q.order (omega arith) p.laid.nodes
                q.laid.nodes (bottom-Chain s p.order p.laid) (bottom-Chain t q.order q.laid) in
            (
              same_pairs l m,
              true_case (s.element_count == t.element_count) (some false) _ same
                  ∙ rw (left, right) (run ∙ rw (p.holds, q.holds) refl),
              same_pairs_iff l m (ground arith),
            )
      ]
