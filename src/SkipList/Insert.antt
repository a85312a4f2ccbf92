-- ===== src/SkipList/Insert.antt =====
-- `insert` against the abstract list.
use raft_storage.Common.{
  ℕ, ◌+◌, ◌≤◌, ◌<◌, max, ◌≡◌, refl, ap, ◌∙◌, ◌≢◌, inl, inr, true, false, Option, none, some, List,
  [], ◌++◌, arith, ltb, leb, ◌==◌, if◌then◌else◌, ltb→lt, leb→le, le→leb, Bool-cases, All,
  update_self, update_ne,
}
use raft_storage.SkipList.{
  KeyOrder, SkipList, header, has_level, get_random_level, create_node, Node,
}
use raft_storage.SkipList.Shape.{IsLaid, Sound, pair_at, level_of, next_on}
use raft_storage.SkipList.Search.{IsLow, IsHigh, All-map, before, All-left, All_last}
use raft_storage.SkipList.Edit.{raise_update, insert_new}
use raft_storage.SkipList.Find.{before-has_level}
use raft_storage.SkipList.Levels.{keep, All-keep, keep_high}
use raft_storage.SkipList.Writes.{SameNodes, link_lem, linked}
use raft_storage.SkipList.Grow.{Grown}

abbrev random_bound : ℕ → ℕ → ℕ
random_bound n top = if ltb n top then n else top

pub get_random_level-le {ℓ κ} :
    {K : Type ℓ} {V : Type κ} (rolls : List ℕ) (s : SkipList K V)
    → get_random_level rolls s ≤ s.max_level
unfolding get_random_level
get_random_level-le rolls s = ground arith

module _ {ℓ κ} {K : Type ℓ} {V : Type κ} (o : KeyOrder K) (s : SkipList K V) (k : K) (v : V)
    (lo hi : List ℕ) (laid : IsLaid s (lo ++ hi)) (l : All (IsLow o s k) lo)
    (g : All (IsHigh o s k) hi) where
  abbrev b : ℕ → ℕ
  b = before o s k lo hi laid l g

  module _ (r : ℕ) (u : ℕ → Option ℕ) (low : r ≤ s.max_level)
      (set : (j : ℕ) → j ≤ s.cur_level → u j ≡ some (b j)) where
    raised_update : (j : ℕ) → j ≤ r → raise_update s.cur_level r u j ≡ some (b j)
    unfolding raise_update
    raised_update j h = elim (Bool-cases (ltb s.cur_level j)) [
      | inr known ↦ let old = set j (ground arith) in rw known old
      | inl above ↦
          let top = ltb→lt _ _ above in
          let empty : keep (level_of s) j lo ≡ [] = keep_high (level_of s) j lo (
            All-map (Sound s) _ lo (λ x n. omega (arith, n.level))
              (All-left (Sound s) lo hi laid.nodes)) in
          rw (above, le→leb j r h, empty) refl
    ]

    -- The list in which the new node stands, before its pointers are set.
    abbrev made : SkipList K V
    made = create_node k v r (record s { cur_level = max s.cur_level r })

    made_apart :
        (x : ℕ) → (s.fresh == x) ≡ false → (made.cells x ≡ s.cells x) × (made.live x ≡ s.live x)
    unfolding create_node
    made_apart x d =
        let n : s.fresh ≢ x = λ e. ground arith in
        (update_ne s.cells s.fresh x _ n, update_ne s.live s.fresh x _ n)

    made_here :
        (pair_at made s.fresh ≡ (k, v)) × (level_of made s.fresh ≡ r) × (made.live s.fresh ≡ true)
    unfolding create_node
    made_here =
        let node : Node K V = record { key = k; value = v; level = r; forward = λ i. none } in
        let e = update_self s.cells s.fresh node in
        (
          ap (λ (c : Node K V). (c.key, c.value)) e,
          ap (λ (c : Node K V). c.level) e,
          update_self s.live s.fresh true,
        )

    before_old : (j : ℕ) → (s.fresh == b j) ≡ false
    before_old j =
        let old =
          All-map (λ x. (Sound s x) × (j ≤ level_of s x)) (λ x. x < s.fresh)
            (keep (level_of s) j lo) (λ x h. h.0.old)
            (All-keep (level_of s) (Sound s) j lo (All-left (Sound s) lo hi laid.nodes)) in
        let less : b j < s.fresh =
          All_last (λ x. x < s.fresh) header (keep (level_of s) j lo) (omega (arith, laid.room))
            old in
        ground arith

    made_before : (j : ℕ) → j ≤ r → has_level made (b j) j ≡ true
    made_before j h =
        let (cell, live) = made_apart (b j) (before_old j) in
        rw (live, cell) (before-has_level o s k lo hi laid l g j (omega arith))

    made_level : (j : ℕ) → j ≤ r → has_level made s.fresh j ≡ true
    made_level j h = let (_, level, live) = made_here in rw (live, level) (le→leb j r h)

    link-Grown :
        (t : SkipList K V)
        → SameNodes made t
        → ((j x : ℕ) → next_on t j x ≡ linked made s.fresh b 0 (r + 1) j x)
        → (n : ℕ) → Grown s (record t { element_count = n }) s.fresh r b k v
    unfolding create_node
    link-Grown t same f n =
        let (pair, level, live) = made_here in
        record {
          pairs =
              λ x d. same.pairs x ∙ ap (λ (c : Node K V). (c.key, c.value)) ((made_apart x d).0);
          levels = λ x d. same.levels x ∙ ap (λ (c : Node K V). c.level) ((made_apart x d).0);
          live = λ x d. ap (λ p. p x) same.live ∙ (made_apart x d).1;
          pair = same.pairs s.fresh ∙ pair;
          level = same.levels s.fresh ∙ level;
          live_here = ap (λ p. p s.fresh) same.live ∙ live;
          fresh = same.fresh;
          max_level = same.max_level;
          cur_level = same.cur_level;
          linked_here = λ i h.
              f i s.fresh
              ∙ ground arith
              ∙ ap (λ (c : Node K V). c.forward i) ((made_apart (b i) (before_old i)).0);
          linked_before = λ i h. let d = before_old i in f i (b i) ∙ ground arith;
          others = λ i x d c.
              f i x ∙ off i x d c ∙ ap (λ (c : Node K V). c.forward i) ((made_apart x d).0);
        }
      where
        off :
            (i x : ℕ)
            → (s.fresh == x) ≡ false
            → (i ≤ r → (x == b i) ≡ false)
            → linked made s.fresh b 0 (r + 1) i x ≡ next_on made i x
        off i x d n = elim (Bool-cases (leb i r)) [
          | inl low ↦ let n' = n (leb→le _ _ low) in ground arith
          | inr high ↦ ground arith
        ]

    made_count : made.element_count ≡ s.element_count
    unfolding create_node
    made_count = refl

    pub insert_new-Grown :
        (t : SkipList K V) × (insert_new k v r u s ≡ some t)
        × Grown s t s.fresh r b k v
        × (t.element_count ≡ s.element_count + 1)
    unfolding insert_new
    insert_new-Grown =
        let (t, run, same, f) =
          link_lem (r + 1) 0 s.fresh b (raise_update s.cur_level r u) made
            (λ j _ m. raised_update j (omega arith)) (λ j _ m. made_before j (omega arith))
            (λ j _ m. made_level j (omega arith)) (λ j _ m. before_old j) in
        let done = record t { element_count = t.element_count + 1 } in
        (
          done,
          rw run refl,
          link-Grown t same f (t.element_count + 1),
          ap (λ n. n + 1) (same.element_count ∙ made_count),
        )
