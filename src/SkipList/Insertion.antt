-- ===== src/SkipList/Insertion.antt =====
-- `insert` against the abstract list: the whole operation.
use raft_storage.Common.{
  contains, ℕ, ◌≡◌, refl, sym, ap, subst, ◌∙◌, ◌≢◌, inl, inr, true, false, Option, some, List, [],
  ◌∷◌, ◌++◌, arith, Bool-cases, length, All, length-append, update_self, update_ne,
}
use raft_storage.SkipList.Find.{Represents, hit, split_order, read_before, hits_lem, low_apart}
use raft_storage.SkipList.{KeyOrder, SkipList, header, put_value, set_value, Node, get_random_level}
use raft_storage.SkipList.Search.{IsLow, IsHigh, All-map, before, All-right, search_lem}
use raft_storage.SkipList.Assoc.{put, IsTotal, IsSorted, put-IsSorted}
use raft_storage.SkipList.Shape.{
  IsLaid, contents, pair_at, contents_same, next_on, Sound, level_of, contents-append, bottom-Chain,
}
use raft_storage.SkipList.Edit.{insert, search_key}
use raft_storage.SkipList.Chains.{Chain, differ, Chain-same, Chain-once, Chain-append}
use raft_storage.SkipList.Writes.{update_field}
use raft_storage.SkipList.Levels.{keep, keep_same}
use raft_storage.SkipList.Insert.{get_random_level-le, insert_new-Grown}
use raft_storage.SkipList.Grow.{Grown-IsLaid, Grown-contents}

module _ {ℓ κ} {K : Type ℓ} {V : Type κ} (o : KeyOrder K) (s : SkipList K V) (k : K) (v : V) where
  put-append :
      (lo hi : List ℕ)
      → All (IsLow o s k) lo
      → put o k v (contents s (lo ++ hi)) ≡ contents s lo ++ put o k v (contents s hi)
  unfolding put
  put-append [] hi l = refl
  put-append (x ∷ lo) hi l = rw l.0 (ap (◌∷◌ (pair_at s x)) (put-append lo hi l.1))

  put_new :
      (hi : List ℕ)
      → All (IsHigh o s k) hi
      → hit o s k hi ≡ false
      → put o k v (contents s hi) ≡ (k, v) ∷ contents s hi
  unfolding put
  put_new [] g h = refl
  put_new (y ∷ hi) g h = rw (g.0, h) refl

  -- The list with a new value at one of its nodes.
  set_value-IsLaid : (a : ℕ) (order : List ℕ) → IsLaid s order → IsLaid (put_value s a v) order
  set_value-IsLaid a order laid =
      let t = put_value s a v in
      let levels = update_field s.cells a (record (s.cells a) { value = v }) (λ c. c.level) refl in
      record {
        header_live = laid.header_live;
        header_level = levels header ∙ laid.header_level;
        low = laid.low;
        nodes =
            All-map (Sound s) (Sound t) order
              (λ x h. record {
                live = h.live;
                level = omega (arith, levels x, h.level);
                not_header = h.not_header;
                old = h.old;
              })
              laid.nodes;
        chains = λ i h.
            Chain-same (next_on s i) (next_on t i) header (keep (level_of t) i order)
              (λ b m.
                update_field s.cells a (record (s.cells a) { value = v }) (λ c. c.forward i) refl b)
              (subst (Chain (next_on s i) header)
                (sym (keep_same (level_of s) (level_of t) i order (λ x m. levels x)))
                (laid.chains i h));
        room = laid.room;
        only = laid.only;
      }

  put_value-contents :
      (a : ℕ) (xs : List ℕ) → contains xs a ≡ false → contents (put_value s a v) xs ≡ contents s xs
  put_value-contents a xs h = contents_same s (put_value s a v) xs (λ x m.
      let d = differ xs x a m h in
      let n : a ≢ x = λ e. ground arith in
      ap (λ (c : Node K V). (c.key, c.value))
        (update_ne s.cells a x (record (s.cells a) { value = v }) n))

  set_value_case :
      (lo hi : List ℕ) (a : ℕ)
      → IsLaid s (lo ++ a ∷ hi)
      → All (IsLow o s k) lo
      → o.less (s.cells a).key k ≡ false
      → o.same (s.cells a).key k ≡ true
      → contents (put_value s a v) (lo ++ a ∷ hi) ≡ put o k v (contents s (lo ++ a ∷ hi))
  unfolding put
  set_value_case lo hi a laid l g h =
      let chain = bottom-Chain s (lo ++ a ∷ hi) laid in
      let once =
        Chain-once (next_on s 0) a hi (Chain-append (next_on s 0) header lo (a ∷ hi) chain).1 in
      let left = put_value-contents a lo (low_apart o s k a lo l g) in
      let right = put_value-contents a hi once in
      let here : pair_at (put_value s a v) a ≡ ((s.cells a).key, v) =
        ap (λ (c : Node K V). (c.key, c.value))
          (update_self s.cells a (record (s.cells a) { value = v })) in
      let after : put o k v (contents s (a ∷ hi)) ≡ ((s.cells a).key, v) ∷ contents s hi =
        rw (g, h) refl in
      rw
        (
          contents-append (put_value s a v) lo (a ∷ hi),
          left,
          right,
          here,
          put-append lo (a ∷ hi) l,
          after,
        )
        refl

-- The branch on which the key is there.
known_case {ℓ κ} :
    {K : Type ℓ} {V : Type κ} (o : KeyOrder K) (s : SkipList K V) (m : List (K × V)) (k : K) (v : V)
    (u : ℕ → Option ℕ) (rolls : List ℕ) (lo hi : List ℕ) (laid : IsLaid s (lo ++ hi))
    (l : All (IsLow o s k) lo) (g : All (IsHigh o s k) hi)
    → hit o s k hi ≡ true
    → search_key o s k ≡ some (before o s k lo hi laid l g 0, u)
    → contents s (lo ++ hi) ≡ m
    → s.element_count ≡ length (lo ++ hi)
    → IsSorted o (put o k v m)
    → (t : SkipList K V) × (insert o rolls k v s ≡ some (t, true)) × Represents o t (put o k v m)
unfolding insert set_value
known_case o s m k v u rolls lo [] laid l g h run holds count sorted = cc h
known_case o s m k v u rolls lo (a ∷ hi) laid l g h run holds count sorted =
    let live = (All-right (Sound s) lo (a ∷ hi) laid.nodes).0.live in
    (
      put_value s a v,
      rw (run, read_before o s k lo (a ∷ hi) laid l g, hits_lem o s k lo (a ∷ hi) laid l g, h, live)
          refl,
      record {
        order = lo ++ a ∷ hi;
        laid = set_value-IsLaid o s k v a (lo ++ a ∷ hi) laid;
        holds = set_value_case o s k v lo hi a laid l g.0 h ∙ ap (put o k v) holds;
        sorted = sorted;
        count = count;
      },
    )

-- `insert` ends, answers true, and what the list stands for afterwards is the abstract list with the
-- key set to the value.
pub insert_lem {ℓ κ} :
    {K : Type ℓ} {V : Type κ} (o : KeyOrder K) (total : IsTotal o) (s : SkipList K V)
    (m : List (K × V)) (rolls : List ℕ) (k : K) (v : V)
    → Represents o s m
    → (t : SkipList K V) × (insert o rolls k v s ≡ some (t, true)) × Represents o t (put o k v m)
unfolding insert set_value
insert_lem o total s m rolls k v r =
    let (lo, hi, e, l, g) =
      split_order o s k total r.order (subst (IsSorted o) (sym r.holds) r.sorted) in
    let laid = subst (IsLaid s) e r.laid in
    let holds : contents s (lo ++ hi) ≡ m = ap (contents s) (sym e) ∙ r.holds in
    let count : s.element_count ≡ length (lo ++ hi) = r.count ∙ ap length e in
    let sorted = put-IsSorted o total k v m r.sorted in
    let (u, run, set) = search_lem o s k lo hi laid l g in
    elim (Bool-cases (hit o s k hi)) [
      | inl here ↦ known_case o s m k v u rolls lo hi laid l g here run holds count sorted
      | inr new ↦
          let low = get_random_level-le rolls s in
          let (t, made, grown, n) =
            insert_new-Grown o s k v lo hi laid l g (get_random_level rolls s) u low set in
          (
            t,
            rw (run, read_before o s k lo hi laid l g, hits_lem o s k lo hi laid l g, new, made)
                refl,
            record {
              order = lo ++ s.fresh ∷ hi;
              laid =
                  Grown-IsLaid s t (get_random_level rolls s) _ k v grown lo hi laid low
                    (λ i. refl);
              holds =
                  Grown-contents s t (get_random_level rolls s) _ k v grown lo hi laid low
                    (λ i. refl)
                  ∙ ap (λ x. contents s lo ++ x) (sym (put_new o s k v hi g new))
                  ∙ sym (put-append o s k v lo hi l)
                  ∙ ap (put o k v) holds;
              sorted = sorted;
              count =
                  n ∙ omega (arith, count, length-append lo hi, length-append lo (s.fresh ∷ hi));
            },
          )
    ]
