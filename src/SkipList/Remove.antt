-- ===== src/SkipList/Remove.antt =====
-- The removal of a found node: the pointers, the level and the deletion.
use raft_storage.Common.{
  contains-append, contains, ℕ, ◌+◌, ◌-◌, ◌≤◌, ◌<◌, ◌≡◌, refl, ap, ◌∙◌, ◌≢◌, inl, inr, true, false,
  Option, none, some, List, [], ◌∷◌, ◌++◌, arith, leb, ◌==◌, leb→le, le→leb, gt→leb, Bool-cases,
  All, update, update_ne, update_self,
}
use raft_storage.SkipList.Find.{Chain-before, before-has_level, low_apart}
use raft_storage.SkipList.{KeyOrder, SkipList, header, points_to, delete_node}
use raft_storage.SkipList.Edit.{remove}
use raft_storage.SkipList.Shape.{
  IsLaid, next_on, Sound, level_of, Sound-has_level, header-has_level, bottom-Chain,
}
use raft_storage.SkipList.Chains.{Chain, Chain-once, Chain-append}
use raft_storage.SkipList.Search.{IsLow, IsHigh, before, All-right}
use raft_storage.SkipList.Writes.{SameNodes, has_level-SameNodes}
use raft_storage.SkipList.Levels.{keep, keep_out}
use raft_storage.SkipList.Unlink.{unlinked, unlink_lem, lower_lem}
use raft_storage.SkipList.Shrink.{Shrunk}

not_next :
    (f : ℕ → Option ℕ) (c x : ℕ) (ys : List ℕ)
    → Chain f c ys
    → contains ys x ≡ false
    → points_to (f c) x ≡ false
unfolding points_to
not_next f c x [] h m = rw h refl
not_next f c x (y ∷ ys) h m = rw h.0 (ground arith)

module _ {ℓ κ} {K : Type ℓ} {V : Type κ} (o : KeyOrder K) (s : SkipList K V) (k : K) (x : ℕ)
    (lo hi : List ℕ) (laid : IsLaid s (lo ++ x ∷ hi)) (l : All (IsLow o s k) lo)
    (g : All (IsHigh o s k) (x ∷ hi)) where
  abbrev b : ℕ → ℕ
  b = before o s k lo (x ∷ hi) laid l g

  abbrev top : ℕ
  top = level_of s x

  here : Sound s x
  here = (All-right (Sound s) lo (x ∷ hi) laid.nodes).0

  not_after : contains hi x ≡ false
  not_after =
      let chain = bottom-Chain s (lo ++ x ∷ hi) laid in
      Chain-once (next_on s 0) x hi (Chain-append (next_on s 0) header lo (x ∷ hi) chain).1

  pub not_there : contains (lo ++ hi) x ≡ false
  not_there =
      let p = contains-append lo hi x in
      let q = low_apart o s k x lo l g.0 in let r = not_after in ground arith

  points_here : (j : ℕ) → j ≤ top → next_on s j (b j) ≡ some x
  unfolding keep
  points_here j h =
      let chain = Chain-before o s k lo (x ∷ hi) laid l g j (omega (arith, here.level, laid.low)) in
      (rw (le→leb j top h) at chain).0

  points_past : (j : ℕ) → top < j → j ≤ s.max_level → points_to (next_on s j (b j)) x ≡ false
  unfolding keep
  points_past j h m =
      let chain = Chain-before o s k lo (x ∷ hi) laid l g j m in
      not_next (next_on s j) (b j) x (keep (level_of s) j hi) (rw (gt→leb j top h) at chain)
        (keep_out (level_of s) j hi x not_after)

  -- The lists after the node is unlinked, the level is lowered and the node is deleted.
  abbrev without : SkipList K V → ℕ → ℕ → SkipList K V
  without t c n = record t { cur_level = c; live = update t.live x false; element_count = n }

  without-Shrunk :
      (t : SkipList K V) (c n : ℕ)
      → SameNodes s t
      → ((j y : ℕ) → next_on t j y ≡ unlinked s x b top 0 (s.cur_level + 1) j y)
      → c ≤ s.cur_level
      → ((j : ℕ) → c < j → j ≤ s.cur_level → next_on t j header ≡ none)
      → Shrunk s (without t c n) x b
  without-Shrunk t c n same f low empty = record {
    pairs = same.pairs;
    levels = same.levels;
    live = λ y d.
        let d' : x ≢ y = λ e. ground arith in
        update_ne t.live x y false d' ∙ ap (λ p. p y) same.live;
    gone = update_self t.live x false;
    fresh = same.fresh;
    max_level = same.max_level;
    cur_level = low;
    skipped = λ i h. let m = here.level in f i (b i) ∙ ground arith;
    others = λ i y d. f i y ∙ off i y d;
    empty = empty;
  }
    where
      off :
          (i y : ℕ)
          → (i ≤ top → (y == b i) ≡ false)
          → unlinked s x b top 0 (s.cur_level + 1) i y ≡ next_on s i y
      off i y d = elim (Bool-cases (leb i top)) [
        | inl on ↦ let d' = d (leb→le _ _ on) in ground arith
        | inr high ↦ ground arith
      ]

  pub remove_lem :
      (u : ℕ → Option ℕ)
      → ((j : ℕ) → j ≤ s.cur_level → u j ≡ some (b j))
      → (t : SkipList K V) × (remove x u s ≡ some t)
        × Shrunk s t x b
        × (t.element_count ≡ s.element_count - 1)
  unfolding remove delete_node
  remove_lem u set =
      let m = laid.low in
      let (t, run, same, f) =
        unlink_lem (s.cur_level + 1) 0 x top b u s (λ j _ h. set j (omega arith))
          (λ j _ h. before-has_level o s k lo (x ∷ hi) laid l g j (omega arith))
          (λ j _ h. Sound-has_level s x j here h) (λ j _ h. points_here j h)
          (λ j _ h h'. points_past j h (omega arith)) in
      let (c, lowered, low, empty) = lower_lem t.cur_level t (λ j h.
        has_level-SameNodes header j same
          (header-has_level s (lo ++ x ∷ hi) j laid (omega (arith, same.cur_level)))) in
      let live : t.live x ≡ true = ap (λ p. p x) same.live ∙ here.live in
      let count = same.element_count in
      (
        without t c (t.element_count - 1),
        rw (run, lowered, live) refl,
        without-Shrunk t c (t.element_count - 1) same f (omega (arith, same.cur_level))
            (λ j h h'. empty j h (omega (arith, same.cur_level))),
        ap (λ n. n - 1) count,
      )
