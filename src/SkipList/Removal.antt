-- ===== src/SkipList/Removal.antt =====
-- `erase` against the abstract list: the whole operation.
use raft_storage.SkipList.Remove.{remove_lem, not_there}
use raft_storage.Common.{
  ℕ, ◌≤◌, ◌≡◌, refl, sym, ap, subst, ◌∙◌, inl, inr, true, false, Option, none, some, List, [], ◌∷◌,
  ◌++◌, arith, Bool-cases, is_some, length, All, length-append,
}
use raft_storage.SkipList.Find.{Represents, hit, split_order, read_before, hits_lem, look-append}
use raft_storage.SkipList.{KeyOrder, SkipList}
use raft_storage.SkipList.Edit.{erase, search_key}
use raft_storage.SkipList.Assoc.{IsTotal, del, look, IsSorted, del-IsSorted}
use raft_storage.SkipList.Shape.{IsLaid, contents, pair_at, contents-append}
use raft_storage.SkipList.Search.{IsLow, IsHigh, before, search_lem}
use raft_storage.SkipList.Shrink.{Shrunk-IsLaid, Shrunk-contents}

del-append {ℓ κ} :
    {K : Type ℓ} {V : Type κ} (o : KeyOrder K) (s : SkipList K V) (k : K) (lo hi : List ℕ)
    → All (IsLow o s k) lo
    → del o k (contents s (lo ++ hi)) ≡ contents s lo ++ del o k (contents s hi)
unfolding del
del-append o s k [] hi l = refl
del-append o s k (x ∷ lo) hi l = rw l.0 (ap (◌∷◌ (pair_at s x)) (del-append o s k lo hi l.1))

-- The branch on which the key is missing.
missing {ℓ κ} :
    {K : Type ℓ} {V : Type κ} (o : KeyOrder K) (s : SkipList K V) (k : K) (hi : List ℕ)
    → All (IsHigh o s k) hi
    → hit o s k hi ≡ false
    → (look o k (contents s hi) ≡ none) × (del o k (contents s hi) ≡ contents s hi)
unfolding look del
missing o s k [] g h = (refl, refl)
missing o s k (x ∷ hi) g h = (rw (g.0, h) refl, rw (g.0, h) refl)

-- The branch on which the key is there.
erase_hit {ℓ κ} :
    {K : Type ℓ} {V : Type κ} (o : KeyOrder K) (s : SkipList K V) (k : K) (u : ℕ → Option ℕ)
    (lo hi : List ℕ) (laid : IsLaid s (lo ++ hi)) (l : All (IsLow o s k) lo)
    (g : All (IsHigh o s k) hi)
    → search_key o s k ≡ some (before o s k lo hi laid l g 0, u)
    → ((j : ℕ) → j ≤ s.cur_level → u j ≡ some (before o s k lo hi laid l g j))
    → s.element_count ≡ length (lo ++ hi)
    → IsSorted o (del o k (contents s (lo ++ hi)))
    → hit o s k hi ≡ true
    → (t : SkipList K V) × (erase o k s ≡ some (t, is_some (look o k (contents s hi))))
      × Represents o t (del o k (contents s (lo ++ hi)))
unfolding erase look del
erase_hit o s k u lo [] laid l g run set count sorted same = cc same
erase_hit o s k u lo (x ∷ hi) laid l g run set count sorted same =
    let (t, removed, shrunk, n) = remove_lem o s k x lo hi laid l g u set in
    let out = not_there o s k x lo hi laid l g in
    let rest : del o k (contents s (x ∷ hi)) ≡ contents s hi = rw (g.0, same) refl in
    (
      t,
      rw
          (
            run,
            read_before o s k lo (x ∷ hi) laid l g,
            hits_lem o s k lo (x ∷ hi) laid l g,
            same,
            removed,
            g.0,
          )
          refl,
      record {
        order = lo ++ hi;
        laid = Shrunk-IsLaid s t x _ shrunk lo hi laid out (λ i. refl);
        holds =
            Shrunk-contents s t x _ shrunk lo hi laid out (λ i. refl)
            ∙ sym (del-append o s k lo (x ∷ hi) l ∙ ap (λ e. contents s lo ++ e) rest);
        sorted = sorted;
        count = n ∙ omega (arith, count, length-append lo hi, length-append lo (x ∷ hi));
      },
    )

-- `erase` ends and answers whether the key was there, and what the list stands for afterwards is the
-- abstract list without the key.
pub erase_lem {ℓ κ} :
    {K : Type ℓ} {V : Type κ} (o : KeyOrder K) (total : IsTotal o) (s : SkipList K V)
    (m : List (K × V)) (k : K)
    → Represents o s m
    → (t : SkipList K V) × (erase o k s ≡ some (t, is_some (look o k m)))
      × Represents o t (del o k m)
unfolding erase
erase_lem o total s m k r =
    let (lo, hi, e, l, g) =
      split_order o s k total r.order (subst (IsSorted o) (sym r.holds) r.sorted) in
    let laid = subst (IsLaid s) e r.laid in
    let holds : contents s (lo ++ hi) ≡ m = ap (contents s) (sym e) ∙ r.holds in
    let (u, run, set) = search_lem o s k lo hi laid l g in
    let count : s.element_count ≡ length (lo ++ hi) = r.count ∙ ap length e in
    let sorted = del-IsSorted o total k m r.sorted in
    let answer : look o k (contents s hi) ≡ look o k m =
      sym (look-append o s k lo hi l) ∙ ap (look o k) holds in
    elim (Bool-cases (hit o s k hi)) [
      | inl there ↦
          let (t, erased, r') =
            erase_hit o s k u lo hi laid l g run set count
              (subst (λ e. IsSorted o (del o k e)) (sym holds) sorted) there in
          (
            t,
            erased ∙ ap (λ a. some (t, is_some a)) answer,
            subst (λ e. Represents o t (del o k e)) holds r',
          )
      | inr out ↦
          let (none_there, kept) = missing o s k hi g out in
          let same : m ≡ del o k m =
            sym holds
            ∙ contents-append s lo hi
            ∙ ap (λ e. contents s lo ++ e) (sym kept)
            ∙ sym (del-append o s k lo hi l)
            ∙ ap (del o k) holds in
          (
            s,
            rw
                (
                  run,
                  read_before o s k lo hi laid l g,
                  hits_lem o s k lo hi laid l g,
                  out,
                  sym answer,
                  none_there,
                )
                refl,
            subst (Represents o s) same r,
          )
    ]
