-- ===== src/SkipList/Shrink.antt =====
-- A node out of a laid list: what the list is after its deletion.
use raft_storage.Common.{
  contains-append, contains, ℕ, suc, ◌≤◌, ◌<◌, ◌≡◌, refl, sym, subst, ◌∙◌, inl, inr, true, false,
  none, List, [], ◌∷◌, ◌++◌, arith, ltb, leb, ◌==◌, ltb→lt, leb→le, Bool-cases, All, length-append,
}
use raft_storage.SkipList.{SkipList, header}
use raft_storage.SkipList.Shape.{
  pair_at, IsLaid, level_of, next_on, Sound, contents, contents_same, contents-append,
}
use raft_storage.SkipList.Chains.{last, differ, Chain, Chain-remove, Chain-same}
use raft_storage.SkipList.Levels.{keep, keep_same, keep-append, keep_none}
use raft_storage.SkipList.Search.{All-right}

pub All-of {κ} : (P : ℕ → Type κ) (xs : List ℕ) → ((a : ℕ) → contains xs a ≡ true → P a) → All P xs
All-of P [] h = tt
All-of P (x ∷ xs) h = (h x (ground arith), All-of P xs (λ a m. h a (ground arith)))

pub All_at {κ} : (P : ℕ → Type κ) (xs : List ℕ) (a : ℕ) → All P xs → contains xs a ≡ true → P a
All_at P [] a h m = cc m
All_at P (x ∷ xs) a h m = elim (Bool-cases (x == a)) [
  | inl same ↦ let e : x ≡ a = ground arith in subst P e h.0
  | inr other ↦ All_at P xs a h.1 (rw other at m)
]

module _ {ℓ κ} {K : Type ℓ} {V : Type κ} where
  -- The list `t` is `s` without the node `x`, which stands after `b j` on the levels up to its own.
  pub record Shrunk (s t : SkipList K V) (x : ℕ) (b : ℕ → ℕ) : Type (ℓ ⊔ κ) where
    pub pairs : (y : ℕ) → pair_at t y ≡ pair_at s y
    pub levels : (y : ℕ) → level_of t y ≡ level_of s y
    pub live : (y : ℕ) → (x == y) ≡ false → t.live y ≡ s.live y
    pub gone : t.live x ≡ false
    pub fresh : t.fresh ≡ s.fresh
    pub max_level : t.max_level ≡ s.max_level
    pub cur_level : t.cur_level ≤ s.cur_level
    pub skipped : (i : ℕ) → i ≤ level_of s x → next_on t i (b i) ≡ next_on s i x
    pub others : (i y : ℕ) → (i ≤ level_of s x → (y == b i) ≡ false) → next_on t i y ≡ next_on s i y
    pub empty : (i : ℕ) → t.cur_level < i → i ≤ s.cur_level → next_on t i header ≡ none

  module _ (s t : SkipList K V) (x : ℕ) (b : ℕ → ℕ) (w : Shrunk s t x b) (lo hi : List ℕ)
      (laid : IsLaid s (lo ++ x ∷ hi)) (out : contains (lo ++ hi) x ≡ false)
      (ends : (i : ℕ) → last header (keep (level_of s) i lo) ≡ b i) where
    apart : (y : ℕ) → contains (lo ++ hi) y ≡ true → (x == y) ≡ false
    apart y m = let d = differ (lo ++ hi) y x m out in ground arith

    shrunk_levels :
        (i : ℕ) → keep (level_of t) i (lo ++ hi) ≡ keep (level_of s) i lo ++ keep (level_of s) i hi
    shrunk_levels i =
        keep_same (level_of s) (level_of t) i (lo ++ hi) (λ y m. w.levels y)
        ∙ keep-append (level_of s) i lo hi

    shrunk-Chain :
        (i : ℕ) → i ≤ s.max_level → Chain (next_on t i) header (keep (level_of t) i (lo ++ hi))
    unfolding keep
    shrunk-Chain i h =
        let old =
          subst (Chain (next_on s i) header) (keep-append (level_of s) i lo (x ∷ hi))
            (laid.chains i h) in
        subst (Chain (next_on t i) header) (sym (shrunk_levels i))
          (elim (Bool-cases (leb i (level_of s x))) [
            | inl on ↦
                let up = leb→le _ _ on in
                Chain-remove (next_on s i) (next_on t i) x (b i) (λ y n m. w.others i y (λ _. m))
                  (w.skipped i up) header (keep (level_of s) i lo) (keep (level_of s) i hi) (ends i)
                  (rw on at old)
            | inr off ↦
                Chain-same (next_on s i) (next_on t i) header
                  (keep (level_of s) i lo ++ keep (level_of s) i hi)
                  (λ y m. w.others i y (λ u. ground arith)) (rw off at old)
          ])

    old-Sound : (y : ℕ) → contains (lo ++ hi) y ≡ true → Sound s y
    old-Sound y m =
        let p = contains-append lo hi y in
        let q = contains-append lo (x ∷ hi) y in
        All_at (Sound s) (lo ++ x ∷ hi) y laid.nodes (ground arith)

    -- No node is higher than the lowered level.
    shrunk_low : All (λ y. level_of t y < suc t.cur_level) (lo ++ hi)
    shrunk_low = elim (Bool-cases (ltb t.cur_level s.cur_level)) [
      | inr same ↦
          All-of (λ y. level_of t y < suc t.cur_level) (lo ++ hi)
            (λ y m.
              let top : s.cur_level ≤ t.cur_level = ground arith in
              let h = old-Sound y m in omega (arith, h.level, w.levels y))
      | inl less ↦
          let lt = ltb→lt _ _ less in
          let chain = shrunk-Chain (suc t.cur_level) (omega (arith, laid.low)) in
          let none_on = w.empty (suc t.cur_level) (omega arith) (omega arith) in
          keep_none (level_of t) (suc t.cur_level) (lo ++ hi) (no_chain _ none_on chain)
    ]
      where
        no_chain :
            (ys : List ℕ)
            → next_on t (suc t.cur_level) header ≡ none
            → Chain (next_on t (suc t.cur_level)) header ys
            → ys ≡ []
        no_chain [] e h = refl
        no_chain (y ∷ ys) e h = let e' = sym e ∙ h.0 in cc e'

    pub Shrunk-IsLaid : IsLaid t (lo ++ hi)
    Shrunk-IsLaid =
        let here = (All-right (Sound s) lo (x ∷ hi) laid.nodes).0.not_header in
        let n : (x == header) ≡ false = ground arith in
        record {
          header_live = w.live header n ∙ laid.header_live;
          header_level = w.levels header ∙ laid.header_level ∙ sym w.max_level;
          low = omega (arith, w.cur_level, w.max_level, laid.low);
          nodes = All-of (Sound t) (lo ++ hi) (λ y m.
              let old = old-Sound y m in
              let bound = All_at (λ y. level_of t y < suc t.cur_level) (lo ++ hi) y shrunk_low m in
              record {
                live = w.live y (apart y m) ∙ old.live;
                level = omega (arith, bound);
                not_header = old.not_header;
                old = omega (arith, old.old, w.fresh);
              });
          chains = λ i h. shrunk-Chain i (omega (arith, w.max_level));
          only = λ y live. elim (Bool-cases (x == y)) [
            | inl same ↦
                let e : x ≡ y = ground arith in
                let dead = subst (λ z. t.live z ≡ false) e w.gone in cc dead
            | inr other ↦
                let old = laid.only y (sym (w.live y other) ∙ live) in
                let p = contains-append lo (x ∷ hi) y in
                let q = contains-append lo hi y in ground arith
          ];
          room = omega (arith, w.fresh, laid.room, length-append lo hi, length-append lo (x ∷ hi));
        }

    pub Shrunk-contents : contents t (lo ++ hi) ≡ contents s lo ++ contents s hi
    Shrunk-contents = contents_same s t (lo ++ hi) (λ y m. w.pairs y) ∙ contents-append s lo hi
