-- ===== src/SkipList/Grow.antt =====
-- A new node in a laid list: what the list is after its insertion.
use raft_storage.Common.{
  contains-append, contains, ℕ, suc, ◌≤◌, ◌<◌, max, ◌≡◌, refl, sym, ap, subst, ◌∙◌, inl, inr, true,
  false, some, List, [], ◌∷◌, ◌++◌, arith, leb, ◌==◌, if◌then◌else◌, leb→le, Bool-cases, All,
  length-append,
}
use raft_storage.SkipList.{SkipList, header}
use raft_storage.SkipList.Shape.{
  pair_at, IsLaid, level_of, next_on, Sound, contents, contents_same, contents-append,
}
use raft_storage.SkipList.Search.{All-map, All-append, All-left, All-right}
use raft_storage.SkipList.Chains.{last, Chain, differ, Chain-insert, Chain-same}
use raft_storage.SkipList.Levels.{keep, keep-append, keep_same, keep_out, contains-keep}

pub not_fresh : (xs : List ℕ) (n : ℕ) → All (λ x. x < n) xs → contains xs n ≡ false
not_fresh [] n h = refl
not_fresh (x ∷ xs) n h = ground (arith, h.0, not_fresh xs n h.1)

module _ {ℓ κ} {K : Type ℓ} {V : Type κ} where
  -- The list `t` has, besides the nodes of `s`, the node `a` on the levels up to `r`, after `b j` on
  -- level `j`.
  pub record Grown (s t : SkipList K V) (a r : ℕ) (b : ℕ → ℕ) (k : K) (v : V) : Type (ℓ ⊔ κ) where
    pub pairs : (x : ℕ) → (a == x) ≡ false → pair_at t x ≡ pair_at s x
    pub levels : (x : ℕ) → (a == x) ≡ false → level_of t x ≡ level_of s x
    pub live : (x : ℕ) → (a == x) ≡ false → t.live x ≡ s.live x
    pub pair : pair_at t a ≡ (k, v)
    pub level : level_of t a ≡ r
    pub live_here : t.live a ≡ true
    pub fresh : t.fresh ≡ suc a
    pub max_level : t.max_level ≡ s.max_level
    pub cur_level : t.cur_level ≡ max s.cur_level r
    pub linked_here : (i : ℕ) → i ≤ r → next_on t i a ≡ next_on s i (b i)
    pub linked_before : (i : ℕ) → i ≤ r → next_on t i (b i) ≡ some a
    pub others :
        (i x : ℕ) → (a == x) ≡ false → (i ≤ r → (x == b i) ≡ false) → next_on t i x ≡ next_on s i x

  pub old_nodes :
      (s : SkipList K V) (order : List ℕ)
      → IsLaid s order
      → contains (header ∷ order) s.fresh ≡ false
  old_nodes s order l =
      let out =
        not_fresh order s.fresh
          (All-map (Sound s) (λ x. x < s.fresh) order (λ x h. h.old) l.nodes) in
      ground (arith, out, l.room)

  module _ (s t : SkipList K V) (r : ℕ) (b : ℕ → ℕ) (k : K) (v : V) (w : Grown s t s.fresh r b k v)
      (lo hi : List ℕ) (laid : IsLaid s (lo ++ hi)) (low : r ≤ s.max_level)
      (ends : (i : ℕ) → last header (keep (level_of s) i lo) ≡ b i) where
    abbrev a : ℕ
    a = s.fresh

    apart : (x : ℕ) → contains (header ∷ (lo ++ hi)) x ≡ true → (a == x) ≡ false
    apart x m = elim (Bool-cases (a == x)) [
      | inr other ↦ other
      | inl same ↦
          let d = differ (header ∷ (lo ++ hi)) x a m (old_nodes s (lo ++ hi) laid) in ground arith
    ]

    grown_levels :
        (i : ℕ)
        → keep (level_of t) i (lo ++ a ∷ hi)
          ≡ keep (level_of s) i lo
            ++ (if leb i r then a ∷ keep (level_of s) i hi else keep (level_of s) i hi)
    unfolding keep
    grown_levels i =
        let p = contains-append lo hi in
        let left =
          keep_same (level_of s) (level_of t) i lo
            (λ x m. w.levels x (apart x (ground (arith, p x)))) in
        let right =
          keep_same (level_of s) (level_of t) i hi
            (λ x m. w.levels x (apart x (ground (arith, p x)))) in
        keep-append (level_of t) i lo (a ∷ hi) ∙ rw (left, right, w.level) refl

    grown-Chain :
        (i : ℕ) → i ≤ s.max_level → Chain (next_on t i) header (keep (level_of t) i (lo ++ a ∷ hi))
    grown-Chain i h =
        let split = keep-append (level_of s) i lo hi in
        let f = subst (Chain (next_on s i) header) split (laid.chains i h) in
        let out : contains (header ∷ keep (level_of s) i lo ++ keep (level_of s) i hi) a ≡ false =
          let old = old_nodes s (lo ++ hi) laid in
          let kept =
            subst (λ xs. contains xs a ≡ false) split
              (keep_out (level_of s) i (lo ++ hi) a (ground arith)) in
          ground arith in
        elim (Bool-cases (leb i r)) [
          | inl on ↦
              let up = leb→le _ _ on in
              subst (Chain (next_on t i) header) (sym (grown_levels i ∙ rw on refl)) (
                Chain-insert (next_on s i) (next_on t i) a (b i)
                  (λ x n m. w.others i x (ground arith) (λ _. m)) (w.linked_before i up)
                  (w.linked_here i up) header (keep (level_of s) i lo) (keep (level_of s) i hi) out
                  (ends i) f)
          | inr off ↦
              subst (Chain (next_on t i) header) (sym (grown_levels i ∙ rw off (sym split))) (
                Chain-same (next_on s i) (next_on t i) header (keep (level_of s) i (lo ++ hi))
                  (λ x m.
                    w.others i x
                      (apart x (ground (arith, contains-keep (level_of s) i (lo ++ hi) x)))
                      (λ u. ground arith))
                  (laid.chains i h))
        ]

    grown-Sound : (x : ℕ) → Sound s x → Sound t x
    grown-Sound x h =
        let n : (a == x) ≡ false = ground (arith, h.old) in
        record {
          live = w.live x n ∙ h.live;
          level = omega (arith, w.levels x n, h.level, w.cur_level);
          not_header = h.not_header;
          old = omega (arith, h.old, w.fresh);
        }

    pub Grown-IsLaid : IsLaid t (lo ++ a ∷ hi)
    Grown-IsLaid =
        let zero_apart = apart header (ground arith) in
        let sound = All-map (Sound s) (Sound t) (lo ++ hi) grown-Sound laid.nodes in
        let here : Sound t a = record {
          live = w.live_here;
          level = omega (arith, w.level, w.cur_level);
          not_header = ground arith;
          old = omega (arith, w.fresh);
        } in
        record {
          header_live = w.live header zero_apart ∙ laid.header_live;
          header_level = w.levels header zero_apart ∙ laid.header_level ∙ sym w.max_level;
          low = omega (arith, w.cur_level, w.max_level, laid.low);
          nodes =
              All-append (Sound t) lo (a ∷ hi) (All-left (Sound t) lo hi sound)
                (here, All-right (Sound t) lo hi sound);
          chains = λ i h. grown-Chain i (omega (arith, w.max_level));
          only = λ x live. elim (Bool-cases (a == x)) [
            | inl same ↦ let p = contains-append lo (a ∷ hi) x in ground arith
            | inr other ↦
                let old = laid.only x (sym (w.live x other) ∙ live) in
                let p = contains-append lo (a ∷ hi) x in
                let q = contains-append lo hi x in ground arith
          ];
          room = omega (arith, w.fresh, laid.room, length-append lo hi, length-append lo (a ∷ hi));
        }

    pub Grown-contents : contents t (lo ++ a ∷ hi) ≡ contents s lo ++ (k, v) ∷ contents s hi
    Grown-contents =
        let p = contains-append lo hi in
        let left = contents_same s t lo (λ x m. w.pairs x (apart x (ground (arith, p x)))) in
        let right = contents_same s t hi (λ x m. w.pairs x (apart x (ground (arith, p x)))) in
        contents-append t lo (a ∷ hi)
        ∙ rw (left, right) (ap (λ e. contents s lo ++ e ∷ contents s hi) w.pair)
