-- ===== src/SkipList/Shape.antt =====
-- The shape of a skip list over the addresses of its nodes, in the order of level 0.
use raft_storage.Common.{
  contains, ℕ, ◌≤◌, ◌<◌, ◌≡◌, refl, ap, subst, true, false, Option, some, List, [], ◌∷◌, ◌++◌,
  arith, ◌==◌, le→leb, length, All,
}
use raft_storage.SkipList.{SkipList, header, has_level, read_key, read_forward}
use raft_storage.SkipList.Chains.{Chain}
use raft_storage.SkipList.Levels.{keep, keep_zero}

module _ {ℓ κ} {K : Type ℓ} {V : Type κ} where
  abbrev pub level_of : SkipList K V → ℕ → ℕ
  level_of s a = (s.cells a).level

  -- The pointers of a level.
  abbrev pub next_on : SkipList K V → ℕ → ℕ → Option ℕ
  next_on s i a = (s.cells a).forward i

  -- A node of the list: allocated, and not higher than the list.
  pub record Sound (s : SkipList K V) (a : ℕ) : Type 0 where
    pub live : s.live a ≡ true
    pub level : level_of s a ≤ s.cur_level
    pub not_header : (header == a) ≡ false
    pub old : a < s.fresh

  -- On every level the pointers run from the header through the nodes that reach it, and nothing else is
  -- allocated.
  pub record IsLaid (s : SkipList K V) (order : List ℕ) : Type 0 where
    pub header_live : s.live header ≡ true
    pub header_level : level_of s header ≡ s.max_level
    pub low : s.cur_level ≤ s.max_level
    pub nodes : All (Sound s) order
    pub chains : (i : ℕ) → i ≤ s.max_level → Chain (next_on s i) header (keep (level_of s) i order)
    pub room : length order < s.fresh
    pub only : (a : ℕ) → s.live a ≡ true → contains (header ∷ order) a ≡ true

  abbrev pub pair_at : SkipList K V → ℕ → K × V
  pair_at s a = ((s.cells a).key, (s.cells a).value)

  abbrev pub contents : SkipList K V → List ℕ → List (K × V)
  contents s [] = []
  contents s (a ∷ rest) = pair_at s a ∷ contents s rest

  pub contents-append :
      (s : SkipList K V) (xs ys : List ℕ) → contents s (xs ++ ys) ≡ contents s xs ++ contents s ys
  contents-append s [] ys = refl
  contents-append s (x ∷ xs) ys = ap (◌∷◌ (pair_at s x)) (contents-append s xs ys)

  pub contents_same :
      (s t : SkipList K V) (xs : List ℕ)
      → ((a : ℕ) → contains xs a ≡ true → pair_at t a ≡ pair_at s a)
      → contents t xs ≡ contents s xs
  contents_same s t [] h = refl
  contents_same s t (x ∷ xs) h =
      rw (contents_same s t xs (λ a m. h a (ground arith)))
        (ap (λ e. e ∷ contents s xs) (h x (ground arith)))

  pub read_forward_eq :
      (s : SkipList K V) (a i : ℕ)
      → has_level s a i ≡ true
      → read_forward s a i ≡ some (next_on s i a)
  unfolding read_forward
  read_forward_eq s a i h = rw h refl

  pub read_key_eq :
      (s : SkipList K V) (a : ℕ) → s.live a ≡ true → read_key s a ≡ some ((s.cells a).key)
  unfolding read_key
  read_key_eq s a h = rw h refl

  pub Sound-has_level :
      (s : SkipList K V) (a i : ℕ) → Sound s a → i ≤ level_of s a → has_level s a i ≡ true
  Sound-has_level s a i h k = rw (h.live, le→leb _ _ k) refl

  pub header-has_level :
      (s : SkipList K V) (order : List ℕ) (i : ℕ)
      → IsLaid s order
      → i ≤ s.max_level
      → has_level s header i ≡ true
  header-has_level s order i l h =
      let fits : i ≤ level_of s header = omega (arith, l.header_level) in
      rw (l.header_live, le→leb i (level_of s header) fits) refl

  -- The bottom level holds every node.
  pub bottom-Chain :
      (s : SkipList K V) (order : List ℕ) → IsLaid s order → Chain (next_on s 0) header order
  bottom-Chain s order l =
      subst (Chain (next_on s 0) header) (keep_zero (level_of s) order) (l.chains 0 (omega arith))
