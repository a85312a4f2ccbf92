-- ===== src/SkipList/Search.antt =====
-- The search: on each level it ends at the last node with a smaller key.
use mathlib.Core.List.{append_assoc}
use raft_storage.Common.{
  ℕ, zero, suc, ◌≤◌, ◌<◌, ◌≡◌, refl, sym, ap, subst, ◌∙◌, inl, inr, true, false, Option, none, some,
  List, [], ◌∷◌, ◌++◌, arith, leb, leb→le, Bool-cases, length, All, length-append, update,
  update_self, update_ne,
}
use raft_storage.SkipList.{KeyOrder, SkipList, header, has_level}
use raft_storage.SkipList.Chains.{last, Chain, Chain-append, last-append}
use raft_storage.SkipList.Shape.{
  IsLaid, level_of, read_forward_eq, read_key_eq, Sound-has_level, Sound, header-has_level, next_on,
}
use raft_storage.SkipList.Edit.{walk, descend, search_key}
use raft_storage.SkipList.Levels.{keep, keep_splits, keep-append, All-keep, length-keep}

pub All-append {κ} : (P : ℕ → Type κ) (xs ys : List ℕ) → All P xs → All P ys → All P (xs ++ ys)
All-append P [] ys h k = k
All-append P (x ∷ xs) ys h k = (h.0, All-append P xs ys h.1 k)

pub All-left {κ} : (P : ℕ → Type κ) (xs ys : List ℕ) → All P (xs ++ ys) → All P xs
All-left P [] ys h = tt
All-left P (x ∷ xs) ys h = (h.0, All-left P xs ys h.1)

pub All-right {κ} : (P : ℕ → Type κ) (xs ys : List ℕ) → All P (xs ++ ys) → All P ys
All-right P [] ys h = h
All-right P (x ∷ xs) ys h = All-right P xs ys h.1

pub All-map {κ ι} :
    (P : ℕ → Type κ) (Q : ℕ → Type ι) (xs : List ℕ) → ((a : ℕ) → P a → Q a) → All P xs → All Q xs
All-map P Q [] f h = tt
All-map P Q (x ∷ xs) f h = (f x h.0, All-map P Q xs f h.1)

pub All_last {κ} : (P : ℕ → Type κ) (c : ℕ) (xs : List ℕ) → P c → All P xs → P (last c xs)
All_last P c [] h k = h
All_last P c (x ∷ xs) h k = All_last P x xs k.0 k.1

module _ {ℓ κ} {K : Type ℓ} {V : Type κ} (o : KeyOrder K) (s : SkipList K V) (k : K) where
  abbrev pub IsLow : ℕ → Type 0
  IsLow a = o.less (s.cells a).key k ≡ true

  abbrev pub IsHigh : ℕ → Type 0
  IsHigh a = o.less (s.cells a).key k ≡ false

  walk_lem :
      (n i c : ℕ) (q r : List ℕ)
      → length q < n
      → has_level s c i ≡ true
      → All (λ a. has_level s a i ≡ true) (q ++ r)
      → All IsLow q
      → All IsHigh r
      → Chain (next_on s i) c (q ++ r)
      → walk o n s k i c ≡ some (last c q)
  unfolding walk
  walk_lem zero i c q r f h a l g e = absurd (omega arith)
  walk_lem (suc n) i c [] [] f h a l g e = rw (read_forward_eq s c i h, e) refl
  walk_lem (suc n) i c [] (x ∷ r) f h a l g e =
      rw (read_forward_eq s c i h, e.0, read_key_eq s x (ground arith), g.0) refl
  walk_lem (suc n) i c (x ∷ q) r f h a l g e =
      rw (read_forward_eq s c i h, e.0, read_key_eq s x (ground arith), l.0)
        (walk_lem n i x q r (omega arith) a.0 a.1 l.1 g e.1)

  module _ (lo hi : List ℕ) (laid : IsLaid s (lo ++ hi)) (l : All IsLow lo)
      (g : All IsHigh hi) where
    -- Where the search ends on a level.
    abbrev pub before : ℕ → ℕ
    before i = last header (keep (level_of s) i lo)

    -- A place of a level at which the search may enter it.
    abbrev Enters : ℕ → ℕ → Type 0
    Enters i c =
        (p : List ℕ) × (q : List ℕ) × (keep (level_of s) i lo ≡ p ++ q) × (last header p ≡ c)

    level_walk : (i c : ℕ) → i ≤ s.cur_level → Enters i c → walk o s.fresh s k i c ≡ some (before i)
    level_walk i c b (p, q, e, z) =
        let top : i ≤ s.max_level = omega (arith, laid.low) in
        let rest = keep (level_of s) i hi in
        let on : keep (level_of s) i (lo ++ hi) ≡ p ++ (q ++ rest) =
          keep-append (level_of s) i lo hi ∙ ap (λ x. x ++ rest) e ∙ append_assoc p q rest in
        let sound : All (λ a. has_level s a i ≡ true) (p ++ (q ++ rest)) =
          subst (All (λ a. has_level s a i ≡ true)) on (
            All-map _ _ (keep (level_of s) i (lo ++ hi)) (λ a h. Sound-has_level s a i h.0 h.1)
              (All-keep (level_of s) (Sound s) i (lo ++ hi) laid.nodes)) in
        let lows : All IsLow (p ++ q) = subst (All IsLow) e (
          All-map _ _ (keep (level_of s) i lo) (λ a h. h.0) (All-keep (level_of s) IsLow i lo l)) in
        let highs = All-map _ IsHigh rest (λ a h. h.0) (All-keep (level_of s) IsHigh i hi g) in
        let from = subst (Chain (next_on s i) header) on (laid.chains i top) in
        let short : length q < s.fresh = omega (
          arith,
          length-append p q,
          ap length e,
          length-keep (level_of s) i lo,
          length-append lo hi,
          laid.room,
        ) in
        subst (λ a. walk o s.fresh s k i a ≡ some (before i)) z
          (walk_lem s.fresh i (last header p) q rest short
              (All_last (λ a. has_level s a i ≡ true) header p
                (header-has_level s (lo ++ hi) i laid top) (All-left _ p (q ++ rest) sound))
              (All-right _ p (q ++ rest) sound) (All-right _ p q lows) highs
              (Chain-append (next_on s i) header p (q ++ rest) from)
            ∙ ap some (sym (last-append header p q) ∙ ap (last header) (sym e)))

    descend_lem :
        (i c : ℕ) (upd : ℕ → Option ℕ)
        → i ≤ s.cur_level
        → Enters i c
        → (u : ℕ → Option ℕ) × (descend o s k i c upd ≡ some (before 0, u))
          × ((j : ℕ) → j ≤ i → u j ≡ some (before j))
          × ((j : ℕ) → i < j → u j ≡ upd j)
    unfolding descend
    descend_lem zero c upd b n = (
      update upd 0 (some (before 0)),
      rw (level_walk zero c b n) refl,
      λ j h. ground arith,
      λ j h. ground arith,
    )
    descend_lem (suc i) c upd b n =
        let (p, q, e, z) = keep_splits (level_of s) i header lo in
        let (u, r, set, old) =
          descend_lem i (before (suc i)) (update upd (suc i) (some (before (suc i)))) (omega arith)
            (p, q, e, z) in
        (
          u,
          rw (level_walk (suc i) c b n) r,
          λ j h. elim (Bool-cases (leb j i)) [
            | inl low ↦ set j (leb→le _ _ low)
            | inr top ↦
                let e : j ≡ suc i = ground arith in
                old j (ground arith) ∙ rw e (update_self upd (suc i) (some (before (suc i))))
          ],
          λ j h. old j (omega arith) ∙ update_ne upd (suc i) j _ (λ e. absurd (omega arith)),
        )

    -- The search of a laid list ends, at the last smaller node of each level up to the present one.
    pub search_lem :
        (u : ℕ → Option ℕ) × (search_key o s k ≡ some (before 0, u))
        × ((j : ℕ) → j ≤ s.cur_level → u j ≡ some (before j))
    unfolding search_key
    search_lem =
        let (u, r, set, old) =
          descend_lem s.cur_level header (λ i. none) (omega arith)
            ([], keep (level_of s) s.cur_level lo, refl, refl) in
        (u, r, set)
