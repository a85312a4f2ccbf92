-- ===== src/SkipList/Levels.antt =====
-- The nodes of a list that reach a level.
use raft_storage.Common.{
  contains, ℕ, suc, ◌≤◌, ◌<◌, ◌≡◌, refl, ap, inl, inr, true, List, [], ◌∷◌, ◌++◌, arith, leb,
  if◌then◌else◌, leb→le, le→leb, gt→leb, Bool-cases, length, All, false,
}
use raft_storage.SkipList.Chains.{last}

module _ (level : ℕ → ℕ) where
  unfoldable pub keep : ℕ → List ℕ → List ℕ
  keep i [] = []
  keep i (x ∷ xs) = let rest = keep i xs in if leb i (level x) then x ∷ rest else rest

  pub keep-append : (i : ℕ) (xs ys : List ℕ) → keep i (xs ++ ys) ≡ keep i xs ++ keep i ys
  unfolding keep
  keep-append i [] ys = refl
  keep-append i (x ∷ xs) ys = elim (Bool-cases (leb i (level x))) [
    | inl on ↦ rw on (ap (◌∷◌ x) (keep-append i xs ys))
    | inr off ↦ rw off (keep-append i xs ys)
  ]

  pub keep_zero : (xs : List ℕ) → keep 0 xs ≡ xs
  unfolding keep
  keep_zero [] = refl
  keep_zero (x ∷ xs) = rw (le→leb 0 (level x) (omega arith)) (ap (◌∷◌ x) (keep_zero xs))

  pub contains-keep :
      (i : ℕ) (xs : List ℕ) (a : ℕ) → contains (keep i xs) a ≡ true → contains xs a ≡ true
  unfolding keep
  contains-keep i [] a h = h
  contains-keep i (x ∷ xs) a h = ground (arith, contains-keep i xs a)

  pub keep_out :
      (i : ℕ) (xs : List ℕ) (a : ℕ) → contains xs a ≡ false → contains (keep i xs) a ≡ false
  keep_out i xs a h = ground (arith, contains-keep i xs a)

  pub length-keep : (i : ℕ) (xs : List ℕ) → length (keep i xs) ≤ length xs
  unfolding keep
  length-keep i [] = omega arith
  length-keep i (x ∷ xs) = ground (arith, length-keep i xs)

  -- What holds of all nodes, and their level, hold of those that reach the level.
  pub All-keep {κ} :
      (P : ℕ → Type κ) (i : ℕ) (xs : List ℕ) → All P xs → All (λ a. P a × (i ≤ level a)) (keep i xs)
  unfolding keep
  All-keep P i [] h = h
  All-keep P i (x ∷ xs) h = elim (Bool-cases (leb i (level x))) [
    | inl on ↦ rw on ((h.0, leb→le _ _ on), All-keep P i xs h.1)
    | inr off ↦ rw off (All-keep P i xs h.1)
  ]

  -- No node reaches a level without nodes.
  pub keep_none : (i : ℕ) (xs : List ℕ) → keep i xs ≡ [] → All (λ a. level a < i) xs
  unfolding keep
  keep_none i [] h = tt
  keep_none i (x ∷ xs) h = elim (Bool-cases (leb i (level x))) [
    | inl on ↦ let h' = rw on at h in cc h'
    | inr off ↦ (ground arith, keep_none i xs (rw off at h))
  ]

  pub keep_high : (i : ℕ) (xs : List ℕ) → All (λ a. level a < i) xs → keep i xs ≡ []
  unfolding keep
  keep_high i [] h = refl
  keep_high i (x ∷ xs) h = rw (gt→leb i (level x) h.0) (keep_high i xs h.1)

  -- The last node of a level is on the level below: it splits that level in two.
  pub keep_splits :
      (i c : ℕ) (xs : List ℕ)
      → (p : List ℕ) × (q : List ℕ) × (keep i xs ≡ p ++ q) × (last c p ≡ last c (keep (suc i) xs))
  unfolding keep
  keep_splits i c [] = ([], [], refl, refl)
  keep_splits i c (x ∷ xs) = elim (Bool-cases (leb (suc i) (level x))) [
    | inl above ↦
        let (p, q, e, l) = keep_splits i x xs in
        let on : leb i (level x) ≡ true = ground arith in rw (above, on) (x ∷ p, q, ap (◌∷◌ x) e, l)
    | inr here ↦
        let (p, q, e, l) = keep_splits i c xs in
        elim (Bool-cases (leb i (level x))) [
          | inr off ↦ rw (here, off) (p, q, e, l)
          | inl on ↦ rw (here, on) (extended p q e l)
        ]
  ]
    where
      extended :
          (p q : List ℕ)
          → keep i xs ≡ p ++ q
          → last c p ≡ last c (keep (suc i) xs)
          → (p' : List ℕ) × (q' : List ℕ) × (x ∷ keep i xs ≡ p' ++ q')
            × (last c p' ≡ last c (keep (suc i) xs))
      extended [] q e l = ([], x ∷ q, ap (◌∷◌ x) e, l)
      extended (y ∷ p) q e l = (x ∷ y ∷ p, q, ap (◌∷◌ x) e, l)

pub keep_same :
    (f g : ℕ → ℕ) (i : ℕ) (xs : List ℕ)
    → ((a : ℕ) → contains xs a ≡ true → g a ≡ f a)
    → keep g i xs ≡ keep f i xs
unfolding keep
keep_same f g i [] s = refl
keep_same f g i (x ∷ xs) s =
    let here : g x ≡ f x = s x (ground arith) in
    let rest = keep_same f g i xs (λ a m. s a (ground arith)) in rw (here, rest) refl
