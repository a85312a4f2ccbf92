-- ===== src/SkipList/Chains.antt =====
-- Lists of addresses that pointers run through, and the two changes of one: a node put in, a node
-- taken out.
use mathlib.Core.Option.{some-injective}
use raft_storage.Common.{
  contains-append, contains, ℕ, suc, ◌<◌, ◌≡◌, refl, sym, ap, subst, ◌∙◌, inl, inr, true, false,
  Option, none, some, List, [], ◌∷◌, ◌++◌, arith, ◌==◌, Bool-cases, length,
}

-- From `c` the pointers lead through `xs` to the end.
abbrev pub Chain : (ℕ → Option ℕ) → ℕ → List ℕ → Type 0
Chain f c [] = f c ≡ none
Chain f c (x ∷ xs) = (f c ≡ some x) × Chain f x xs

abbrev pub last : ℕ → List ℕ → ℕ
last c [] = c
last c (x ∷ xs) = last x xs

pub last-append : (c : ℕ) (xs ys : List ℕ) → last c (xs ++ ys) ≡ last (last c xs) ys
last-append c [] ys = refl
last-append c (x ∷ xs) ys = last-append x xs ys

pub Chain-append :
    (f : ℕ → Option ℕ) (c : ℕ) (xs ys : List ℕ) → Chain f c (xs ++ ys) → Chain f (last c xs) ys
Chain-append f c [] ys h = h
Chain-append f c (x ∷ xs) ys h = Chain-append f x xs ys h.1

-- A chain is the only one from its start, so it does not come back to it.
Chain-length :
    (f : ℕ → Option ℕ) (c : ℕ) (xs ys : List ℕ)
    → Chain f c xs
    → Chain f c ys
    → length xs ≡ length ys
Chain-length f c [] [] h k = refl
Chain-length f c [] (y ∷ ys) h k = let e = sym h ∙ k.0 in cc e
Chain-length f c (x ∷ xs) [] h k = let e = sym k ∙ h.0 in cc e
Chain-length f c (x ∷ xs) (y ∷ ys) h k =
    let e : x ≡ y = some-injective _ _ (sym h.0 ∙ k.0) in
    ap suc (Chain-length f y xs ys (subst (λ z. Chain f z xs) e h.1) k.1)

Chain-suffix :
    (f : ℕ → Option ℕ) (c : ℕ) (xs : List ℕ) (a : ℕ)
    → Chain f c xs
    → contains xs a ≡ true
    → (ys : List ℕ) × Chain f a ys × (length ys < length xs)
Chain-suffix f c [] a h m = cc m
Chain-suffix f c (x ∷ xs) a h m = elim (Bool-cases (x == a)) [
  | inl here ↦ let e : x ≡ a = ground arith in (xs, subst (λ z. Chain f z xs) e h.1, omega arith)
  | inr there ↦ let (ys, k, l) = Chain-suffix f x xs a h.1 (rw there at m) in (ys, k, omega arith)
]

pub Chain-once : (f : ℕ → Option ℕ) (c : ℕ) (xs : List ℕ) → Chain f c xs → contains xs c ≡ false
Chain-once f c xs h = elim (Bool-cases (contains xs c)) [
  | inr out ↦ out
  | inl inside ↦
      let (ys, k, l) = Chain-suffix f c xs c h inside in
      absurd (omega (arith, Chain-length f c xs ys h k))
]

-- A chain sees its own nodes only.
pub Chain-same :
    (f g : ℕ → Option ℕ) (c : ℕ) (xs : List ℕ)
    → ((b : ℕ) → contains (c ∷ xs) b ≡ true → g b ≡ f b)
    → Chain f c xs
    → Chain g c xs
Chain-same f g c [] s h = s c (ground arith) ∙ h
Chain-same f g c (x ∷ xs) s h =
    (s c (ground arith) ∙ h.0, Chain-same f g x xs (λ b m. s b (ground arith)) h.1)

contains-last : (c : ℕ) (xs : List ℕ) → contains (c ∷ xs) (last c xs) ≡ true
contains-last c [] = ground arith
contains-last c (x ∷ xs) = ground (arith, contains-last x xs)

pub differ :
    (xs : List ℕ) (b a : ℕ) → contains xs b ≡ true → contains xs a ≡ false → (b == a) ≡ false
differ xs b a m n = elim (Bool-cases (b == a)) [
  | inr other ↦ other
  | inl same ↦
      let e : b ≡ a = ground arith in
      let m' : contains xs a ≡ true = subst (λ z. contains xs z ≡ true) e m in cc
]

-- The node before the split is none of those before it.
not_last :
    (f : ℕ → Option ℕ) (c x : ℕ) (xs ys : List ℕ)
    → Chain f c (x ∷ xs ++ ys)
    → (c == last x xs) ≡ false
not_last f c x xs ys h =
    let once = Chain-once f c (x ∷ xs ++ ys) h in
    let all = contains-append (x ∷ xs) ys c in
    elim (Bool-cases (c == last x xs)) [
      | inr other ↦ other
      | inl same ↦
          let e : last x xs ≡ c = ground arith in
          let inside : contains (x ∷ xs) c ≡ true =
            subst (λ z. contains (x ∷ xs) z ≡ true) e (contains-last x xs) in
          ground arith
    ]

module _ (f g : ℕ → Option ℕ) (a p : ℕ)
    (others : (b : ℕ) → (b == a) ≡ false → (b == p) ≡ false → g b ≡ f b) where
  -- A new node after `p`.
  pub Chain-insert :
      g p ≡ some a
      → g a ≡ f p
      → (c : ℕ) (xs ys : List ℕ) → contains (c ∷ xs ++ ys) a ≡ false
      → last c xs ≡ p
      → Chain f c (xs ++ ys)
      → Chain g c (xs ++ a ∷ ys)
  Chain-insert before after c [] [] n e h = (ap g e ∙ before, after ∙ ap f (sym e) ∙ h)
  Chain-insert before after c [] (y ∷ ys) n e h =
      let once = Chain-once f c (y ∷ ys) h in
      let apart =
        Chain-same f g y ys
          (λ b m.
            others b (differ (y ∷ ys) b a m (ground arith)) (rw e at (differ (y ∷ ys) b c m once)))
          h.1 in
      (ap g e ∙ before, (after ∙ ap f (sym e) ∙ h.0, apart))
  Chain-insert before after c (x ∷ xs) ys n e h =
      let early = not_last f c x xs ys h in
      (
        others c (ground arith) (rw e at early) ∙ h.0,
        Chain-insert before after x xs ys (ground arith) e h.1,
      )

  -- The node `a` taken out after `p`.
  pub Chain-remove :
      g p ≡ f a
      → (c : ℕ) (xs ys : List ℕ) → last c xs ≡ p
      → Chain f c (xs ++ a ∷ ys)
      → Chain g c (xs ++ ys)
  Chain-remove skip c [] [] e h = ap g e ∙ skip ∙ h.1
  Chain-remove skip c [] (y ∷ ys) e h =
      let once = Chain-once f c (a ∷ y ∷ ys) h in
      let after = Chain-once f a (y ∷ ys) h.1 in
      (
        ap g e ∙ skip ∙ h.1.0,
        Chain-same f g y ys
            (λ b m.
              others b (differ (y ∷ ys) b a m after)
                (rw e at (differ (y ∷ ys) b c m (ground arith))))
            h.1.1,
      )
  Chain-remove skip c (x ∷ xs) ys e h =
      let early = not_last f c x xs (a ∷ ys) h in
      let once = Chain-once f c (x ∷ xs ++ a ∷ ys) h in
      let parts = contains-append (x ∷ xs) (a ∷ ys) c in
      (others c (ground arith) (rw e at early) ∙ h.0, Chain-remove skip x xs ys e h.1)
