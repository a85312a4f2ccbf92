-- ===== src/SkipList/Writes.antt =====
-- Writes of pointers: what they leave alone, and what the loops over the levels of a node do.
use raft_storage.Common.{
  ℕ, zero, suc, ◌+◌, ◌≤◌, ◌<◌, ◌≡◌, refl, ap, subst, ◌∙◌, ◌≢◌, inl, inr, true, false, ◌&&◌, Option,
  some, arith, ltb, leb, ◌==◌, if◌then◌else◌, Bool-cases, update, update_self, update_ne,
}
use raft_storage.SkipList.{SkipList, has_level, put_forward, write_forward, Node}
use raft_storage.SkipList.Shape.{next_on, pair_at, read_forward_eq, level_of}
use raft_storage.SkipList.Edit.{link}

-- Two lists that differ in their pointers only.
pub record SameNodes {ℓ κ} {K : Type ℓ} {V : Type κ} (s t : SkipList K V) : Type (ℓ ⊔ κ) where
  pub pairs : (x : ℕ) → pair_at t x ≡ pair_at s x
  pub levels : (x : ℕ) → level_of t x ≡ level_of s x
  pub live : t.live ≡ s.live
  pub fresh : t.fresh ≡ s.fresh
  pub max_level : t.max_level ≡ s.max_level
  pub cur_level : t.cur_level ≡ s.cur_level
  pub element_count : t.element_count ≡ s.element_count

-- What a new value leaves alone at its place, the update leaves alone.
pub update_field {ℓ κ} :
    {A : Type ℓ} {B : Type κ} (f : ℕ → A) (a : ℕ) (v : A) (g : A → B)
    → g v ≡ g (f a)
    → (x : ℕ) → g (update f a v x) ≡ g (f x)
update_field f a v g h x = elim (Bool-cases (a == x)) [
  | inl here ↦
      let e : a ≡ x = ground arith in
      subst (λ z. g (update f a v z) ≡ g (f z)) e (ap g (update_self f a v) ∙ h)
  | inr there ↦ let n : a ≢ x = λ e. ground arith in ap g (update_ne f a x v n)
]

module _ {ℓ κ} {K : Type ℓ} {V : Type κ} where
  pub SameNodes-refl : (s : SkipList K V) → SameNodes s s
  SameNodes-refl s = record {
    pairs = λ x. refl;
    levels = λ x. refl;
    live = refl;
    fresh = refl;
    max_level = refl;
    cur_level = refl;
    element_count = refl;
  }

  pub SameNodes-trans : {s t u : SkipList K V} → SameNodes s t → SameNodes t u → SameNodes s u
  SameNodes-trans h k = record {
    pairs = λ x. k.pairs x ∙ h.pairs x;
    levels = λ x. k.levels x ∙ h.levels x;
    live = k.live ∙ h.live;
    fresh = k.fresh ∙ h.fresh;
    max_level = k.max_level ∙ h.max_level;
    cur_level = k.cur_level ∙ h.cur_level;
    element_count = k.element_count ∙ h.element_count;
  }

  pub put_forward-SameNodes :
      (s : SkipList K V) (a i : ℕ) (p : Option ℕ) → SameNodes s (put_forward s a i p)
  put_forward-SameNodes s a i p = record {
    pairs = update_field s.cells a _ (λ c. (c.key, c.value)) refl;
    levels = update_field s.cells a _ (λ c. c.level) refl;
    live = refl;
    fresh = refl;
    max_level = refl;
    cur_level = refl;
    element_count = refl;
  }

  -- The pointers after a write.
  pub next_on-put :
      (s : SkipList K V) (a i : ℕ) (p : Option ℕ) (j x : ℕ)
      → next_on (put_forward s a i p) j x ≡ (if (a == x) && (i == j) then p else next_on s j x)
  next_on-put s a i p j x =
      let cell = record (s.cells a) { forward = update (s.cells a).forward i p } in
      elim (Bool-cases (a == x)) [
        | inl here ↦
            let e : a ≡ x = ground arith in
            let at : next_on (put_forward s a i p) j x ≡ (if i == j then p else next_on s j x) =
              subst (λ z. next_on (put_forward s a i p) j z ≡ (if i == j then p else next_on s j z))
                e (ap (λ (c : Node K V). c.forward j) (update_self s.cells a cell)) in
            at ∙ ground arith
        | inr there ↦
            let n : a ≢ x = λ e. ground arith in
            ap (λ (c : Node K V). c.forward j) (update_ne s.cells a x cell n) ∙ ground arith
      ]

  pub has_level-SameNodes :
      {s t : SkipList K V} (a i : ℕ)
      → SameNodes s t
      → has_level s a i ≡ true
      → has_level t a i ≡ true
  has_level-SameNodes a i h k = rw (ap (λ f. f a) h.live, h.levels a) k

  pub write_forward_eq :
      (s : SkipList K V) (a i : ℕ) (p : Option ℕ)
      → has_level s a i ≡ true
      → write_forward s a i p ≡ some (put_forward s a i p)
  unfolding write_forward
  write_forward_eq s a i p h = rw h refl

  -- The pointers after the new node `a` is linked in after `b j` on the levels from `i` on.
  abbrev pub linked : SkipList K V → ℕ → (ℕ → ℕ) → ℕ → ℕ → ℕ → ℕ → Option ℕ
  linked s a b i n j x =
      if leb i j && ltb j (i + n)
      then (if a == x then next_on s j (b j) else (if b j == x then some a else next_on s j x))
      else next_on s j x

  -- One round on level `i`, and then the rest.
  link_step :
      (n i a : ℕ) (b : ℕ → ℕ) (s : SkipList K V) (j x : ℕ)
      → (a == b i) ≡ false
      → let s' = put_forward s a i (next_on s i (b i)) in
        linked (put_forward s' (b i) i (some a)) a b (i + 1) n j x ≡ linked s a b i (suc n) j x
  link_step n i a b s j x d =
      let s' = put_forward s a i (next_on s i (b i)) in
      let s'' = put_forward s' (b i) i (some a) in
      elim (Bool-cases (i == j)) [
        | inl this ↦
            ground (
              arith,
              next_on-put s' (b i) i (some a) j x,
              next_on-put s a i (next_on s i (b i)) j x,
            )
        | inr other ↦ ground (
          arith,
          next_on-put s' (b i) i (some a) j x,
          next_on-put s a i (next_on s i (b i)) j x,
          next_on-put s' (b i) i (some a) j (b j),
          next_on-put s a i (next_on s i (b i)) j (b j),
        )
      ]

  pub link_lem :
      (n i a : ℕ) (b : ℕ → ℕ) (upd : ℕ → Option ℕ) (s : SkipList K V)
      → ((j : ℕ) → i ≤ j → j < i + n → upd j ≡ some (b j))
      → ((j : ℕ) → i ≤ j → j < i + n → has_level s (b j) j ≡ true)
      → ((j : ℕ) → i ≤ j → j < i + n → has_level s a j ≡ true)
      → ((j : ℕ) → i ≤ j → j < i + n → (a == b j) ≡ false)
      → (t : SkipList K V) × (link n i a upd s ≡ some t)
        × SameNodes s t
        × ((j x : ℕ) → next_on t j x ≡ linked s a b i n j x)
  unfolding link
  link_lem zero i a b upd s u h k d = (s, refl, SameNodes-refl s, λ j x. ground arith)
  link_lem (suc n) i a b upd s u h k d =
      let here : i < i + suc n = omega arith in
      let p = b i in
      let s' = put_forward s a i (next_on s i p) in
      let one = put_forward-SameNodes s a i (next_on s i p) in
      let s'' = put_forward s' p i (some a) in
      let two = SameNodes-trans one (put_forward-SameNodes s' p i (some a)) in
      let (t, r, same, f) =
        link_lem n (i + 1) a b upd s'' (λ j l m. u j (omega arith) (omega arith))
          (λ j l m. has_level-SameNodes (b j) j two (h j (omega arith) (omega arith)))
          (λ j l m. has_level-SameNodes a j two (k j (omega arith) (omega arith)))
          (λ j l m. d j (omega arith) (omega arith)) in
      (
        t,
        rw
            (
              u i (omega arith) here,
              read_forward_eq s p i (h i (omega arith) here),
              write_forward_eq s a i (next_on s i p) (k i (omega arith) here),
              write_forward_eq s' p i (some a)
                  (has_level-SameNodes p i one (h i (omega arith) here)),
            )
            r,
        SameNodes-trans two same,
        λ j x. f j x ∙ link_step n i a b s j x (d i (omega arith) here),
      )
