-- ===== src/SkipList/Unlink.antt =====
-- The loops of `erase`: over the levels of the node that goes, and over the levels left empty.
use raft_storage.Common.{
  true_case, false_case, ℕ, zero, suc, ◌+◌, ◌≤◌, ◌<◌, ◌≡◌, refl, ap, subst, ◌∙◌, inl, inr, true,
  false, ◌&&◌, Option, none, some, arith, ltb, leb, ◌==◌, if◌then◌else◌, leb→le, Bool-cases,
  Option-cases,
}
use raft_storage.SkipList.{SkipList, header, has_level, put_forward, points_to}
use raft_storage.SkipList.Edit.{lower, unlink}
use raft_storage.SkipList.Shape.{next_on, read_forward_eq}
use raft_storage.SkipList.Writes.{
  next_on-put, SameNodes, SameNodes-refl, put_forward-SameNodes, has_level-SameNodes,
  write_forward_eq, SameNodes-trans,
}

pub points_to_self : (x : ℕ) → points_to (some x) x ≡ true
unfolding points_to
points_to_self x = ground arith

module _ {ℓ κ} {K : Type ℓ} {V : Type κ} where
  -- The pointers after the node `x`, on the levels up to `top`, is left out after `b j`.
  abbrev pub unlinked : SkipList K V → ℕ → (ℕ → ℕ) → ℕ → ℕ → ℕ → ℕ → ℕ → Option ℕ
  unlinked s x b top i n j y =
      if leb i j && (ltb j (i + n) && (leb j top && (b j == y)))
      then next_on s j x
      else next_on s j y

  unlink_step :
      (n i x top : ℕ) (b : ℕ → ℕ) (s : SkipList K V) (j y : ℕ)
      → i ≤ top
      → unlinked (put_forward s (b i) i (next_on s i x)) x b top (i + 1) n j y
        ≡ unlinked s x b top i (suc n) j y
  unlink_step n i x top b s j y h =
      ground (
        arith,
        next_on-put s (b i) i (next_on s i x) j y,
        next_on-put s (b i) i (next_on s i x) j x,
      )

  next_on_above :
      (s : SkipList K V) (a i : ℕ) (p : Option ℕ) (j y : ℕ)
      → i < j
      → next_on (put_forward s a i p) j y ≡ next_on s j y
  next_on_above s a i p j y h = next_on-put s a i p j y ∙ ground arith

  pub unlink_lem :
      (n i x top : ℕ) (b : ℕ → ℕ) (upd : ℕ → Option ℕ) (s : SkipList K V)
      → ((j : ℕ) → i ≤ j → j < i + n → upd j ≡ some (b j))
      → ((j : ℕ) → i ≤ j → j < i + n → has_level s (b j) j ≡ true)
      → ((j : ℕ) → i ≤ j → j ≤ top → has_level s x j ≡ true)
      → ((j : ℕ) → i ≤ j → j ≤ top → next_on s j (b j) ≡ some x)
      → ((j : ℕ) → i ≤ j → top < j → j < i + n → points_to (next_on s j (b j)) x ≡ false)
      → (t : SkipList K V) × (unlink n i x upd s ≡ some t)
        × SameNodes s t
        × ((j y : ℕ) → next_on t j y ≡ unlinked s x b top i n j y)
  unfolding unlink
  unlink_lem zero i x top b upd s u h k f g = (s, refl, SameNodes-refl s, λ j y. ground arith)
  unlink_lem (suc n) i x top b upd s u h k f g =
      let here : i < i + suc n = omega arith in
      let same : i ≤ i = omega arith in
      let read = read_forward_eq s (b i) i (h i same here) in
      elim (Bool-cases (leb i top)) [
        | inr above ↦
            let over : top < i = ground arith in
            (
              s,
              rw (u i same here, read)
                  (false_case (points_to (next_on s i (b i)) x) (some s) _ (g i same over here)),
              SameNodes-refl s,
              λ j y. ground arith,
            )
        | inl on ↦
            let low : i ≤ top = leb→le _ _ on in
            let hit : points_to (next_on s i (b i)) x ≡ true =
              ap (λ z. points_to z x) (f i same low) ∙ points_to_self x in
            let p = next_on s i x in
            let s' = put_forward s (b i) i p in
            let one = put_forward-SameNodes s (b i) i p in
            let (t, run, rest, q) =
              unlink_lem n (i + 1) x top b upd s' (λ j l m. u j (omega arith) (omega arith))
                (λ j l m. has_level-SameNodes (b j) j one (h j (omega arith) (omega arith)))
                (λ j l m. has_level-SameNodes x j one (k j (omega arith) m))
                (λ j l m. next_on_above s (b i) i p j (b j) (omega arith) ∙ f j (omega arith) m)
                (λ j l o m.
                  ap (λ z. points_to z x) (next_on_above s (b i) i p j (b j) (omega arith))
                  ∙ g j (omega arith) o (omega arith)) in
            (
              t,
              rw (u i same here, read)
                  (true_case (points_to (next_on s i (b i)) x) (some s) _ hit
                    ∙ rw
                        (
                          read_forward_eq s x i (k i same low),
                          write_forward_eq s (b i) i p (h i same here),
                        )
                        run),
              SameNodes-trans one rest,
              λ j y. q j y ∙ unlink_step n i x top b s j y low,
            )
      ]

  higher :
      (c : ℕ) (s : SkipList K V) (i : ℕ)
      → next_on s (suc i) header ≡ none
      → ((j : ℕ) → c < j → j ≤ i → next_on s j header ≡ none)
      → (j : ℕ) → c < j
      → j ≤ suc i
      → next_on s j header ≡ none
  higher c s i top rest j l m = elim (Bool-cases (leb j i)) [
    | inl low ↦ rest j l (leb→le _ _ low)
    | inr high ↦ let e : suc i ≡ j = ground arith in subst (λ z. next_on s z header ≡ none) e top
  ]

  -- The loop that lowers the present level stops at a level with nodes, or at 0.
  pub lower_lem :
      (i : ℕ) (s : SkipList K V)
      → ((j : ℕ) → j ≤ i → has_level s header j ≡ true)
      → (c : ℕ) × (lower i s ≡ some (record s { cur_level = c }))
        × (c ≤ i)
        × ((j : ℕ) → c < j → j ≤ i → next_on s j header ≡ none)
  unfolding lower
  lower_lem zero s h = (0, refl, omega arith, λ j l m. absurd (omega arith))
  lower_lem (suc i) s h =
      let read = read_forward_eq s header (suc i) (h (suc i) (omega arith)) in
      elim (Option-cases (next_on s (suc i) header)) [
        | inl empty ↦
            let (c, run, low, rest) = lower_lem i s (λ j l. h j (omega arith)) in
            (c, rw (read, empty) run, omega arith, higher c s i empty rest)
        | inr (a, known) ↦
            (suc i, rw (read, known) refl, omega arith, λ j l m. absurd (omega arith))
      ]
