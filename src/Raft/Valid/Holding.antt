-- ===== src/Raft/Valid/Holding.antt =====
-- Raft/Raft.cc, `updateCommitIndex`: the count of a leader against the peers that hold an index.
use raft_storage.Common.{
  ℕ, suc, ◌≤◌, ◌≡◌, refl, ap, ◌⊎◌, inl, inr, true, List, [], ◌∷◌, arith, leb, leb→le, le→leb,
  Bool-cases, length, All,
}
use raft_storage.Raft.Commit.{count_replicated}

-- Some of the members of a list, each taken at its own place.
abbrev pub IsPart : List ℕ → List ℕ → Type 0
IsPart [] ys = Unit {0}
IsPart (x ∷ xs) [] = ⊥
IsPart (x ∷ xs) (y ∷ ys) = ((x ≡ y) × IsPart xs ys) ⊎ IsPart (x ∷ xs) ys

module _ (match_index : ℕ → ℕ) (index : ℕ) where
  -- Peers that hold the index are not more than those that are counted beside the leader.
  pub holders_counted :
      (holders peers : List ℕ)
      → IsPart holders peers
      → All (λ p. index ≤ match_index p) holders
      → suc (length holders) ≤ count_replicated match_index index peers
  unfolding count_replicated
  holders_counted [] [] part hold = omega arith
  holders_counted [] (y ∷ ys) part hold = let r = holders_counted [] ys tt tt in ground arith
  holders_counted (x ∷ xs) [] part hold = absurd part
  holders_counted (x ∷ xs) (y ∷ ys) (inl (same, part)) (here, hold) =
      let r = holders_counted xs ys part hold in
      let here' : leb index (match_index y) ≡ true = rw same at (le→leb _ _ here) in
      rw here' (omega (arith, r))
  holders_counted (x ∷ xs) (y ∷ ys) (inr part) hold =
      let r = holders_counted (x ∷ xs) ys part hold in
      elim (Bool-cases (leb index (match_index y))) [
        | inl more ↦ rw more (omega (arith, r))
        | inr less ↦ rw less (omega (arith, r))
      ]

  -- The peers that are counted hold the index.
  pub counted_holders :
      (peers : List ℕ)
      → (holders : List ℕ) × IsPart holders peers
        × All (λ p. index ≤ match_index p) holders
        × (count_replicated match_index index peers ≡ suc (length holders))
  unfolding count_replicated
  counted_holders [] = ([], tt, tt, refl)
  counted_holders (y ∷ ys) =
      let (holders, part, hold, n) = counted_holders ys in
      elim (Bool-cases (leb index (match_index y))) [
        | inl more ↦ (y ∷ holders, inl (refl, part), (leb→le _ _ more, hold), rw more (ap suc n))
        | inr less ↦ (holders, IsPart-further holders y ys part, hold, rw less n)
      ]
    where
      IsPart-further : (xs : List ℕ) (y : ℕ) (ys : List ℕ) → IsPart xs ys → IsPart xs (y ∷ ys)
      IsPart-further [] y ys part = tt
      IsPart-further (x ∷ xs) y ys part = inr part
