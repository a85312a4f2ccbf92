-- ===== src/Log/Conflict.antt =====
-- The index that a rejected `AppendEntries` proposes: in range, and never past a run of one term.
use raft_storage.Common.{
  ℕ, zero, suc, ◌+◌, ◌-◌, ◌≤◌, ◌<◌, min, ◌≡◌, refl, ap, subst, ◌∙◌, ◌≢◌, ◌⊎◌, inl, inr, some, arith,
  ltb, leb, ◌==◌, ltb→lt, leb→le, Bool-cases,
}
use raft_storage.Log.{Log, get_last_log_index, get_log_term_from_index, fast_back, conflict_index}
use raft_storage.Log.Shape.{IsContiguous, get_log_term_in, get_last_log_index_lem}

-- All indices from `lo` to `hi` carry the term.
abbrev pub RunOf : Log → ℕ → ℕ → ℕ → Type 0
RunOf l term lo hi = (i : ℕ) → lo ≤ i → i ≤ hi → get_log_term_from_index l i ≡ some term

-- What `fast_back` finds from `start`: the first index of the run of the term at `start`, or the
-- first index after the snapshot.
pub record FirstOfRun (l : Log) (term start found : ℕ) : Type 0 where
  pub above : l.last_include_index < found
  pub below : found ≤ start
  pub run : RunOf l term found start
  pub first :
      (found ≡ suc l.last_include_index)
      ⊎ ((t : ℕ) × (get_log_term_from_index l (found - 1) ≡ some t) × (t ≢ term))

module _ (l : Log) (c : IsContiguous l) (term : ℕ) where
  run_here : (i : ℕ) → get_log_term_from_index l i ≡ some term → RunOf l term i i
  run_here i e j lo hi = let same : j ≡ i = omega arith in rw same e

  run_down :
      (lo i : ℕ)
      → RunOf l term lo i
      → get_log_term_from_index l (suc i) ≡ some term
      → RunOf l term lo (suc i)
  run_down lo i r e j p q = elim (Bool-cases (leb j i)) [
    | inl below ↦ r j p (leb→le j i below)
    | inr above ↦ let same : j ≡ suc i = ground arith in rw same e
  ]

  fast_back_finds :
      (i : ℕ)
      → l.last_include_index < i
      → i ≤ get_last_log_index l
      → get_log_term_from_index l i ≡ some term
      → (found : ℕ) × (fast_back l term i ≡ some found) × FirstOfRun l term i found
  unfolding fast_back
  fast_back_finds zero h k e = absurd (omega arith)
  fast_back_finds (suc i) h k e = elim (Bool-cases (ltb (l.last_include_index + 1) (suc i))) [
    | inl more ↦
        let inside : l.last_include_index < i = omega (arith, ltb→lt _ _ more) in
        let (t, at) = get_log_term_in l i c (omega arith) (omega arith) in
        elim (Bool-cases (t == term)) [
          | inl same ↦
              let same' : t ≡ term = ground arith in
              let (found, r, f) = fast_back_finds i inside (omega arith) (at ∙ ap some same') in
              (
                found,
                rw (more, at, same) r,
                record {
                  above = f.above;
                  below = omega arith;
                  run = run_down found i f.run e;
                  first = f.first;
                },
              )
          | inr other ↦ (
            suc i,
            rw (more, at, other) refl,
            record {
              above = h;
              below = omega arith;
              run = run_here (suc i) e;
              first = inr (
                t,
                subst (λ j. get_log_term_from_index l j ≡ some t) (omega arith) at,
                ground arith,
              );
            },
          )
        ]
    | inr last ↦ (
      suc i,
      rw last refl,
      record {
        above = h;
        below = omega arith;
        run = run_here (suc i) e;
        first = inl (ground arith);
      },
    )
  ]

-- On a contiguous log the proposal for a rejected request always exists. If the
-- smaller of `prev` and the last index is not above the snapshot, it is the first index after the
-- snapshot; else it is the first index of the run of entries that share the term found there.
pub conflict_index_lem :
    (l : Log) (prev : ℕ)
    → IsContiguous l
    → (found : ℕ) × (conflict_index l prev ≡ some found)
      × (l.last_include_index < found)
      × (found ≤ suc (get_last_log_index l))
      × (min prev (get_last_log_index l) ≤ l.last_include_index → found ≡ suc l.last_include_index)
      × (l.last_include_index < min prev (get_last_log_index l)
          → (t : ℕ) × FirstOfRun l t (min prev (get_last_log_index l)) found)
unfolding conflict_index
conflict_index_lem l prev c =
    let start = min prev (get_last_log_index l) in
    elim (Bool-cases (leb start l.last_include_index)) [
      | inl low ↦ (
        l.last_include_index + 1,
        rw low refl,
        omega arith,
        omega (arith, get_last_log_index_lem l c),
        λ h. omega arith,
        λ h. absurd (omega (arith, leb→le _ _ low)),
      )
      | inr high ↦
          let inside : l.last_include_index < start = ground arith in
          let (t, at) = get_log_term_in l start c (omega arith) (omega arith) in
          let (found, r, f) = fast_back_finds l c t start inside (omega arith) at in
          let below : found ≤ start = f.below in
          (found, rw (high, at) r, f.above, omega arith, λ h. absurd (omega arith), λ h. (t, f))
    ]
