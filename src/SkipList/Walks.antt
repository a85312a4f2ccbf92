-- ===== src/SkipList/Walks.antt =====
-- The walks along a level against the abstract list.
use raft_storage.Common.{
  ℕ, zero, suc, ◌+◌, ◌≤◌, ◌<◌, ◌≡◌, refl, sym, ap, subst, ◌∙◌, inl, inr, some, List, [], ◌∷◌, arith,
  leb, ◌==◌, Bool-cases, length, All, Option,
}
use raft_storage.SkipList.Find.{Represents}
use raft_storage.SkipList.{KeyOrder, SkipList, header, read_key, read_forward, read_value}
use raft_storage.SkipList.Dump.{rows, collect, dump_to_json, display}
use raft_storage.SkipList.Shape.{
  IsLaid, contents, next_on, Sound, level_of, read_forward_eq, Sound-has_level, header-has_level,
}
use raft_storage.SkipList.Levels.{keep_zero, keep, length-keep, All-keep}
use raft_storage.SkipList.Chains.{Chain}
use raft_storage.SkipList.Assoc.{IsSorted, IsAbove}

module _ {ℓ κ} {K : Type ℓ} {V : Type κ} where
  pub collect_lem :
      (s : SkipList K V) (n i c : ℕ) (xs : List ℕ)
      → length xs < n
      → All (λ a. (Sound s a) × (i ≤ level_of s a)) xs
      → Chain (next_on s i) c xs
      → collect n i s (next_on s i c) ≡ some (contents s xs)
  unfolding collect read_key read_value
  collect_lem s zero i c xs f h e = absurd (omega arith)
  collect_lem s (suc n) i c [] f h e = rw e refl
  collect_lem s (suc n) i c (x ∷ xs) f h e =
      rw
        (
          e.0,
          h.0.0.live,
          read_forward_eq s x i (Sound-has_level s x i h.0.0 h.0.1),
          collect_lem s n i x xs (omega arith) h.1 e.1,
        )
        refl

  -- The nodes of a level, as a walk sees them.
  collect_level :
      (s : SkipList K V) (order : List ℕ) (i : ℕ)
      → IsLaid s order
      → i ≤ s.max_level
      → (read_forward s header i ≡ some (next_on s i header))
        × (collect s.fresh i s (next_on s i header) ≡ some (contents s (keep (level_of s) i order)))
  collect_level s order i laid h =
      let short = length-keep (level_of s) i order in
      let room = laid.room in
      (
        read_forward_eq s header i (header-has_level s order i laid h),
        collect_lem s s.fresh i header (keep (level_of s) i order) (omega arith)
            (All-keep (level_of s) (Sound s) i order laid.nodes) (laid.chains i h),
      )

  -- The walk along the bottom level sees the abstract list.
  pub collect_bottom :
      (o : KeyOrder K) (s : SkipList K V) (m : List (K × V))
      → Represents o s m
      → (p : Option ℕ) × (read_forward s header 0 ≡ some p) × (collect s.fresh 0 s p ≡ some m)
  collect_bottom o s m r =
      let (read, walked) = collect_level s r.order 0 r.laid (omega arith) in
      (
        next_on s 0 header,
        read,
        walked ∙ ap (λ xs. some (contents s xs)) (keep_zero (level_of s) r.order) ∙ ap some r.holds,
      )

  -- `dumpToJson` ends and gives the abstract list.
  pub dump_to_json_lem :
      (o : KeyOrder K) (s : SkipList K V) (m : List (K × V))
      → Represents o s m
      → dump_to_json s ≡ some m
  unfolding dump_to_json
  dump_to_json_lem o s m r =
      let (p, read, walked) = collect_bottom o s m r in
      elim (Bool-cases (s.element_count == 0)) [
        | inl empty ↦
            let z : s.element_count ≡ 0 = ground arith in
            rw empty (ap some (no_nodes r.order (sym r.count ∙ z) ∙ r.holds))
        | inr more ↦ rw (more, read) walked
      ]
    where
      no_nodes : (xs : List ℕ) → length xs ≡ 0 → [] ≡ contents s xs
      no_nodes [] h = refl
      no_nodes (x ∷ xs) h = absurd (omega arith)

  -- The rows of the levels from `i` up.
  abbrev level_rows : SkipList K V → List ℕ → ℕ → ℕ → List (List (K × V))
  level_rows s order zero i = []
  level_rows s order (suc n) i =
      contents s (keep (level_of s) i order) ∷ level_rows s order n (i + 1)

  rows_lem :
      (s : SkipList K V) (order : List ℕ) (n i : ℕ)
      → IsLaid s order
      → i + n ≤ suc s.max_level
      → rows n i s ≡ some (level_rows s order n i)
  unfolding rows
  rows_lem s order zero i laid h = refl
  rows_lem s order (suc n) i laid h =
      let (read, walked) = collect_level s order i laid (omega arith) in
      rw (read, walked, rows_lem s order n (i + 1) laid (omega arith)) refl

  module _ (o : KeyOrder K) (s : SkipList K V) where
    keep-IsAbove :
        (i : ℕ) (k : K) (xs : List ℕ)
        → IsAbove o k (contents s xs)
        → IsAbove o k (contents s (keep (level_of s) i xs))
    unfolding keep
    keep-IsAbove i k [] h = h
    keep-IsAbove i k (x ∷ xs) h = elim (Bool-cases (leb i (level_of s x))) [
      | inl on ↦ rw on (h.0, keep-IsAbove i k xs h.1)
      | inr off ↦ rw off (keep-IsAbove i k xs h.1)
    ]

    keep-IsSorted :
        (i : ℕ) (xs : List ℕ)
        → IsSorted o (contents s xs)
        → IsSorted o (contents s (keep (level_of s) i xs))
    unfolding keep
    keep-IsSorted i [] h = h
    keep-IsSorted i (x ∷ xs) h = elim (Bool-cases (leb i (level_of s x))) [
      | inl on ↦ rw on (keep-IsAbove i (s.cells x).key xs h.0, keep-IsSorted i xs h.1)
      | inr off ↦ rw off (keep-IsSorted i xs h.1)
    ]

    level_rows-IsSorted :
        (order : List ℕ) (n i : ℕ)
        → IsSorted o (contents s order)
        → All (IsSorted o) (level_rows s order n i)
    level_rows-IsSorted order zero i h = tt
    level_rows-IsSorted order (suc n) i h =
        (keep-IsSorted i order h, level_rows-IsSorted order n (i + 1) h)

  length-level_rows :
      (s : SkipList K V) (order : List ℕ) (n i : ℕ) → length (level_rows s order n i) ≡ n
  length-level_rows s order zero i = refl
  length-level_rows s order (suc n) i = ap suc (length-level_rows s order n (i + 1))

  -- `display` ends: the row of level 0 is the abstract list, there is one row for each of the other
  -- levels up to the present one, and all are sorted by key.
  pub display_lem :
      (o : KeyOrder K) (s : SkipList K V) (m : List (K × V))
      → Represents o s m
      → (upper : List (List (K × V))) × (display s ≡ some (m ∷ upper))
        × (length upper ≡ s.cur_level)
        × All (IsSorted o) upper
  unfolding display
  display_lem o s m r =
      let low = r.laid.low in
      let one : s.cur_level + 1 ≡ suc s.cur_level = omega arith in
      let run = rows_lem s r.order (s.cur_level + 1) 0 r.laid (omega arith) in
      (
        level_rows s r.order s.cur_level 1,
        run
            ∙ ap (λ n. some (level_rows s r.order n 0)) one
            ∙ ap (λ xs. some (contents s xs ∷ level_rows s r.order s.cur_level 1))
                (keep_zero (level_of s) r.order)
            ∙ ap (λ e. some (e ∷ level_rows s r.order s.cur_level 1)) r.holds,
        length-level_rows s r.order s.cur_level 1,
        level_rows-IsSorted o s r.order s.cur_level 1 (subst (IsSorted o) (sym r.holds) r.sorted),
      )
