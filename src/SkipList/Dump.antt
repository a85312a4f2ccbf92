-- ===== src/SkipList/Dump.antt =====
-- include/SkipLists.h: the walks along a level, which print the list, compare two lists and give a JSON
-- object as the list of its members, in the order they are set.
use raft_storage.Common.{
  ℕ, zero, suc, ◌+◌, Bool, true, false, ◌&&◌, Option, none, some, List, [], ◌∷◌, ◌==◌,
  if◌then◌else◌, ◌>>=◌,
}
use raft_storage.SkipList.{size, SkipList, header, read_forward, read_key, read_value}

module _ {ℓ κ} {K : Type ℓ} {V : Type κ} where
  -- The keys and values along a level, from a pointer on.
  unfoldable pub collect : ℕ → ℕ → SkipList K V → Option ℕ → Option (List (K × V))
  collect zero i s p = none
  collect (suc n) i s none = some []
  collect (suc n) i s (some a) = do
    k ← read_key s a
    v ← read_value s a
    p ← read_forward s a i
    rest ← collect n i s p
    some ((k, v) ∷ rest)

  unfoldable pub dump_to_json : SkipList K V → Option (List (K × V))
  dump_to_json s =
      if s.element_count == 0
      then some []
      else (do p ← read_forward s header 0; collect s.fresh 0 s p)

  -- `n` rows of `display`, from level `i` up.
  unfoldable pub rows : ℕ → ℕ → SkipList K V → Option (List (List (K × V)))
  rows zero i s = some []
  rows (suc n) i s = do
    p ← read_forward s header i
    row ← collect s.fresh i s p
    rest ← rows n (i + 1) s
    some (row ∷ rest)

  unfoldable pub display : SkipList K V → Option (List (List (K × V)))
  display s = rows (s.cur_level + 1) 0 s

  module _ (same_key : K → K → Bool) (same_value : V → V → Bool) where
    -- The loop of `operator==`, to the first difference or the end of either list.
    unfoldable pub compare_nodes :
        ℕ → SkipList K V → SkipList K V → Option ℕ → Option ℕ → Option Bool
    compare_nodes zero s t p q = none
    compare_nodes (suc n) s t none q = some true
    compare_nodes (suc n) s t (some a) none = some true
    compare_nodes (suc n) s t (some a) (some b) = do
      j ← read_key s a
      k ← read_key t b
      v ← read_value s a
      w ← read_value t b
      elim (same_key j k && same_value v w) [
        | false ↦ some false
        | true ↦ (do p ← read_forward s a 0; q ← read_forward t b 0; compare_nodes n s t p q)
      ]

    -- `operator==`
    unfoldable pub equal : SkipList K V → SkipList K V → Option Bool
    equal s t = elim (size s == size t) [
      | false ↦ some false
      | true ↦ (do
        p ← read_forward s header 0
        q ← read_forward t header 0
        compare_nodes (s.fresh + 1) s t p q)
    ]
