-- ===== src/SkipList/Edit.antt =====
-- include/SkipLists.h: the search from the top level down, and what rests on it.
use raft_storage.Common.{
  ℕ, zero, suc, ◌+◌, ◌-◌, max, Bool, true, false, not, ◌&&◌, Option, none, some, List, ltb, leb,
  if◌then◌else◌, ◌>>=◌, update,
}
use raft_storage.SkipList.{
  KeyOrder, SkipList, delete_node, header, is_null, read_forward, create_node, read_key, read_value,
  points_to, write_forward, set_value, get_random_level,
}

-- `update[i] = header_` above the present level.
unfoldable pub raise_update : ℕ → ℕ → (ℕ → Option ℕ) → ℕ → Option ℕ
raise_update cur random upd i = if ltb cur i && leb i random then some header else upd i

module _ {ℓ κ} {K : Type ℓ} {V : Type κ} where
  -- The levels of the new node, from 0 up.
  unfoldable pub link : ℕ → ℕ → ℕ → (ℕ → Option ℕ) → SkipList K V → Option (SkipList K V)
  link zero i a upd s = some s
  link (suc n) i a upd s = do
    p ← upd i
    next ← read_forward s p i
    s' ← write_forward s a i next
    s'' ← write_forward s' p i (some a)
    link n (i + 1) a upd s''

  unfoldable pub insert_new : K → V → ℕ → (ℕ → Option ℕ) → SkipList K V → Option (SkipList K V)
  insert_new k v random upd s =
      let upd' = raise_update s.cur_level random upd in
      let raised = record s { cur_level = max s.cur_level random } in
      do
        s' ← link (random + 1) 0 s.fresh upd' (create_node k v random raised)
        some (record s' { element_count = s'.element_count + 1 })

  -- The levels of the node, from 0 up, to the first one that it is not on.
  unfoldable pub unlink : ℕ → ℕ → ℕ → (ℕ → Option ℕ) → SkipList K V → Option (SkipList K V)
  unlink zero i x upd s = some s
  unlink (suc n) i x upd s = do
    p ← upd i
    next ← read_forward s p i
    elim (points_to next x) [
      | false ↦ some s
      | true ↦ (do
        after ← read_forward s x i
        s' ← write_forward s p i after
        unlink n (i + 1) x upd s')
    ]

  -- `while (curLevel_ > 0 && header_->forward_[curLevel_] == nullptr) curLevel_--`
  unfoldable pub lower : ℕ → SkipList K V → Option (SkipList K V)
  lower zero s = some (record s { cur_level = 0 })
  lower (suc i) s = do
    p ← read_forward s header (suc i)
    elim p [ none ↦ lower i s | some a ↦ some (record s { cur_level = suc i }) ]

  unfoldable pub remove : ℕ → (ℕ → Option ℕ) → SkipList K V → Option (SkipList K V)
  remove x upd s = do
    s' ← unlink (s.cur_level + 1) 0 x upd s
    s'' ← lower s'.cur_level s'
    s''' ← delete_node s'' x
    some (record s''' { element_count = s'''.element_count - 1 })

module _ {ℓ κ} {K : Type ℓ} {V : Type κ} (o : KeyOrder K) where
  -- `while (current->forward_[i] != nullptr && current->forward_[i]->getKey() < key)`
  unfoldable pub walk : ℕ → SkipList K V → K → ℕ → ℕ → Option ℕ
  walk zero s k i current = none
  walk (suc n) s k i current = do
    p ← read_forward s current i
    elim p [
      | none ↦ some current
      | some a ↦ (do
        j ← read_key s a
        elim (o.less j k) [ true ↦ walk n s k i a | false ↦ some current ])
    ]

  -- The loop over the levels, with the array `update`. There are at most `fresh` nodes to walk.
  unfoldable pub descend : SkipList K V → K → ℕ → ℕ → (ℕ → Option ℕ) → Option (ℕ × (ℕ → Option ℕ))
  descend s k zero current upd = do a ← walk s.fresh s k 0 current; some (a, update upd 0 (some a))
  descend s k (suc i) current upd = do
    a ← walk s.fresh s k (suc i) current
    descend s k i a (update upd (suc i) (some a))

  -- The search of all operations; `get` and `find` have no array, and walk in the same way.
  unfoldable pub search_key : SkipList K V → K → Option (ℕ × (ℕ → Option ℕ))
  search_key s k = descend s k s.cur_level header (λ i. none)

  -- `current != nullptr && current->getKey() == key`
  unfoldable pub hits : SkipList K V → K → Option ℕ → Option Bool
  hits s k none = some false
  hits s k (some a) = do j ← read_key s a; some (o.same j k)

  -- The node after the found position, if it has the key.
  unfoldable pub find_node : SkipList K V → K → Option (Option ℕ)
  find_node s k = do
    r ← search_key s k
    p ← read_forward s r.0 0
    hit ← hits s k p
    some (if hit then p else none)

  unfoldable pub find : SkipList K V → K → Option Bool
  find s k = do p ← find_node s k; some (not (is_null p))

  unfoldable pub get : SkipList K V → K → Option (Option V)
  get s k = do
    p ← find_node s k
    elim p [ none ↦ some none | some a ↦ (do v ← read_value s a; some (some v)) ]

  -- Both ways return true.
  unfoldable pub insert : List ℕ → K → V → SkipList K V → Option (SkipList K V × Bool)
  insert rolls k v s = do
    r ← search_key s k
    p ← read_forward s r.0 0
    hit ← hits s k p
    s' ← elim hit [
      | true ↦ (do a ← p; set_value s a v)
      | false ↦ insert_new k v (get_random_level rolls s) r.1 s
    ]
    some (s', true)

  unfoldable pub erase : K → SkipList K V → Option (SkipList K V × Bool)
  erase k s = do
    r ← search_key s k
    p ← read_forward s r.0 0
    hit ← hits s k p
    elim hit [ true ↦ (do a ← p; s' ← remove a r.1 s; some (s', true)) | false ↦ some (s, false) ]
