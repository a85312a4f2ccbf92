-- ===== src/SkipList.antt =====
-- include/SkipLists.h: the skip list as nodes at addresses. A pointer is an address, and a null
-- pointer is `none`. Every read and write through a pointer asks that the node is allocated and that
-- the level is in its array; `none` is what the source leaves undefined, or too little fuel.
pub mod Edit
pub mod Dump
pub mod Walks
pub mod Equal
pub mod Release
pub mod Assoc
pub mod Chains
pub mod Levels
pub mod Shape
pub mod Search
pub mod Find
pub mod Writes
pub mod Grow
pub mod Insert
pub mod Insertion
pub mod Unlink
pub mod Shrink
pub mod Remove
pub mod Removal
pub mod Streams
pub mod Reload
pub mod Roundtrip
pub mod Dangling
pub mod Words
pub mod Restored
mod Tests
use raft_storage.Common.{
  contains, same_text, same_text→eq, same_text_refl, ℕ, zero, suc, ◌+◌, ◌-◌, ◌*◌, ◌/◌, ◌%◌, ◌^◌,
  ◌≤◌, ◌<◌, min, max, String, ◌≡◌, refl, sym, ap, subst, ◌∙◌, ◌≢◌, ◌↔◌, ◌⊎◌, inl, inr, Bool, true,
  false, not, ◌&&◌, ◌||◌, Option, none, some, List, [], ◌∷◌, ◌++◌, map, Mem, arith, ltb, leb, ◌==◌,
  if◌then◌else◌, ltb→lt, lt→ltb, ge→ltb, leb→le, le→leb, gt→leb, eq→==, tests, Bool-cases,
  Option-cases, is_some, ◌>>=◌, >>=-eq-some, length, get_elem?, take, drop, All, length-append,
  length-drop, length-take, take-append-drop, get_elem?-append_cons, take-append,
  get_elem?-append_left, get_elem?_in, drop-cons_get, update, update_self, update_ne,
}

-- `<` and `==` of the keys.
pub record KeyOrder {ℓ} (K : Type ℓ) : Type ℓ where
  pub less : K → K → Bool
  pub same : K → K → Bool

-- `forward` is the array of `level + 1` pointers.
pub record Node {ℓ κ} (K : Type ℓ) (V : Type κ) : Type (ℓ ⊔ κ) where
  pub key : K
  pub value : V
  pub level : ℕ
  pub forward : ℕ → Option ℕ

-- `live` says which addresses hold a node, `fresh` is the next address to allocate.
pub record SkipList {ℓ κ} (K : Type ℓ) (V : Type κ) : Type (ℓ ⊔ κ) where
  pub cells : ℕ → Node K V
  pub live : ℕ → Bool
  pub fresh : ℕ
  pub max_level : ℕ
  pub cur_level : ℕ
  pub element_count : ℕ

-- `header_`
abbrev pub header : ℕ
header = 0

abbrev pub is_null : Option ℕ → Bool
is_null none = true
is_null (some a) = false

-- `p == node`
unfoldable pub points_to : Option ℕ → ℕ → Bool
points_to none x = false
points_to (some y) x = y == x

-- How many of the rolls `rand() % 2` come up before the first even one.
unfoldable pub count_odd : List ℕ → ℕ
count_odd [] = 0
count_odd (roll ∷ rolls) = let more = count_odd rolls in if roll % 2 == 0 then 0 else suc more

module _ {ℓ κ} {K : Type ℓ} {V : Type κ} where
  -- The constructor; the key and the value of the header are the default ones.
  unfoldable pub new_list : K → V → ℕ → SkipList K V
  new_list k v max_level = record {
    cells = λ a. record { key = k; value = v; level = max_level; forward = λ i. none };
    live = λ a. a == header;
    fresh = 1;
    max_level = max_level;
    cur_level = 0;
    element_count = 0;
  }

  unfoldable pub size : SkipList K V → ℕ
  size s = s.element_count

  abbrev pub has_level : SkipList K V → ℕ → ℕ → Bool
  has_level s a i = s.live a && leb i (s.cells a).level

  -- `a->forward_[i]`
  unfoldable pub read_forward : SkipList K V → ℕ → ℕ → Option (Option ℕ)
  read_forward s a i = if has_level s a i then some ((s.cells a).forward i) else none

  abbrev pub put_forward : SkipList K V → ℕ → ℕ → Option ℕ → SkipList K V
  put_forward s a i p = record s {
    cells = update s.cells a (record (s.cells a) { forward = update (s.cells a).forward i p });
  }

  unfoldable pub write_forward : SkipList K V → ℕ → ℕ → Option ℕ → Option (SkipList K V)
  write_forward s a i p = if has_level s a i then some (put_forward s a i p) else none

  -- `a->getKey()` and `a->getValue()`
  unfoldable pub read_key : SkipList K V → ℕ → Option K
  read_key s a = if s.live a then some ((s.cells a).key) else none

  unfoldable pub read_value : SkipList K V → ℕ → Option V
  read_value s a = if s.live a then some ((s.cells a).value) else none

  abbrev pub put_value : SkipList K V → ℕ → V → SkipList K V
  put_value s a v = record s { cells = update s.cells a (record (s.cells a) { value = v }) }

  -- `a->setValue(v)`
  unfoldable pub set_value : SkipList K V → ℕ → V → Option (SkipList K V)
  set_value s a v = if s.live a then some (put_value s a v) else none

  -- `new Node(key, value, level)`, whose pointers are null.
  unfoldable pub create_node : K → V → ℕ → SkipList K V → SkipList K V
  create_node k v level s = record s {
    cells =
        update s.cells s.fresh (record { key = k; value = v; level = level; forward = λ i. none });
    live = update s.live s.fresh true;
    fresh = suc s.fresh;
  }

  abbrev pub drop_node : SkipList K V → ℕ → SkipList K V
  drop_node s a = record s { live = update s.live a false }

  -- `delete a`
  unfoldable pub delete_node : SkipList K V → ℕ → Option (SkipList K V)
  delete_node s a = if s.live a then some (drop_node s a) else none

  unfoldable pub get_random_level : List ℕ → SkipList K V → ℕ
  get_random_level rolls s =
      let counter = count_odd rolls in if ltb counter s.max_level then counter else s.max_level

  -- The recursive deletion of a node and of those after it.
  unfoldable pub clear : ℕ → ℕ → SkipList K V → Option (SkipList K V)
  clear zero a s = none
  clear (suc n) a s = do
    p ← read_forward s a 0
    s' ← elim p [ none ↦ some s | some b ↦ clear n b s ]
    delete_node s' a

  -- The destructor's deletions.
  unfoldable pub destroy : SkipList K V → Option (SkipList K V)
  destroy s = do
    p ← read_forward s header 0
    s' ← elim p [ none ↦ some s | some a ↦ clear s.fresh a s ]
    delete_node s' header
