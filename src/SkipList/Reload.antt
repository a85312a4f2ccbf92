-- ===== src/SkipList/Reload.antt =====
-- The list read back from what was written of it.
use raft_storage.Common.{
  ℕ, ◌+◌, ◌≡◌, refl, sym, ap, subst, ◌∙◌, true, false, some, List, [], ◌∷◌, ◌++◌, arith, ltb,
  length, All,
}
use raft_storage.SkipList.Find.{Represents}
use mathlib.Core.List.{append-nil, append_assoc}
use raft_storage.SkipList.Levels.{keep}
use raft_storage.SkipList.{KeyOrder, SkipList, new_list}
use raft_storage.SkipList.Assoc.{IsTotal, put, IsSorted, IsAbove}
use raft_storage.SkipList.Streams.{Streamed, load_from_json, insert_members, Text, or_failed}
use raft_storage.SkipList.Insertion.{insert_lem}
use raft_storage.SkipList.Shape.{contents}

module _ {ℓ κ} {K : Type ℓ} {V : Type κ} (o : KeyOrder K) where
  -- The entries put in one after the other.
  unfoldable pub put_all : List (K × V) → List (K × V) → List (K × V)
  put_all [] m = m
  put_all (e ∷ es) m = put_all es (put o e.0 e.1 m)

  module _ (t : IsTotal o) where
    put_above :
        (k : K) (v : V) (m : List (K × V))
        → All (λ e. o.less e.0 k ≡ true) m
        → put o k v m ≡ m ++ (k, v) ∷ []
    unfolding put
    put_above k v [] h = refl
    put_above k v (e ∷ m) h = rw h.0 (ap (◌∷◌ e) (put_above k v m h.1))

    sorted_below :
        (xs ys : List (K × V)) (e : K × V)
        → IsSorted o (xs ++ e ∷ ys)
        → All (λ f. o.less f.0 e.0 ≡ true) xs
    sorted_below [] ys e h = tt
    sorted_below (x ∷ xs) ys e h = (above xs h.0, sorted_below xs ys e h.1)
      where
        above : (zs : List (K × V)) → IsAbove o x.0 (zs ++ e ∷ ys) → o.less x.0 e.0 ≡ true
        above [] a = a.0
        above (z ∷ zs) a = above zs a.1

    put_all-sorted : (ys xs : List (K × V)) → IsSorted o (xs ++ ys) → put_all ys xs ≡ xs ++ ys
    unfolding put_all
    put_all-sorted [] xs h = sym (append-nil xs)
    put_all-sorted (e ∷ ys) xs h =
        let one = put_above e.0 e.1 xs (sorted_below xs ys e h) in
        let same : (xs ++ e ∷ []) ++ ys ≡ xs ++ e ∷ ys = append_assoc xs (e ∷ []) ys in
        rw one (put_all-sorted ys (xs ++ e ∷ []) (subst (IsSorted o) (sym same) h) ∙ same)

  -- Entries in sorted order are put in unchanged.
  pub put_all_lem : (t : IsTotal o) (m : List (K × V)) → IsSorted o m → put_all m [] ≡ m
  put_all_lem t m h = put_all-sorted t m [] h

module _ {ℓ κ} {K : Type ℓ} {V : Type κ} (keys : Streamed K) (values : Streamed V) where
  -- What the members of a JSON object are read as.
  abbrev pub read_members : List (Text × Text) → List (K × V)
  read_members [] = []
  read_members (e ∷ es) =
      (or_failed keys.failed (keys.scan e.0), or_failed values.failed (values.scan e.1))
      ∷ read_members es

module _ {ℓ κ} {K : Type ℓ} {V : Type κ} (keys : Streamed K) (values : Streamed V) (o : KeyOrder K)
    (total : IsTotal o) (rolls : ℕ → List ℕ) where
  insert_members_lem :
      (i : ℕ) (members : List (Text × Text)) (s : SkipList K V) (m : List (K × V))
      → Represents o s m
      → (t : SkipList K V) × (insert_members keys values o rolls i members s ≡ some t)
        × Represents o t (put_all o (read_members keys values members) m)
  unfolding insert_members put_all
  insert_members_lem i [] s m r = (s, refl, r)
  insert_members_lem i (e ∷ es) s m r =
      let (t, run, r') =
        insert_lem o total s m (rolls i) (or_failed keys.failed (keys.scan e.0))
          (or_failed values.failed (values.scan e.1)) r in
      let (u, run', r'') = insert_members_lem (i + 1) es t _ r' in (u, rw (run, run') refl, r'')

  -- `loadFromJson` into an empty list puts the members in one after the other.
  pub load_from_json_lem :
      (members : List (Text × Text)) (s : SkipList K V)
      → Represents o s []
      → (t : SkipList K V) × (load_from_json keys values o rolls members s ≡ some t)
        × Represents o t (put_all o (read_members keys values members) [])
  unfolding load_from_json
  load_from_json_lem members s r =
      let (t, run, r') = insert_members_lem 0 members s [] r in
      let none_in : s.element_count ≡ 0 = r.count ∙ no_nodes r.order r.holds in
      let empty : ltb 0 s.element_count ≡ false = ground arith in (t, rw empty run, r')
    where
      no_nodes : (xs : List ℕ) → contents s xs ≡ [] → length xs ≡ 0
      no_nodes [] h = refl
      no_nodes (x ∷ xs) h = cc h

-- The empty list stands for no entries.
pub new_list-Represents {ℓ κ} :
    {K : Type ℓ} {V : Type κ} (o : KeyOrder K) (k : K) (v : V) (max_level : ℕ)
    → Represents o (new_list k v max_level) []
unfolding new_list keep
new_list-Represents o k v max_level = record {
  order = [];
  laid = record {
    header_live = ground arith;
    header_level = refl;
    low = omega arith;
    nodes = tt;
    chains = λ i h. refl;
    room = omega arith;
    only = λ a h. ground arith;
  };
  holds = refl;
  sorted = tt;
  count = refl;
}
