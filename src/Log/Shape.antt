-- ===== src/Log/Shape.antt =====
-- The shape of a log: entries carry consecutive indices from the snapshot's on. On such logs the
-- accessors of Raft/Raft.cc never fail inside their range.
use raft_storage.Common.{
  ℕ, zero, suc, ◌+◌, ◌-◌, ◌≤◌, ◌<◌, ◌≡◌, refl, subst, some, List, [], ◌∷◌, ◌++◌, arith, ◌==◌,
  length, get_elem?, take, drop, get_elem?_in, le→leb, Bool-cases, inl, inr,
}
use raft_storage.Log.{
  Log, LogEntry, back, get_last_log_index, get_slices_index, entry_at, get_log_term_from_index,
  erase_through,
}

abbrev pub Consecutive : ℕ → List LogEntry → Type 0
Consecutive n [] = Unit {0}
Consecutive n (x ∷ xs) = (x.log_index ≡ n) × Consecutive (suc n) xs

abbrev pub IsContiguous : Log → Type 0
IsContiguous l = Consecutive (suc l.last_include_index) l.logs

pub Consecutive-at : (ys : List LogEntry) {m n : ℕ} → m ≡ n → Consecutive m ys → Consecutive n ys
Consecutive-at ys e h = subst (λ k. Consecutive k ys) e h

pub Consecutive-append :
    (n : ℕ) (xs ys : List LogEntry)
    → Consecutive n xs
    → Consecutive (n + length xs) ys
    → Consecutive n (xs ++ ys)
Consecutive-append n [] ys h k = Consecutive-at ys (omega arith) k
Consecutive-append n (x ∷ xs) ys h k =
    (h.0, Consecutive-append (suc n) xs ys h.1 (Consecutive-at ys (omega arith) k))

pub Consecutive-left : (n : ℕ) (xs ys : List LogEntry) → Consecutive n (xs ++ ys) → Consecutive n xs
Consecutive-left n [] ys h = tt
Consecutive-left n (x ∷ xs) ys h = (h.0, Consecutive-left (suc n) xs ys h.1)

pub Consecutive-take : (n k : ℕ) (xs : List LogEntry) → Consecutive n xs → Consecutive n (take k xs)
Consecutive-take n zero xs h = tt
Consecutive-take n (suc k) [] h = tt
Consecutive-take n (suc k) (x ∷ xs) h = (h.0, Consecutive-take (suc n) k xs h.1)

pub Consecutive-drop :
    (n k : ℕ) (xs : List LogEntry) → Consecutive n xs → Consecutive (n + k) (drop k xs)
Consecutive-drop n zero xs h = Consecutive-at xs (omega arith) h
Consecutive-drop n (suc k) [] h = tt
Consecutive-drop n (suc k) (x ∷ xs) h =
    Consecutive-at (drop k xs) (omega arith) (Consecutive-drop (suc n) k xs h.1)

-- The index of the entry at a position.
pub get_elem?_index :
    (n i : ℕ) (xs : List LogEntry) (x : LogEntry)
    → Consecutive n xs
    → get_elem? xs i ≡ some x
    → x.log_index ≡ n + i
get_elem?_index n i [] x h e = cc
get_elem?_index n zero (y ∷ xs) x h e = ground arith
get_elem?_index n (suc i) (y ∷ xs) x h e = omega (arith, get_elem?_index (suc n) i xs x h.1 e)

back_index :
    (n : ℕ) (x : LogEntry) (xs : List LogEntry)
    → Consecutive n (x ∷ xs)
    → (back x xs).log_index ≡ n + length xs
unfolding back
back_index n x [] h = omega arith
back_index n x (y ∷ ys) h = omega (arith, back_index (suc n) y ys h.1)

last_index_of :
    (b t : ℕ) (xs : List LogEntry)
    → Consecutive (suc b) xs
    → get_last_log_index (record { logs = xs; last_include_index = b; last_include_term = t })
      ≡ b + length xs
unfolding get_last_log_index
last_index_of b t [] h = omega arith
last_index_of b t (x ∷ xs) h = omega (arith, back_index (suc b) x xs h)

pub get_last_log_index_lem :
    (l : Log) → IsContiguous l → get_last_log_index l ≡ l.last_include_index + length l.logs
get_last_log_index_lem l h = last_index_of l.last_include_index l.last_include_term l.logs h

-- The position of an index inside the log.
pub get_slices_index_in :
    (l : Log) (i : ℕ)
    → l.last_include_index < i
    → i ≤ l.last_include_index + length l.logs
    → get_slices_index l i ≡ some (i - l.last_include_index - 1)
unfolding get_slices_index
get_slices_index_in l i h k = ground arith

-- The entry of an index by its position.
pub entry_at_get :
    (l : Log) (i : ℕ)
    → l.last_include_index < i
    → i ≤ l.last_include_index + length l.logs
    → entry_at l i ≡ get_elem? l.logs (i - l.last_include_index - 1)
unfolding entry_at
entry_at_get l i h k = rw (get_slices_index_in l i h k) refl

-- Every index after the snapshot's and up to the last has an entry, and it carries that index.
pub entry_at_in :
    (l : Log) (i : ℕ)
    → IsContiguous l
    → l.last_include_index < i
    → i ≤ get_last_log_index l
    → (x : LogEntry) × (entry_at l i ≡ some x) × (x.log_index ≡ i)
unfolding entry_at
entry_at_in l i c h k =
    let bound : i ≤ l.last_include_index + length l.logs =
      omega (arith, get_last_log_index_lem l c) in
    let (x, e) = get_elem?_in l.logs (i - l.last_include_index - 1) (omega arith) in
    (
      x,
      rw (get_slices_index_in l i h bound) e,
      omega (arith, get_elem?_index (suc l.last_include_index) _ l.logs x c e),
    )

-- The term of an index is known from the snapshot's index to the last one.
pub get_log_term_in :
    (l : Log) (i : ℕ)
    → IsContiguous l
    → l.last_include_index ≤ i
    → i ≤ get_last_log_index l
    → (t : ℕ) × (get_log_term_from_index l i ≡ some t)
unfolding get_log_term_from_index
get_log_term_in l i c h k = elim (Bool-cases (i == l.last_include_index)) [
  | inl e ↦ (l.last_include_term, rw (le→leb _ _ h, le→leb _ _ k, e) refl)
  | inr e ↦
      let (x, found, _) = entry_at_in l i c (ground arith) k in
      (x.log_term, rw (le→leb _ _ h, le→leb _ _ k, e, found) refl)
]

-- Erasing up to an index keeps exactly the entries after it.
pub erase_through_in :
    (l : Log) (i : ℕ)
    → IsContiguous l
    → l.last_include_index < i
    → i ≤ get_last_log_index l
    → (erase_through l i ≡ some (drop (i - l.last_include_index) l.logs))
      × Consecutive (suc i) (drop (i - l.last_include_index) l.logs)
unfolding erase_through
erase_through_in l i c h k =
    let bound : i ≤ l.last_include_index + length l.logs =
      omega (arith, get_last_log_index_lem l c) in
    let e : i - l.last_include_index - 1 + 1 ≡ i - l.last_include_index = omega arith in
    (
      rw (get_slices_index_in l i h bound, e) refl,
      Consecutive-at (drop (i - l.last_include_index) l.logs) (omega arith)
          (Consecutive-drop (suc l.last_include_index) (i - l.last_include_index) l.logs c),
    )
