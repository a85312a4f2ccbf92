-- ===== src/Log/Agree.antt =====
-- What the loop of `handleAppendEntries` leaves in the log: the sent entries at their places, and
-- nothing else moved.
use raft_storage.Common.{
  ℕ, zero, suc, ◌-◌, ◌≤◌, ◌≡◌, refl, ap, ◌∙◌, inl, inr, false, some, List, [], ◌∷◌, ◌++◌, arith,
  ◌==◌, eq→==, Bool-cases, length, take, drop, length-take, take-append-drop,
}
use raft_storage.Log.{Log, LogEntry, get_last_log_index, append_entries}
use raft_storage.Log.Shape.{
  Consecutive, Consecutive-at, Consecutive-append, Consecutive-take, Consecutive-drop, IsContiguous,
  get_last_log_index_lem,
}
use raft_storage.Log.Merge.{merge, differs, Consecutive-merge, merge_of_same, append_entries_from}

-- The log with the entries after `prev` merged in.
abbrev pub merged : Log → ℕ → List LogEntry → Log
merged l prev es =
    let k = prev - l.last_include_index in
    record l { logs = take k l.logs ++ merge (drop k l.logs) es }

-- For consecutive entries from `prev + 1` on, with `prev` in the log, the loop of
-- `handleAppendEntries` neither fails nor reads out of range: it keeps the log up to `prev`, merges
-- the entries into the rest by their terms, and reports a change exactly when the merge differs.
pub append_entries_lem :
    (l : Log) (prev : ℕ) (es : List LogEntry)
    → IsContiguous l
    → l.last_include_index ≤ prev
    → prev ≤ get_last_log_index l
    → Consecutive (suc prev) es
    → append_entries l es false
      ≡ some (merged l prev es, differs (drop (prev - l.last_include_index) l.logs) es)
append_entries_lem l prev es c lo hi d =
    let k = prev - l.last_include_index in
    let n = length-take k l.logs (omega (arith, get_last_log_index_lem l c)) in
    rw (take-append-drop k l.logs) at (
      append_entries_from l.last_include_index l.last_include_term (take k l.logs) (drop k l.logs)
        es false (rw (take-append-drop k l.logs) c) (Consecutive-at es (omega (arith, n)) d))

pub merged-IsContiguous :
    (l : Log) (prev : ℕ) (es : List LogEntry)
    → IsContiguous l
    → l.last_include_index ≤ prev
    → prev ≤ get_last_log_index l
    → Consecutive (suc prev) es
    → IsContiguous (merged l prev es)
merged-IsContiguous l prev es c lo hi d =
    let k = prev - l.last_include_index in
    let n = length-take k l.logs (omega (arith, get_last_log_index_lem l c)) in
    Consecutive-append _ (take k l.logs) (merge (drop k l.logs) es) (Consecutive-take _ k l.logs c)
      (Consecutive-merge _ (drop k l.logs) es
        (Consecutive-at (drop k l.logs) (omega (arith, n)) (Consecutive-drop _ k l.logs c))
        (Consecutive-at es (omega (arith, n)) d))

-- Every sent entry has an entry of its term at its place.
abbrev pub Carries : List LogEntry → List LogEntry → Type 0
Carries xs [] = Unit {0}
Carries [] (e ∷ es) = ⊥
Carries (x ∷ xs) (e ∷ es) = (x.log_term ≡ e.log_term) × Carries xs es

Carries-self : (es : List LogEntry) → Carries es es
Carries-self [] = tt
Carries-self (e ∷ es) = (refl, Carries-self es)

pub merge-Carries : (ys es : List LogEntry) → Carries (merge ys es) es
unfolding merge
merge-Carries ys [] = tt
merge-Carries [] (e ∷ es) = (refl, Carries-self es)
merge-Carries (y ∷ ys) (e ∷ es) = elim (Bool-cases (y.log_term == e.log_term)) [
  | inl same ↦ rw same (ground arith, merge-Carries ys es)
  | inr other ↦ rw other (refl, Carries-self es)
]

pub differs_of_Carries : (ys es : List LogEntry) → Carries ys es → differs ys es ≡ false
unfolding differs
differs_of_Carries ys [] h = refl
differs_of_Carries [] (e ∷ es) h = absurd h
differs_of_Carries (y ∷ ys) (e ∷ es) h =
    rw (eq→== y.log_term e.log_term h.0) (differs_of_Carries ys es h.1)

pub length-merge-ge : (ys es : List LogEntry) → length es ≤ length (merge ys es)
unfolding merge
length-merge-ge ys [] = omega arith
length-merge-ge [] (e ∷ es) = omega arith
length-merge-ge (y ∷ ys) (e ∷ es) = ground (arith, length-merge-ge ys es)

-- The entries agree by their terms with the first `n` entries of the tail.
abbrev pub AgreesBelow : ℕ → List LogEntry → List LogEntry → Type 0
AgreesBelow zero ys es = Unit {0}
AgreesBelow (suc n) [] es = Unit {0}
AgreesBelow (suc n) (y ∷ ys) [] = Unit {0}
AgreesBelow (suc n) (y ∷ ys) (e ∷ es) = (y.log_term ≡ e.log_term) × AgreesBelow n ys es

-- A tail that the entries agree with up to `n` keeps those `n` entries.
pub take-merge :
    (n : ℕ) (ys es : List LogEntry)
    → n ≤ length ys
    → AgreesBelow n ys es
    → take n (merge ys es) ≡ take n ys
unfolding merge
take-merge zero ys es h a = refl
take-merge (suc n) [] es h a = absurd (omega arith)
take-merge (suc n) (y ∷ ys) [] h a = refl
take-merge (suc n) (y ∷ ys) (e ∷ es) h a =
    rw (eq→== y.log_term e.log_term a.0) (ap (◌∷◌ y) (take-merge n ys es (omega arith) a.1))

pub length-merge_keeps :
    (n : ℕ) (ys es : List LogEntry) → n ≤ length ys → AgreesBelow n ys es → n ≤ length (merge ys es)
unfolding merge
length-merge_keeps zero ys es h a = omega arith
length-merge_keeps (suc n) [] es h a = absurd (omega arith)
length-merge_keeps (suc n) (y ∷ ys) [] h a = h
length-merge_keeps (suc n) (y ∷ ys) (e ∷ es) h a =
    rw (eq→== y.log_term e.log_term a.0)
      (let r = length-merge_keeps n ys es (omega arith) a.1 in omega arith)

drop-append : (xs ys : List LogEntry) → drop (length xs) (xs ++ ys) ≡ ys
drop-append [] ys = refl
drop-append (x ∷ xs) ys = drop-append xs ys

-- A repeated request changes nothing more: the second run of the loop leaves the log as the first
-- one made it and reports no change.
pub append_entries-repeated :
    (l : Log) (prev : ℕ) (es : List LogEntry)
    → IsContiguous l
    → l.last_include_index ≤ prev
    → prev ≤ get_last_log_index l
    → Consecutive (suc prev) es
    → append_entries (merged l prev es) es false ≡ some (merged l prev es, false)
append_entries-repeated l prev es c lo hi d =
    let k = prev - l.last_include_index in
    let n = length-take k l.logs (omega (arith, get_last_log_index_lem l c)) in
    let tail = merge (drop k l.logs) es in
    let same : differs tail es ≡ false =
      differs_of_Carries tail es (merge-Carries (drop k l.logs) es) in
    append_entries_from l.last_include_index l.last_include_term (take k l.logs) tail es false
      (merged-IsContiguous l prev es c lo hi d) (Consecutive-at es (omega (arith, n)) d)
    ∙ rw (same, merge_of_same tail es same) refl
