-- ===== src/Log/Merge.antt =====
-- The loop of `handleAppendEntries` over the incoming entries, which works on indices, against a
-- structural merge of the log's tail with the entries.
use raft_storage.Common.{
  ℕ, suc, ◌+◌, ◌≡◌, refl, ap, ◌∙◌, inl, inr, Bool, true, false, ◌||◌, some, List, [], ◌∷◌, ◌++◌,
  arith, ◌==◌, if◌then◌else◌, le→leb, gt→leb, Bool-cases, length, length-append,
  get_elem?-append_cons, take-append,
}
use mathlib.Core.List.{append_assoc, append-nil}
use raft_storage.Log.{
  Log, LogEntry, get_last_log_index, get_slices_index, append_one, append_entries,
}
use raft_storage.Log.Shape.{
  Consecutive, Consecutive-at, Consecutive-append, Consecutive-left, get_last_log_index_lem,
  get_slices_index_in,
}

-- The tail that the protocol asks for: the common part by terms, then the entries sent; a tail
-- that no entry contradicts is kept.
unfoldable pub merge : List LogEntry → List LogEntry → List LogEntry
merge ys [] = ys
merge [] (e ∷ es) = e ∷ es
merge (y ∷ ys) (e ∷ es) =
    let rest = merge ys es in if y.log_term == e.log_term then y ∷ rest else e ∷ es

-- Whether the merge is another list than the tail.
unfoldable pub differs : List LogEntry → List LogEntry → Bool
differs ys [] = false
differs [] (e ∷ es) = true
differs (y ∷ ys) (e ∷ es) =
    let rest = differs ys es in if y.log_term == e.log_term then rest else true

pub merge-nil : (es : List LogEntry) → merge [] es ≡ es
unfolding merge
merge-nil [] = refl
merge-nil (e ∷ es) = refl

-- Entries that change nothing leave the tail.
pub merge_of_same : (ys es : List LogEntry) → differs ys es ≡ false → merge ys es ≡ ys
unfolding merge differs
merge_of_same ys [] h = refl
merge_of_same [] (e ∷ es) h = cc
merge_of_same (y ∷ ys) (e ∷ es) h = elim (Bool-cases (y.log_term == e.log_term)) [
  | inl same ↦ rw same (ap (◌∷◌ y) (merge_of_same ys es (rw same at h)))
  | inr other ↦ let g = rw other at h in cc g
]

pub Consecutive-merge :
    (n : ℕ) (ys es : List LogEntry)
    → Consecutive n ys
    → Consecutive n es
    → Consecutive n (merge ys es)
unfolding merge
Consecutive-merge n ys [] h k = h
Consecutive-merge n [] (e ∷ es) h k = k
Consecutive-merge n (y ∷ ys) (e ∷ es) h k = elim (Bool-cases (y.log_term == e.log_term)) [
  | inl same ↦ rw same (h.0, Consecutive-merge (suc n) ys es h.1 k.1)
  | inr other ↦ rw other k
]

module _ (b t : ℕ) where
  abbrev pub log_of : List LogEntry → Log
  log_of xs = record { logs = xs; last_include_index = b; last_include_term = t }

  append_one_past :
      (p : List LogEntry) (e : LogEntry)
      → Consecutive (suc b) p
      → e.log_index ≡ suc (b + length p)
      → append_one (log_of p) e ≡ some (log_of (p ++ e ∷ []), true)
  unfolding append_one
  append_one_past p e c h =
      rw
        (gt→leb e.log_index (get_last_log_index (log_of p))
          (omega (arith, get_last_log_index_lem (log_of p) c)))
        refl

  append_one_inside :
      (p : List LogEntry) (y : LogEntry) (ys : List LogEntry) (e : LogEntry)
      → Consecutive (suc b) (p ++ y ∷ ys)
      → e.log_index ≡ suc (b + length p)
      → append_one (log_of (p ++ y ∷ ys)) e ≡ (
          if y.log_term == e.log_term
          then some (log_of (p ++ y ∷ ys), false)
          else some (log_of (p ++ e ∷ []), true))
  unfolding append_one
  append_one_inside p y ys e c h =
      let n = length-append p (y ∷ ys) in
      let pos : get_slices_index (log_of (p ++ y ∷ ys)) e.log_index ≡ some (length p) =
        get_slices_index_in (log_of (p ++ y ∷ ys)) e.log_index (omega arith) (omega (arith, n))
        ∙ ap some (omega arith) in
      rw
        (
          le→leb e.log_index (get_last_log_index (log_of (p ++ y ∷ ys)))
              (omega (arith, n, get_last_log_index_lem (log_of (p ++ y ∷ ys)) c)),
          pos,
          get_elem?-append_cons p y ys,
          take-append p (y ∷ ys),
        )
        (ground arith)

  -- One entry further.
  shifted :
      (p : List LogEntry) (x : LogEntry) (es : List LogEntry)
      → Consecutive (suc (suc (b + length p))) es
      → Consecutive (suc (b + length (p ++ x ∷ []))) es
  shifted p x es h = Consecutive-at es (omega (arith, length-append p (x ∷ []))) h

  grown :
      (p : List LogEntry) (x : LogEntry)
      → Consecutive (suc b) p
      → x.log_index ≡ suc (b + length p)
      → Consecutive (suc b) (p ++ x ∷ [])
  grown p x h e = Consecutive-append (suc b) p (x ∷ []) h (omega arith, tt)

  or_false : (a : Bool) → (a || false) ≡ a
  or_false a = ground arith

  or_true : (a c : Bool) → ((a || true) || c) ≡ (a || true)
  or_true a c = ground arith

  append_entries_past :
      (p es : List LogEntry) (changed : Bool)
      → Consecutive (suc b) p
      → Consecutive (suc (b + length p)) es
      → append_entries (log_of p) es changed ≡ some (log_of (p ++ es), changed || differs [] es)
  unfolding append_entries differs
  append_entries_past p [] changed c d = ground (arith, append-nil p)
  append_entries_past p (e ∷ es) changed c d =
      rw
        (
          append_one_past p e c d.0,
          append_entries_past (p ++ e ∷ []) es (changed || true) (grown p e c d.0)
              (shifted p e es d.1),
          append_assoc p (e ∷ []) es,
          or_true changed (differs [] es),
        )
        refl

  -- The loop computes the merge, from any point of the log, and reports whether it changed it.
  pub append_entries_from :
      (p ys es : List LogEntry) (changed : Bool)
      → Consecutive (suc b) (p ++ ys)
      → Consecutive (suc (b + length p)) es
      → append_entries (log_of (p ++ ys)) es changed
        ≡ some (log_of (p ++ merge ys es), changed || differs ys es)
  unfolding append_entries merge differs
  append_entries_from p ys [] changed c d = ground arith
  append_entries_from p [] (e ∷ es) changed c d =
      rw (append-nil p) (append_entries_past p (e ∷ es) changed (Consecutive-left (suc b) p [] c) d)
  append_entries_from p (y ∷ ys) (e ∷ es) changed c d =
      rw (append_one_inside p y ys e c d.0) (elim (Bool-cases (y.log_term == e.log_term)) [
        | inl same ↦ rw same (
            rw (← append_assoc p (y ∷ []) ys, ← append_assoc p (y ∷ []) (merge ys es))
              (rw (or_false changed) (
                append_entries_from (p ++ y ∷ []) ys es changed (rw (append_assoc p (y ∷ []) ys) c)
                  (shifted p y es d.1))))
        | inr other ↦ rw other (
            rw
              (
                append_entries_past (p ++ e ∷ []) es (changed || true)
                    (grown p e (Consecutive-left (suc b) p (y ∷ ys) c) d.0) (shifted p e es d.1),
                append_assoc p (e ∷ []) es,
                or_true changed (differs [] es),
              )
              refl)
      ])
