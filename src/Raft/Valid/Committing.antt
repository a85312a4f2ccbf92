-- ===== src/Raft/Valid/Committing.antt =====
-- The commit index and what is applied, at a valid node.
use raft_storage.Common.{
  ℕ, zero, suc, ◌+◌, ◌-◌, ◌≤◌, ◌<◌, ◌≡◌, refl, sym, ap, subst, ◌∙◌, ◌⊎◌, inl, inr, true, false,
  Option, none, some, List, [], ◌∷◌, ◌++◌, arith, ltb, leb, ◌==◌, ltb→lt, leb→le, Bool-cases, take,
  drop, drop-cons_get, All, length,
}
use mathlib.Core.List.{append_assoc, append-nil}
use raft_storage.Log.{Log, LogEntry, entry_at, get_last_log_index, get_log_term_from_index}
use raft_storage.Log.Shape.{
  entry_at_get, entry_at_in, get_last_log_index_lem, IsContiguous, get_log_term_in,
}
use raft_storage.Raft.State.{Raft, ApplyMsg, command_msg, Config}
use raft_storage.Raft.Commit.{
  apply_next, apply_rounds, find_commit, apply_committed, may_commit, count_replicated,
  update_commit_index,
}
use raft_storage.Raft.Frame.{core, Core}
use raft_storage.Raft.Valid.{last_of, Ensures, Ensures-map, Valid, Ensures-out, IsValid, Valid-last}
use raft_storage.Raft.Role.{quorum_size}
use raft_storage.Raft.Valid.Holding.{IsPart, holders_counted, counted_holders}

-- The messages for the entries from an index on.
pub messages : List LogEntry → List ApplyMsg
messages [] = []
messages (x ∷ xs) = command_msg x.command x.log_index x.log_term ∷ messages xs

-- The entries of the log with indices in `(after, after + n]`.
pub entries_after : Log → ℕ → ℕ → List LogEntry
entries_after l after n = take n (drop (after - l.last_include_index) l.logs)

-- What has changed when the committed entries are applied.
pub record Applied (s s' : Raft) (n : ℕ) : Type 0 where
  pub position : s'.last_applied ≡ s.last_applied + n
  pub queue : s'.apply_queue ≡ s.apply_queue ++ messages (entries_after s.log s.last_applied n)
  pub same :
      core s' ≡ record (core s) { last_applied = s'.last_applied; apply_queue = s'.apply_queue }

-- The first entry after an index, and the entries after it.
split_after :
    (l : Log) (after : ℕ) (x : LogEntry)
    → IsContiguous l
    → l.last_include_index ≤ after
    → suc after ≤ last_of l
    → entry_at l (after + 1) ≡ some x
    → drop (after - l.last_include_index) l.logs
      ≡ x ∷ drop (after + 1 - l.last_include_index) l.logs
split_after l after x c lo hi found =
    let at = sym (entry_at_get l (after + 1) (omega arith) (omega arith)) ∙ found in
    let same : after + 1 - l.last_include_index - 1 ≡ after - l.last_include_index = omega arith in
    let next : suc (after - l.last_include_index) ≡ after + 1 - l.last_include_index =
      omega arith in
    rw next at (drop-cons_get l.logs (after - l.last_include_index) x (rw same at at))

apply_rounds-Applied :
    (n : ℕ) (s : Raft)
    → IsContiguous s.log
    → s.log.last_include_index ≤ s.last_applied
    → s.last_applied + n ≤ last_of s.log
    → Ensures (λ s'. Applied s s' n) (apply_rounds n s)
unfolding apply_rounds apply_next messages entries_after
apply_rounds-Applied zero s c lo hi = record {
  position = omega arith;
  queue = sym (append-nil s.apply_queue);
  same = refl;
}
apply_rounds-Applied (suc n) s c lo hi =
    let (x, found, index) =
      entry_at_in s.log (s.last_applied + 1) c (omega arith)
        (omega (arith, get_last_log_index_lem s.log c)) in
    let s' = record s {
      last_applied = s.last_applied + 1;
      apply_queue = s.apply_queue ++ (command_msg x.command (s.last_applied + 1) x.log_term ∷ []);
    } in
    rw found (
      Ensures-map (λ t. Applied s' t n) _ (apply_rounds n s')
        (apply_rounds-Applied n s' c (omega arith) (omega arith))
        λ t a. record {
          position = omega (arith, a.position);
          queue =
              a.queue
              ∙ append_assoc s.apply_queue _ _
              ∙ rw (split_after s.log s.last_applied x c lo (omega arith) found, index) refl;
          same = a.same;
        })

-- `Applied` keeps a valid node valid, as long as no more is applied than is committed.
Valid-Applied :
    (c : Config) (s s' : Raft) (n : ℕ)
    → Valid c s
    → s.last_applied + n ≤ s.commit_index
    → Applied s s' n
    → Valid c s'
Valid-Applied c s s' n v h a = Valid-of_core_eq (a.same) (record {
  contiguous = v.contiguous;
  applied = omega (arith, a.position, v.applied);
  committed = omega (arith, a.position);
  logged = v.logged;
  snapped = v.snapped;
  tracked = v.tracked;
})
  where
    Valid-of_core_eq : {k : Core} → core s' ≡ k → IsValid c k → IsValid c (core s')
    Valid-of_core_eq e w = subst (IsValid c) (sym e) w

-- At a valid node `applyCommitted` reads no entry out of range. It ends with everything committed
-- applied, hands exactly the entries after the old `lastApplied_` to the queue, in the order of the
-- log, and leaves the node valid.
pub apply_committed_lem :
    (c : Config) (s : Raft)
    → Valid c s
    → (s' : Raft) × (apply_committed s ≡ some s')
      × (s'.last_applied ≡ s.commit_index)
      × (s'.apply_queue
          ≡ s.apply_queue
            ++ messages (entries_after s.log s.last_applied (s.commit_index - s.last_applied)))
      × (s'.log ≡ s.log)
      × (s'.commit_index ≡ s.commit_index)
      × (s'.status ≡ s.status)
      × Valid c s'
unfolding apply_committed
apply_committed_lem c s v =
    let n = s.commit_index - s.last_applied in
    let below = v.committed in
    let (s', e, a) =
      Ensures-out (λ t. Applied s t n) (apply_rounds n s)
        (apply_rounds-Applied n s v.contiguous v.applied (omega (arith, v.logged))) in
    (
      s',
      e,
      omega (arith, a.position),
      a.queue,
      ap (λ (k : Core). k.log) a.same,
      ap (λ (k : Core). k.commit_index) a.same,
      ap (λ (k : Core). k.status) a.same,
      Valid-Applied c s s' n v (omega arith) a,
    )

-- An index that the rule of the paper lets a leader commit: some peers are known to hold it, with
-- the leader they are a quorum, and its entry is of the current term.
pub record Committable (c : Config) (s : Raft) (index : ℕ) : Type 0 where
  pub holders : List ℕ
  pub part : IsPart holders c.peers
  pub hold : All (λ p. index ≤ s.match_index p) holders
  pub quorum : quorum_size c ≤ suc (length holders)
  pub own_term : get_log_term_from_index s.log index ≡ some s.current_term

-- The greatest committable index in `(commit_index, top]`, if there is one.
abbrev pub IsGreatest : Config → Raft → ℕ → Option ℕ → Type 0
IsGreatest c s top none = (j : ℕ) → s.commit_index < j → j ≤ top → ¬ Committable c s j
IsGreatest c s top (some i) =
    (s.commit_index < i)
    × (i ≤ top)
    × Committable c s i
    × ((j : ℕ) → i < j → j ≤ top → ¬ Committable c s j)

may_commit-Decides :
    (c : Config) (s : Raft) (i : ℕ)
    → Valid c s
    → s.log.last_include_index ≤ i
    → i ≤ get_last_log_index s.log
    → ((may_commit c s i ≡ some true) × Committable c s i)
      ⊎ ((may_commit c s i ≡ some false) × (¬ Committable c s i))
unfolding may_commit
may_commit-Decides c s i v lo hi =
    let (t, e) = get_log_term_in s.log i v.contiguous lo hi in
    elim (Bool-cases (leb (quorum_size c) (count_replicated s.match_index i c.peers))) [
      | inr few ↦ inr (
        rw few refl,
        λ k.
            let counted = holders_counted s.match_index i k.holders c.peers k.part k.hold in
            absurd (omega (arith, k.quorum, counted, ge_of_gt _ _ few)),
      )
      | inl many ↦ elim (Bool-cases (t == s.current_term)) [
        | inl own ↦
            let (holders, part, hold, n) = counted_holders s.match_index i c.peers in
            inl (
              rw (many, e, own) refl,
              record {
                holders = holders;
                part = part;
                hold = hold;
                quorum = omega (arith, n, leb→le _ _ many);
                own_term = e ∙ ap some (ground arith);
              },
            )
        | inr other ↦ inr (rw (many, e, other) refl, λ k. let q = k.own_term in ground arith)
      ]
    ]
  where
    ge_of_gt : (a b : ℕ) → leb a b ≡ false → b < a
    ge_of_gt a b h = ground arith

-- None in a range, none at its end: none in the range that is one longer.
none_further :
    (c : Config) (s : Raft) (from i : ℕ)
    → ((j : ℕ) → from < j → j ≤ i → ¬ Committable c s j)
    → ¬ Committable c s (suc i)
    → (j : ℕ) → from < j
    → j ≤ suc i
    → ¬ Committable c s j
none_further c s from i h k j p q = elim (Bool-cases (leb j i)) [
  | inl inside ↦ h j p (leb→le j i inside)
  | inr last ↦ let e : suc i ≡ j = ground arith in subst (λ n. ¬ Committable c s n) e k
]

IsGreatest-further :
    (c : Config) (s : Raft) (i : ℕ) (r : Option ℕ)
    → IsGreatest c s i r
    → ¬ Committable c s (suc i)
    → IsGreatest c s (suc i) r
IsGreatest-further c s i none g k = none_further c s s.commit_index i g k
IsGreatest-further c s i (some n) g k = (g.0, omega (arith, g.1), g.2, none_further c s n i g.3 k)

find_commit-Finds :
    (c : Config) (s : Raft) (i : ℕ)
    → Valid c s
    → i ≤ get_last_log_index s.log
    → (r : Option ℕ) × (find_commit c s i ≡ some r) × IsGreatest c s i r
unfolding find_commit
find_commit-Finds c s zero v hi = (none, refl, λ j p q. absurd (omega arith))
find_commit-Finds c s (suc i) v hi =
    let (r, e, g) = find_commit-Finds c s i v (omega arith) in
    elim (Bool-cases (ltb s.commit_index (suc i))) [
      | inr low ↦
          let stop : suc i ≤ s.commit_index = ground arith in
          (none, rw low refl, λ j p q. absurd (omega arith))
      | inl high ↦
          let above = ltb→lt _ _ high in
          elim (may_commit-Decides c s (suc i) v (omega (arith, v.applied, v.committed)) hi) [
            | inl (found, k) ↦ (
              some (suc i),
              rw (high, found) refl,
              (above, omega arith, k, λ j p q. absurd (omega arith)),
            )
            | inr (missed, k) ↦ (r, rw (high, missed) e, IsGreatest-further c s i r g k)
          ]
    ]

-- What `updateCommitIndex` does to the node: nothing, when no index above the commit index is
-- committable; else the commit index moves to the greatest such index, and all of it is applied.
abbrev pub CommitsTo : Config → Raft → Raft → Option ℕ → Type 0
CommitsTo c s s' none = s' ≡ s
CommitsTo c s s' (some i) =
    (s'.commit_index ≡ i)
    × (s'.last_applied ≡ i)
    × (s'.apply_queue
        ≡ s.apply_queue ++ messages (entries_after s.log s.last_applied (i - s.last_applied)))

-- At a valid node `updateCommitIndex` goes through. The commit index moves exactly to the greatest
-- index above it that a quorum holds with an entry of the current term, up to which the entries
-- then are applied; without one the node stays as it is. The log stays, and so does validity.
pub update_commit_index_lem :
    (c : Config) (s : Raft)
    → Valid c s
    → (s' : Raft) × (r : Option ℕ) × (update_commit_index c s ≡ some s')
      × IsGreatest c s (get_last_log_index s.log) r
      × CommitsTo c s s' r
      × (s'.log ≡ s.log)
      × Valid c s'
unfolding update_commit_index
update_commit_index_lem c s v =
    let (r, e, g) = find_commit-Finds c s (get_last_log_index s.log) v (omega arith) in go r e g
  where
    go :
        (r : Option ℕ)
        → find_commit c s (get_last_log_index s.log) ≡ some r
        → IsGreatest c s (get_last_log_index s.log) r
        → (s' : Raft) × (r : Option ℕ) × (update_commit_index c s ≡ some s')
          × IsGreatest c s (get_last_log_index s.log) r
          × CommitsTo c s s' r
          × (s'.log ≡ s.log)
          × Valid c s'
    go none e g = (s, none, rw e refl, g, refl, refl, v)
    go (some i) e g =
        let t = record s { commit_index = i; current_term_committed = true } in
        let w : Valid c t = record {
          contiguous = v.contiguous;
          applied = v.applied;
          committed = omega (arith, g.0, v.committed);
          logged = omega (arith, g.1, Valid-last c s v);
          snapped = v.snapped;
          tracked = v.tracked;
        } in
        let (s', run, applied, queue, log, commit, status, valid) = apply_committed_lem c t w in
        (s', some i, rw e run, g, (commit, applied, queue), log, valid)
