-- ===== src/SkipList/Dangling.antt =====
-- `loadFromJson` of a list that is not empty: the header still points to the deleted nodes.
use raft_storage.Common.{
  contains, ℕ, zero, suc, ◌≤◌, ◌<◌, subst, Bool-cases, ltb→lt, ◌≡◌, refl, sym, ap, ◌∙◌, ◌⊎◌, inl,
  inr, true, false, not, ◌&&◌, Option, none, some, List, [], ◌∷◌, arith, ltb, le→leb, Option-cases,
  length,
}
use mathlib.Core.Option.{some-injective}
use raft_storage.SkipList.Find.{Represents}
use raft_storage.SkipList.{KeyOrder, SkipList, header, has_level, read_key, read_forward, clear}
use raft_storage.SkipList.Shape.{
  next_on, read_forward_eq, IsLaid, bottom-Chain, level_of, contents, header-has_level,
}
use raft_storage.SkipList.Edit.{walk, descend, insert, search_key}
use raft_storage.SkipList.Streams.{or_failed, load_from_json, insert_members, Streamed, Text}
use raft_storage.SkipList.Chains.{Chain-once, Chain}
use raft_storage.SkipList.Levels.{contains-keep, keep}
use raft_storage.SkipList.Release.{clear_lem, bottom_levels}

-- The search of an insertion, from the header down, reads a deleted node, for every key: on some
-- level the header points to one, and above that level it points to none. The number of steps that
-- a walk may take does not matter, as long as it may take one.
pub record ReadsDeleted {ℓ κ} {K : Type ℓ} {V : Type κ} (o : KeyOrder K) (t : SkipList K V)
    : Type ℓ where
  pub level : ℕ
  pub node : ℕ
  pub inside : level ≤ t.cur_level
  pub points : read_forward t header level ≡ some (some node)
  pub deleted : t.live node ≡ false
  pub above :
      (n j : ℕ) (k : K) → level < j → j ≤ t.cur_level → walk o (suc n) t k j header ≡ some header
  pub lost : (n : ℕ) (k : K) → walk o (suc n) t k level header ≡ none

module _ {ℓ κ} {K : Type ℓ} {V : Type κ} (o : KeyOrder K) (t : SkipList K V) (a : ℕ)
    (starts : next_on t 0 header ≡ some a)
    (dead : (i x : ℕ) → i ≤ t.cur_level → next_on t i header ≡ some x → t.live x ≡ false) where
  walk_dangling :
      (n i : ℕ) (k : K)
      → i ≤ t.cur_level
      → has_level t header i ≡ true
      → (walk o n t k i header ≡ none)
        ⊎ ((walk o n t k i header ≡ some header) × (next_on t i header ≡ none))
  unfolding walk read_key
  walk_dangling zero i k b h = inl refl
  walk_dangling (suc n) i k b h =
      let read = read_forward_eq t header i h in
      elim (Option-cases (next_on t i header)) [
        | inl empty ↦ inr (rw (read, empty) refl, empty)
        | inr (x, known) ↦ inl (rw (read, known, dead i x b known) refl)
      ]

  descend_dangling :
      (i : ℕ) (k : K) (upd : ℕ → Option ℕ)
      → i ≤ t.cur_level
      → ((j : ℕ) → j ≤ i → has_level t header j ≡ true)
      → descend o t k i header upd ≡ none
  unfolding descend
  descend_dangling zero k upd b h = elim (walk_dangling t.fresh 0 k b (h 0 (omega arith))) [
    | inl lost ↦ rw lost refl
    | inr (_, empty) ↦ let e = sym starts ∙ empty in cc e
  ]
  descend_dangling (suc i) k upd b h =
      elim (walk_dangling t.fresh (suc i) k b (h (suc i) (omega arith))) [
        | inl lost ↦ rw lost refl
        | inr (run, _) ↦ rw run (descend_dangling i k _ (omega arith) (λ j l. h j (omega arith)))
      ]

  passes :
      (n j : ℕ) (k : K)
      → has_level t header j ≡ true
      → next_on t j header ≡ none
      → walk o (suc n) t k j header ≡ some header
  unfolding walk
  passes n j k h e = rw (read_forward_eq t header j h, e) refl

  stops :
      (n j : ℕ) (k : K) (x : ℕ)
      → has_level t header j ≡ true
      → next_on t j header ≡ some x
      → t.live x ≡ false
      → walk o (suc n) t k j header ≡ none
  unfolding walk read_key
  stops n j k x h e d = rw (read_forward_eq t header j h, e, d) refl

  module _ (levels : (j : ℕ) → j ≤ t.cur_level → has_level t header j ≡ true) where
    found_at :
        (i x : ℕ)
        → i ≤ t.cur_level
        → ((j : ℕ) → i < j → j ≤ t.cur_level → next_on t j header ≡ none)
        → next_on t i header ≡ some x
        → ReadsDeleted o t
    found_at i x b empty known = record {
      level = i;
      node = x;
      inside = b;
      points = read_forward_eq t header i (levels i b) ∙ ap some known;
      deleted = dead i x b known;
      above = λ n j k p q. passes n j k (levels j q) (empty j p q);
      lost = λ n k. stops n i k x (levels i b) known (dead i x b known);
    }

    -- If the header points to no node above a level, then it does so at that level or below.
    highest :
        (i : ℕ)
        → i ≤ t.cur_level
        → ((j : ℕ) → i < j → j ≤ t.cur_level → next_on t j header ≡ none)
        → ReadsDeleted o t
    highest zero b empty = found_at 0 a b empty starts
    highest (suc i) b empty = elim (Option-cases (next_on t (suc i) header)) [
      | inr (x, known) ↦ found_at (suc i) x b empty known
      | inl bare ↦ highest i (omega arith) (λ j p q. elim (Bool-cases (ltb (suc i) j)) [
        | inl over ↦ empty j (ltb→lt _ _ over) q
        | inr level ↦
            let e : suc i ≡ j = ground arith in subst (λ n. next_on t n header ≡ none) e bare
      ])
    ]

module _ {ℓ κ} {K : Type ℓ} {V : Type κ} (o : KeyOrder K) where
  -- A node that the header points to is one of the list.
  header_points :
      (s : SkipList K V) (order : List ℕ) (i x : ℕ)
      → IsLaid s order
      → i ≤ s.max_level
      → next_on s i header ≡ some x
      → contains order x ≡ true
  header_points s order i x laid h e =
      contains-keep (level_of s) i order x (go (keep (level_of s) i order) (laid.chains i h))
    where
      go : (ys : List ℕ) → Chain (next_on s i) header ys → contains ys x ≡ true
      go [] c = let e' = sym c ∙ e in cc e'
      go (y ∷ ys) c = let same : y ≡ x = some-injective _ _ (sym c.0 ∙ e) in ground arith

  insert_dangling :
      (s t : SkipList K V) (a : ℕ) (xs : List ℕ) (rolls : List ℕ) (k : K) (v : V)
      → IsLaid s (a ∷ xs)
      → t ≡ record s { live = t.live }
      → ((x : ℕ) → t.live x ≡ (s.live x && not (contains (a ∷ xs) x)))
      → (insert o rolls k v t ≡ none) × ReadsDeleted o t
  unfolding insert search_key
  insert_dangling s t a xs rolls k v laid same live =
      let low = laid.low in
      let cur : t.cur_level ≡ s.cur_level = ap (λ (u : SkipList K V). u.cur_level) same in
      let cells : t.cells ≡ s.cells = ap (λ (u : SkipList K V). u.cells) same in
      let once = Chain-once (next_on s 0) header (a ∷ xs) (bottom-Chain s (a ∷ xs) laid) in
      let here : t.live header ≡ true =
        let l = live header in let l' = laid.header_live in ground arith in
      let level : level_of t header ≡ s.max_level =
        ap (λ f. (f header).level) cells ∙ laid.header_level in
      let starts = ap (λ f. (f header).forward 0) cells ∙ (bottom-Chain s (a ∷ xs) laid).0 in
      let dead : (i x : ℕ) → i ≤ t.cur_level → next_on t i header ≡ some x → t.live x ≡ false =
        λ i x h e.
          let m =
            header_points s (a ∷ xs) i x laid (omega arith)
              (sym (ap (λ f. (f header).forward i) cells) ∙ e) in
          let l = live x in ground arith in
      let levels : (j : ℕ) → j ≤ t.cur_level → has_level t header j ≡ true =
        λ j h. rw (here, le→leb j (level_of t header) (omega arith)) refl in
      let stuck =
        descend_dangling o t a starts dead t.cur_level k (λ i. none) (omega arith) levels in
      (
        rw stuck refl,
        highest o t a starts dead levels t.cur_level (omega arith) (λ j p q. absurd (omega arith)),
      )

  -- `loadFromJson` of at least one member into a list that is not empty: the deletions go through,
  -- and with them the first node is gone; the header still points to deleted nodes, so the search
  -- of the first insertion reads a deleted node, whatever the key, and the load does not go through.
  pub load_from_json_dangling :
      (keys : Streamed K) (values : Streamed V) (rolls : ℕ → List ℕ) (s : SkipList K V) (e : K × V)
      (m : List (K × V)) (member : Text × Text) (members : List (Text × Text))
      → Represents o s (e ∷ m)
      → (a : ℕ) × (t : SkipList K V) × (read_forward s header 0 ≡ some (some a))
        × (clear s.fresh a s ≡ some t)
        × (t.live a ≡ false)
        × ReadsDeleted o t
        × (load_from_json keys values o rolls (member ∷ members) s ≡ none)
  unfolding load_from_json insert_members
  load_from_json_dangling keys values rolls s e m member members r =
      go r.order r.laid r.holds r.count
    where
      go :
          (order : List ℕ)
          → IsLaid s order
          → contents s order ≡ e ∷ m
          → s.element_count ≡ length order
          → (a : ℕ) × (t : SkipList K V) × (read_forward s header 0 ≡ some (some a))
            × (clear s.fresh a s ≡ some t)
            × (t.live a ≡ false)
            × ReadsDeleted o t
            × (load_from_json keys values o rolls (member ∷ members) s ≡ none)
      go [] laid h n = cc h
      go (a ∷ xs) laid h n =
          let read =
            read_forward_eq s header 0 (header-has_level s (a ∷ xs) 0 laid (omega arith)) in
          let chain = bottom-Chain s (a ∷ xs) laid in
          let room = laid.room in
          let (t, run, same, freed) =
            clear_lem s s.fresh a xs (omega arith) (bottom_levels s (a ∷ xs) laid) chain.1 in
          let some_in : ltb 0 s.element_count ≡ true = ground arith in
          let (stuck, reads) =
            insert_dangling s t a xs (rolls 0) (or_failed keys.failed (keys.scan member.0))
              (or_failed values.failed (values.scan member.1)) laid same freed in
          let first = freed a in
          (
            a,
            t,
            read ∙ ap some chain.0,
            run,
            ground arith,
            reads,
            rw (some_in, read, chain.0, run, stuck) refl,
          )
