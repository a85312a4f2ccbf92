-- ===== src/Raft/Quorums.antt =====
-- Raft/Raft.cc, votes over a cluster: two quorums of one term share a node, and the node votes once.
use raft_storage.Common.{
  contains-append, contains, ℕ, zero, suc, ◌≤◌, ◌≡◌, refl, sym, ap, subst, ◌∙◌, ◌⊎◌, inl, inr, true,
  false, some, List, [], ◌∷◌, ◌++◌, arith, leb, ◌==◌, if◌then◌else◌, leb→le, Bool-cases,
  Option-cases, length, take, length-append,
}
use mathlib.Core.Option.{some-injective}
use raft_storage.Raft.State.{Raft, Config, Env}
use raft_storage.Raft.Loop.{run, step, Event}
use raft_storage.Raft.Role.{quorum_size}
use raft_storage.Raft.Durable.{Evolves, Evolves-refl}
use raft_storage.Raft.Durable.Events.{run-Evolves}

-- No number twice.
abbrev pub IsDistinct : List ℕ → Type 0
IsDistinct [] = Unit {0}
IsDistinct (x ∷ xs) = (contains xs x ≡ false) × IsDistinct xs

abbrev without : List ℕ → ℕ → List ℕ
without [] x = []
without (y ∷ ys) x = if y == x then ys else y ∷ without ys x

length-without :
    (ys : List ℕ) (x : ℕ) → contains ys x ≡ true → length ys ≡ suc (length (without ys x))
length-without [] x h = cc h
length-without (y ∷ ys) x h = elim (Bool-cases (y == x)) [
  | inl here ↦ rw here refl
  | inr there ↦ rw there (ap suc (length-without ys x (rw there at h)))
]

contains-without :
    (ys : List ℕ) (x z : ℕ)
    → (x == z) ≡ false
    → contains ys z ≡ true
    → contains (without ys x) z ≡ true
contains-without [] x z d h = cc h
contains-without (y ∷ ys) x z d h = let r = contains-without ys x z d in ground arith

-- Numbers out of a list, none twice, are not more than the list has.
fits :
    (xs ys : List ℕ)
    → IsDistinct xs
    → ((x : ℕ) → contains xs x ≡ true → contains ys x ≡ true)
    → length xs ≤ length ys
fits [] ys d h = omega arith
fits (x ∷ xs) ys d h =
    let here = h x (ground arith) in
    let rest = fits xs (without ys x) d.1 (λ z m.
      let apart : (x == z) ≡ false = other x z m d.0 in
      contains-without ys x z apart (h z (ground arith))) in
    omega (arith, rest, length-without ys x here)
  where
    other : (x z : ℕ) → contains xs z ≡ true → contains xs x ≡ false → (x == z) ≡ false
    other x z m n = elim (Bool-cases (x == z)) [
      | inr apart ↦ apart
      | inl same ↦
          let e : x ≡ z = ground arith in let n' = subst (λ y. contains xs y ≡ false) e n in cc n'
    ]

-- Some number is in both lists, or the lists together hold no number twice.
shared :
    (xs ys : List ℕ)
    → IsDistinct xs
    → IsDistinct ys
    → ((x : ℕ) × (contains xs x ≡ true) × (contains ys x ≡ true)) ⊎ IsDistinct (xs ++ ys)
shared [] ys d e = inr e
shared (x ∷ xs) ys d e = elim (Bool-cases (contains ys x)) [
  | inl both ↦ inl (x, ground arith, both)
  | inr apart ↦ elim (shared xs ys d.1 e) [
    | inl (z, left, right) ↦ inl (z, ground arith, right)
    | inr rest ↦ let p = contains-append xs ys x in let n = d.0 in inr (ground arith, rest)
  ]
]

module _ (configs : ℕ → Config) (starts : ℕ → Raft) (histories : ℕ → List (Env × Event)) where
  -- At some point of its history the node is in the term with a vote for the candidate.
  pub record Voted (term candidate node : ℕ) : Type 0 where
    pub point : ℕ
    pub state : Raft
    pub runs : run (configs node) (take point (histories node)) (starts node) ≡ some state
    pub in_term : state.current_term ≡ term
    pub vote : state.voted_for ≡ some candidate

  -- Nodes of the cluster, as many as a quorum, and none twice, that have voted for the candidate.
  pub record IsElected (ids : List ℕ) (size : ℕ) (term candidate : ℕ) : Type 0 where
    pub voters : List ℕ
    pub distinct : IsDistinct voters
    pub members : (x : ℕ) → contains voters x ≡ true → contains ids x ≡ true
    pub quorum : size ≤ length voters
    pub voted : (x : ℕ) → contains voters x ≡ true → Voted term candidate x

run_points :
    (c : Config) (evs : List (Env × Event)) (n m : ℕ) (s u w : Raft)
    → n ≤ m
    → run c (take n evs) s ≡ some u
    → run c (take m evs) s ≡ some w
    → Evolves u w
unfolding run
run_points c evs zero m s u w h a b =
    subst (λ x. Evolves x w) (some-injective _ _ a) (run-Evolves c (take m evs) s w b)
run_points c evs (suc n) zero s u w h a b = absurd (omega arith)
run_points c [] (suc n) (suc m) s u w h a b =
    subst (λ x. Evolves x w) (some-injective _ _ a)
      (subst (Evolves s) (some-injective _ _ b) (Evolves-refl s))
run_points c ((e, ev) ∷ evs) (suc n) (suc m) s u w h a b = elim (Option-cases (step c e ev s)) [
  | inl stops ↦ let a' = rw stops at a in cc a'
  | inr (t, goes) ↦ run_points c evs n m t u w (omega arith) (rw goes at a) (rw goes at b)
]

module _ (configs : ℕ → Config) (starts : ℕ → Raft) (histories : ℕ → List (Env × Event)) where
  one_vote :
      (term a b node : ℕ)
      → Voted configs starts histories term a node
      → Voted configs starts histories term b node
      → a ≡ b
  one_vote term a b node p q = elim (Bool-cases (leb p.point q.point)) [
    | inl before ↦
        let e =
          run_points (configs node) (histories node) p.point q.point (starts node) p.state q.state
            (leb→le _ _ before) p.runs q.runs in
        some-injective _ _ (sym (e.vote a (p.in_term ∙ sym q.in_term) p.vote) ∙ q.vote)
    | inr after ↦
        let e =
          run_points (configs node) (histories node) q.point p.point (starts node) q.state p.state
            (ground arith) q.runs p.runs in
        some-injective _ _ (sym p.vote ∙ e.vote b (q.in_term ∙ sym p.in_term) q.vote)
  ]

  -- In a term at most one candidate has the votes of a quorum, whatever the nodes of the cluster have
  -- done before and between: the ids of the cluster are not more than its size.
  pub elected_once :
      (c : Config) (ids : List ℕ) (term a b : ℕ)
      → length ids ≤ c.cluster_size
      → IsElected configs starts histories ids (quorum_size c) term a
      → IsElected configs starts histories ids (quorum_size c) term b
      → a ≡ b
  unfolding quorum_size
  elected_once c ids term a b size p q = elim (shared p.voters q.voters p.distinct q.distinct) [
    | inl (x, left, right) ↦ one_vote term a b x (p.voted x left) (q.voted x right)
    | inr all ↦
        let most = fits (p.voters ++ q.voters) ids all (λ x m.
          let both = contains-append p.voters q.voters x in
          let l = p.members x in let r = q.members x in ground arith) in
        let l = p.quorum in
        let r = q.quorum in
        absurd (omega (arith, most, size, l, r, length-append p.voters q.voters))
  ]
