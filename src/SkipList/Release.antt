-- ===== src/SkipList/Release.antt =====
-- Deletion of all nodes: by the destructor, and by `loadFromJson`.
use raft_storage.Common.{
  contains, ℕ, zero, suc, ◌<◌, ◌≡◌, refl, ap, ◌∙◌, inl, inr, true, false, not, ◌&&◌, some, List, [],
  ◌∷◌, arith, Bool-cases, length, All, update,
}
use raft_storage.SkipList.Find.{Represents}
use raft_storage.SkipList.{
  KeyOrder, SkipList, header, has_level, clear, destroy, delete_node, drop_node,
}
use raft_storage.SkipList.Chains.{Chain, Chain-once}
use raft_storage.SkipList.Shape.{
  next_on, read_forward_eq, IsLaid, bottom-Chain, header-has_level, Sound, Sound-has_level,
}
use raft_storage.SkipList.Search.{All-map}

module _ {ℓ κ} {K : Type ℓ} {V : Type κ} where
  -- Every node of the chain is deleted, and nothing else is touched.
  pub clear_lem :
      (s : SkipList K V) (n a : ℕ) (xs : List ℕ)
      → length xs < n
      → All (λ x. has_level s x 0 ≡ true) (a ∷ xs)
      → Chain (next_on s 0) a xs
      → (t : SkipList K V) × (clear n a s ≡ some t)
        × (t ≡ record s { live = t.live })
        × ((x : ℕ) → t.live x ≡ (s.live x && not (contains (a ∷ xs) x)))
  unfolding clear delete_node
  clear_lem s zero a xs f h e = absurd (omega arith)
  clear_lem s (suc n) a [] f h e =
      let live : s.live a ≡ true = ground (arith, h.0) in
      (drop_node s a, rw (read_forward_eq s a 0 h.0, e, live) refl, refl, λ x. ground arith)
  clear_lem s (suc n) a (b ∷ xs) f h e =
      let (t, run, same, live) = clear_lem s n b xs (omega arith) h.1 e.1 in
      let once = Chain-once (next_on s 0) a (b ∷ xs) e in
      let here : t.live a ≡ true = live a ∙ ground (arith, h.0) in
      (
        drop_node t a,
        rw (read_forward_eq s a 0 h.0, e.0, run, here) refl,
        ap (λ (u : SkipList K V). record u { live = update t.live a false }) same,
        λ x. let l = live x in ground arith,
      )

  pub bottom_levels :
      (s : SkipList K V) (order : List ℕ) → IsLaid s order → All (λ x. has_level s x 0 ≡ true) order
  bottom_levels s order laid =
      All-map (Sound s) (λ x. has_level s x 0 ≡ true) order
        (λ x h. Sound-has_level s x 0 h (omega arith)) laid.nodes

  -- The last deletion of the destructor.
  header_gone :
      (s t : SkipList K V) (order : List ℕ)
      → IsLaid s order
      → ((x : ℕ) → t.live x ≡ (s.live x && not (contains order x)))
      → (t.live header ≡ true) × ((x : ℕ) → (drop_node t header).live x ≡ false)
  header_gone s t order laid live =
      let once = Chain-once (next_on s 0) header order (bottom-Chain s order laid) in
      let alive = laid.header_live in
      (
        live header ∙ ground arith,
        λ x. elim (Bool-cases (s.live x)) [
          | inl there ↦ let l = live x in let only = laid.only x there in ground arith
          | inr gone ↦ let l = live x in ground arith
        ],
      )

  destroy_order :
      (s : SkipList K V) (order : List ℕ)
      → IsLaid s order
      → (t : SkipList K V) × (destroy s ≡ some t) × ((a : ℕ) → t.live a ≡ false)
  unfolding destroy delete_node
  destroy_order s [] laid =
      let read = read_forward_eq s header 0 (header-has_level s [] 0 laid (omega arith)) in
      let (live, gone) = header_gone s s [] laid (λ x. ground arith) in
      (drop_node s header, rw (read, bottom-Chain s [] laid, live) refl, gone)
  destroy_order s (a ∷ xs) laid =
      let read = read_forward_eq s header 0 (header-has_level s (a ∷ xs) 0 laid (omega arith)) in
      let chain = bottom-Chain s (a ∷ xs) laid in
      let room = laid.room in
      let (t, run, cells, freed) =
        clear_lem s s.fresh a xs (omega arith) (bottom_levels s (a ∷ xs) laid) chain.1 in
      let (live, gone) = header_gone s t (a ∷ xs) laid freed in
      (drop_node t header, rw (read, chain.0, run, live) refl, gone)

  -- The destructor deletes every node, none of them twice, and leaves nothing allocated.
  pub destroy_lem :
      (o : KeyOrder K) (s : SkipList K V) (m : List (K × V))
      → Represents o s m
      → (t : SkipList K V) × (destroy s ≡ some t) × ((a : ℕ) → t.live a ≡ false)
  destroy_lem o s m r = destroy_order s r.order r.laid
