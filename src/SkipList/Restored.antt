-- ===== src/SkipList/Restored.antt =====
-- A snapshot of the list of `KVStateMachine`, `dumpToJson` and then `loadFromJson`.
use raft_storage.Common.{ℕ, ◌≡◌, refl, ap, subst, ◌∙◌, true, some, List, [], ◌∷◌, ◌++◌, All}
use raft_storage.SkipList.Find.{Represents}
use raft_storage.SkipList.Streams.{Text, load_from_json}
use raft_storage.SkipList.Words.{
  IsWord, text_order, text_stream, is_space, text_order-IsTotal, scan_word_lem, scan_word_cut,
}
use raft_storage.SkipList.{SkipList}
use raft_storage.SkipList.Reload.{read_members, put_all, load_from_json_lem, put_all_lem}
use raft_storage.SkipList.Dump.{dump_to_json}
use raft_storage.SkipList.Assoc.{put}
use raft_storage.SkipList.Walks.{dump_to_json_lem}

read_words :
    (m : List (Text × Text))
    → All (λ e. IsWord e.0 × IsWord e.1) m
    → read_members text_stream text_stream m ≡ m
read_words [] h = refl
read_words (e ∷ m) h =
    rw (scan_word_lem e.0 h.0.0, scan_word_lem e.1 h.0.1) (ap (◌∷◌ e) (read_words m h.1))

module _ (rolls : ℕ → List ℕ) where
  -- The JSON of a list of single words, loaded into an empty list, gives the same keys and values.
  pub restore-dump :
      (s r : SkipList Text Text) (m : List (Text × Text))
      → Represents text_order s m
      → Represents text_order r []
      → All (λ e. IsWord e.0 × IsWord e.1) m
      → (members : List (Text × Text)) × (dump_to_json s ≡ some members)
        × (t : SkipList Text Text) × (load_from_json text_stream text_stream text_order rolls
              members r
            ≡ some t)
        × Represents text_order t m
  restore-dump s r m full empty words =
      let (t, run, repr) =
        load_from_json_lem text_stream text_stream text_order text_order-IsTotal rolls m r empty in
      (
        m,
        dump_to_json_lem text_order s m full,
        t,
        run,
        subst (Represents text_order t)
            (ap (λ x. put_all text_order x []) (read_words m words)
              ∙ put_all_lem text_order text_order-IsTotal m full.sorted)
            repr,
      )

  -- Of a value with a space in it, only the first word comes back.
  pub restore_cut :
      (r : SkipList Text Text) (key w rest : Text) (space : ℕ)
      → Represents text_order r []
      → IsWord key
      → IsWord w
      → is_space space ≡ true
      → (t : SkipList Text Text) × (load_from_json text_stream text_stream text_order rolls
            ((key, w ++ space ∷ rest) ∷ [])
            r
          ≡ some t)
        × Represents text_order t ((key, w) ∷ [])
  unfolding put_all put
  restore_cut r key w rest space empty k v sp =
      let (t, run, repr) =
        load_from_json_lem text_stream text_stream text_order text_order-IsTotal rolls
          ((key, w ++ space ∷ rest) ∷ []) r empty in
      let read = scan_word_lem key k in
      let cut = scan_word_cut w space rest v sp in (t, run, rw (read, cut) at repr)
