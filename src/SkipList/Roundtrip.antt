-- ===== src/SkipList/Roundtrip.antt =====
-- `dump` and `load`: what is written is read back.
use raft_storage.Common.{
  contains, ℕ, suc, ◌+◌, ◌≡◌, refl, subst, ◌∙◌, true, false, some, List, [], ◌∷◌, ◌++◌, arith, ◌==◌,
  length, drop, All, take-append,
}
use raft_storage.SkipList.Find.{Represents}
use raft_storage.SkipList.Streams.{
  skip_line, end_load, Streamed, LineRead, Text, newline, entry_line, read_line, load_lines, load,
  is_empty, find_text, split_lines, split_entry, is_valid_string, dump, starts_with, load_entry,
  entry_lines,
}
use raft_storage.SkipList.{KeyOrder, SkipList}
use raft_storage.SkipList.Assoc.{IsTotal}
use raft_storage.SkipList.Reload.{put_all, put_all_lem}
use raft_storage.SkipList.Insertion.{insert_lem}
use raft_storage.SkipList.Walks.{collect_bottom}

find_character :
    (c : ℕ) (xs ys : Text)
    → contains xs c ≡ false
    → find_text (c ∷ []) (xs ++ c ∷ ys) ≡ some (length xs)
unfolding find_text starts_with
find_character c [] ys h = let e : (c == c) ≡ true = ground arith in rw e refl
find_character c (x ∷ xs) ys h =
    let e : (c == x) ≡ false = ground arith in rw (e, find_character c xs ys (ground arith)) refl

split_line :
    (line rest : Text)
    → contains line newline ≡ false
    → split_lines (line ++ newline ∷ rest) ≡ line ∷ split_lines rest
unfolding split_lines
split_line [] rest h = refl
split_line (c ∷ line) rest h =
    let e : (c == newline) ≡ false = ground arith in
    rw (split_line line rest (ground arith), e) refl

not_empty : (a b : Text) → is_empty a ≡ false → is_empty (a ++ b) ≡ false
not_empty [] b h = cc h
not_empty (x ∷ a) b h = refl

drop_entry : (xs : Text) (c : ℕ) (ys : Text) → drop (length xs + 1) (xs ++ c ∷ ys) ≡ ys
drop_entry xs c ys = rw (one (length xs)) (go xs)
  where
    one : (n : ℕ) → n + 1 ≡ suc n
    one n = omega arith

    go : (zs : Text) → drop (suc (length zs)) (zs ++ c ∷ ys) ≡ ys
    go [] = refl
    go (z ∷ zs) = go zs

module _ {ℓ κ} {K : Type ℓ} {V : Type κ} (keys : Streamed K) (values : Streamed V) (c : ℕ) where
  -- An entry that stands on one line, is not empty on either side of the delimiter, and is read as it
  -- was printed.
  pub record IsPlain (e : K × V) : Type (ℓ ⊔ κ) where
    pub no_delimiter : contains (keys.print e.0) c ≡ false
    pub one_line : contains (entry_line keys values (c ∷ []) e) newline ≡ false
    pub some_key : is_empty (keys.print e.0) ≡ false
    pub some_value : is_empty (values.print e.1) ≡ false
    pub key_back : keys.scan (keys.print e.0) ≡ some e.0
    pub value_back : values.scan (values.print e.1) ≡ some e.1

  read_line_lem :
      (e : K × V)
      → IsPlain e
      → read_line keys values (c ∷ []) (entry_line keys values (c ∷ []) e) ≡ load_entry e.0 e.1
  unfolding read_line split_entry is_valid_string
  read_line_lem e p =
      let key = keys.print e.0 in
      let value = values.print e.1 in
      let found = find_character c key value p.no_delimiter in
      let there = not_empty key (c ∷ value) p.some_key in
      let before = take-append key (c ∷ value) in
      let after = drop_entry key c value in
      rw (there, found, before, after, p.some_key, p.some_value, p.key_back, p.value_back) refl

  entry_case :
      {A : Type (ℓ ⊔ κ)} (q : LineRead K V) (k : K) (v : V) (a b : A) (f : K → V → A)
      → q ≡ load_entry k v
      → elim q [ skip_line ↦ a | end_load ↦ b | load_entry j w ↦ f j w ] ≡ f k v
  entry_case q k v a b f h = rw h refl

  module _ (o : KeyOrder K) (total : IsTotal o) (rolls : ℕ → List ℕ) where
    load_entries :
        (i : ℕ) (es : List (K × V)) (s : SkipList K V) (m : List (K × V))
        → All IsPlain es
        → Represents o s m
        → (t : SkipList K V) × (load_lines keys values o rolls
              (c ∷ [])
              i
              (split_lines (entry_lines keys values (c ∷ []) es))
              s
            ≡ some t)
          × Represents o t (put_all o es m)
    unfolding load_lines put_all entry_lines split_lines
    load_entries i [] s m p r = (s, refl, r)
    load_entries i (e ∷ es) s m p r =
        let (t, run, r') = insert_lem o total s m (rolls i) e.0 e.1 r in
        let (u, run', r'') = load_entries (i + 1) es t _ p.1 r' in
        let line =
          split_line (entry_line keys values (c ∷ []) e) (entry_lines keys values (c ∷ []) es)
            p.0.one_line in
        (u, rw line (entry_case _ e.0 e.1 _ _ _ (read_line_lem e p.0) ∙ rw run run'), r'')

    -- What `dump` writes of a list, `load` reads into an empty list as the same keys and values, if
    -- the delimiter is one character and every entry is plain.
    pub load-dump :
        (s r : SkipList K V) (m : List (K × V))
        → Represents o s m
        → Represents o r []
        → All IsPlain m
        → (file : Text) × (dump keys values (c ∷ []) s ≡ some file)
          × (t : SkipList K V) × (load keys values o rolls (c ∷ []) (some file) r ≡ some t)
          × Represents o t m
    unfolding dump load
    load-dump s r m repr empty p =
        let (t, run, r') = load_entries 0 m r [] p empty in
        let (q, read, walked) = collect_bottom o s m repr in
        (
          entry_lines keys values (c ∷ []) m,
          rw (read, walked) refl,
          t,
          run,
          subst (Represents o t) (put_all_lem o total m repr.sorted) r',
        )
