-- ===== src/SkipList/Tests.antt =====
-- The theorems at small lists: numbers at two levels, and texts.
use raft_storage.Common.{
  ℕ, ◌≡◌, refl, sym, ap, subst, ◌↔◌, Bool, true, false, Option, none, some, List, [], ◌∷◌, arith,
  ltb, ◌==◌, is_some, All,
}
use raft_storage.SkipList.Find.{Represents, find_lem}
use raft_storage.SkipList.Streams.{Text, load, load_from_json, dump}
use raft_storage.SkipList.Words.{
  text_order, text_stream, scan_word, text_order-IsTotal, skip_spaces, word,
}
use raft_storage.SkipList.{KeyOrder, SkipList, new_list, destroy, read_forward, clear, header}
use raft_storage.SkipList.Edit.{find, erase, insert, get}
use raft_storage.SkipList.Dump.{dump_to_json, equal}
use raft_storage.SkipList.Assoc.{IsTotal, put, look, del}
use raft_storage.SkipList.Reload.{new_list-Represents}
use raft_storage.SkipList.Dangling.{load_from_json_dangling, ReadsDeleted}
use raft_storage.SkipList.Restored.{restore_cut, restore-dump}
use raft_storage.SkipList.Release.{destroy_lem}
use raft_storage.SkipList.Roundtrip.{load-dump, IsPlain}
use raft_storage.SkipList.Equal.{equal_lem}
use raft_storage.SkipList.Insertion.{insert_lem}
use raft_storage.SkipList.Removal.{erase_lem}

abbrev number_order : KeyOrder ℕ
number_order = record { less = ltb; same = ◌==◌ }

number_order-IsTotal : IsTotal number_order
number_order-IsTotal = record {
  irreflexive = λ a. ground arith;
  transitive = λ a b c h k. ground arith;
  total = λ a b h k. ground arith;
  same_iff = same_number;
}
  where
    same_number : (a b : ℕ) → ((a == b) ≡ true) ↔ (a ≡ b)
    same_number a b = (λ h. ground arith, λ h. ground arith)

module _ {K V : Type 0} (o : KeyOrder K) (total : IsTotal o) where
  abbrev inserted_or : SkipList K V → Option (SkipList K V × Bool) → SkipList K V
  inserted_or s none = s
  inserted_or s (some (t, ok)) = t

  -- The list with one more entry.
  abbrev with_entry : List ℕ → K → V → SkipList K V → SkipList K V
  with_entry rolls k v s = inserted_or s (insert o rolls k v s)

  with_entry-Represents :
      (rolls : List ℕ) (k : K) (v : V) (s : SkipList K V) (m : List (K × V))
      → Represents o s m
      → Represents o (with_entry rolls k v s) (put o k v m)
  with_entry-Represents rolls k v s m r =
      let (t, run, r') = insert_lem o total s m rolls k v r in
      subst (λ u. Represents o u (put o k v m)) (sym (ap (inserted_or s) run)) r'

abbrev empty_numbers : SkipList ℕ ℕ
empty_numbers = new_list 0 0 3

abbrev one_number : SkipList ℕ ℕ
one_number = with_entry number_order number_order-IsTotal (4 ∷ []) 7 70 empty_numbers

abbrev numbers : SkipList ℕ ℕ
numbers = with_entry number_order number_order-IsTotal (3 ∷ 1 ∷ 2 ∷ []) 5 50 one_number

abbrev entries : List (ℕ × ℕ)
entries = (5, 50) ∷ (7, 70) ∷ []

empty_numbers-Represents : Represents number_order empty_numbers []
empty_numbers-Represents = new_list-Represents number_order 0 0 3

numbers-Represents : Represents number_order numbers entries
unfolding put
numbers-Represents =
    with_entry-Represents number_order number_order-IsTotal (3 ∷ 1 ∷ 2 ∷ []) 5 50 one_number
      ((7, 70) ∷ [])
      (with_entry-Represents number_order number_order-IsTotal (4 ∷ []) 7 70 empty_numbers []
        empty_numbers-Represents)

find_lem_example :
    (find number_order numbers 7 ≡ some (is_some (look number_order 7 entries)))
    × (get number_order numbers 7 ≡ some (look number_order 7 entries))
find_lem_example = find_lem number_order number_order-IsTotal numbers entries 7 numbers-Represents

insert_lem_example :
    (t : SkipList ℕ ℕ) × (insert number_order (1 ∷ 0 ∷ []) 6 60 numbers ≡ some (t, true))
    × Represents number_order t (put number_order 6 60 entries)
insert_lem_example =
    insert_lem number_order number_order-IsTotal numbers entries (1 ∷ 0 ∷ []) 6 60
      numbers-Represents

erase_lem_example :
    (t : SkipList ℕ ℕ) × (erase number_order 5 numbers
      ≡ some (t, is_some (look number_order 5 entries)))
    × Represents number_order t (del number_order 5 entries)
erase_lem_example = erase_lem number_order number_order-IsTotal numbers entries 5 numbers-Represents

destroy_lem_example : (t : SkipList ℕ ℕ) × (destroy numbers ≡ some t) × ((a : ℕ) → t.live a ≡ false)
destroy_lem_example = destroy_lem number_order numbers entries numbers-Represents

same_number : (a b : ℕ) → ((a == b) ≡ true) ↔ (a ≡ b)
same_number a b = (λ h. ground arith, λ h. ground arith)

equal_lem_example :
    (b : Bool) × (equal ◌==◌ ◌==◌ numbers empty_numbers ≡ some b) × ((b ≡ true) ↔ (entries ≡ []))
equal_lem_example =
    equal_lem ◌==◌ ◌==◌ same_number same_number number_order numbers empty_numbers entries []
      numbers-Represents empty_numbers-Represents

-- "a" and "b", with the values "x" and "y".
abbrev text_entries : List (Text × Text)
text_entries = (97 ∷ [], 120 ∷ []) ∷ (98 ∷ [], 121 ∷ []) ∷ []

abbrev empty_texts : SkipList Text Text
empty_texts = new_list [] [] 4

empty_texts-Represents : Represents text_order empty_texts []
empty_texts-Represents = new_list-Represents text_order [] [] 4

abbrev one_text : SkipList Text Text
one_text = with_entry text_order text_order-IsTotal (1 ∷ 0 ∷ []) (98 ∷ []) (121 ∷ []) empty_texts

abbrev texts : SkipList Text Text
texts = with_entry text_order text_order-IsTotal (0 ∷ []) (97 ∷ []) (120 ∷ []) one_text

texts-Represents : Represents text_order texts text_entries
unfolding put
texts-Represents =
    with_entry-Represents text_order text_order-IsTotal (0 ∷ []) (97 ∷ []) (120 ∷ []) one_text
      ((98 ∷ [], 121 ∷ []) ∷ [])
      (with_entry-Represents text_order text_order-IsTotal (1 ∷ 0 ∷ []) (98 ∷ []) (121 ∷ [])
        empty_texts [] empty_texts-Represents)

abbrev no_rolls : ℕ → List ℕ
no_rolls i = []

IsPlain-entries : All (IsPlain text_stream text_stream 58) text_entries
unfolding scan_word skip_spaces word
IsPlain-entries =
    let one : IsPlain text_stream text_stream 58 (97 ∷ [], 120 ∷ []) = record {
      no_delimiter = refl;
      one_line = refl;
      some_key = refl;
      some_value = refl;
      key_back = refl;
      value_back = refl;
    } in
    let two : IsPlain text_stream text_stream 58 (98 ∷ [], 121 ∷ []) = record {
      no_delimiter = refl;
      one_line = refl;
      some_key = refl;
      some_value = refl;
      key_back = refl;
      value_back = refl;
    } in
    (one, (two, tt))

load-dump_example :
    (file : Text) × (dump text_stream text_stream (58 ∷ []) texts ≡ some file)
    × (t : SkipList Text Text) × (load text_stream text_stream text_order no_rolls
          (58 ∷ [])
          (some file)
          empty_texts
        ≡ some t)
    × Represents text_order t text_entries
load-dump_example =
    load-dump text_stream text_stream 58 text_order text_order-IsTotal no_rolls texts empty_texts
      text_entries texts-Represents empty_texts-Represents IsPlain-entries

restore-dump_example :
    (members : List (Text × Text)) × (dump_to_json texts ≡ some members)
    × (t : SkipList Text Text) × (load_from_json text_stream text_stream text_order no_rolls members
          empty_texts
        ≡ some t)
    × Represents text_order t text_entries
restore-dump_example =
    restore-dump no_rolls texts empty_texts text_entries texts-Represents empty_texts-Represents
      (((refl, (refl, tt)), (refl, (refl, tt))), (((refl, (refl, tt)), (refl, (refl, tt))), tt))

restore_cut_example :
    (t : SkipList Text Text) × (load_from_json text_stream text_stream text_order no_rolls
        ((97 ∷ [], 104 ∷ 105 ∷ 32 ∷ 121 ∷ 111 ∷ []) ∷ [])
        empty_texts
      ≡ some t)
    × Represents text_order t ((97 ∷ [], 104 ∷ 105 ∷ []) ∷ [])
restore_cut_example =
    restore_cut no_rolls empty_texts (97 ∷ []) (104 ∷ 105 ∷ []) (121 ∷ 111 ∷ []) 32
      empty_texts-Represents (refl, (refl, tt)) (refl, (refl, (refl, tt))) refl

load_from_json_dangling_example :
    (a : ℕ) × (t : SkipList Text Text) × (read_forward texts header 0 ≡ some (some a))
    × (clear texts.fresh a texts ≡ some t)
    × (t.live a ≡ false)
    × ReadsDeleted text_order t
    × (load_from_json text_stream text_stream text_order no_rolls ((99 ∷ [], 122 ∷ []) ∷ []) texts
        ≡ none)
load_from_json_dangling_example =
    load_from_json_dangling text_order text_stream text_stream no_rolls texts (97 ∷ [], 120 ∷ [])
      ((98 ∷ [], 121 ∷ []) ∷ []) (99 ∷ [], 122 ∷ []) [] texts-Represents
