-- ===== src/SkipList/Streams.antt =====
-- include/SkipLists.h: the list as the text of a file, one line for each node, and the two ways to read
-- a list back. A text is a list of character codes.
use raft_storage.Common.{
  ℕ, suc, ◌+◌, Bool, true, false, not, ◌&&◌, ◌||◌, Option, none, some, List, [], ◌∷◌, ◌++◌, ltb,
  ◌==◌, if◌then◌else◌, is_some, ◌>>=◌, take, drop,
}
use raft_storage.SkipList.{KeyOrder, SkipList, header, clear, read_forward}
use raft_storage.SkipList.Dump.{collect}
use raft_storage.SkipList.Edit.{insert}

abbrev pub Text : Type 0
Text = List ℕ

abbrev pub newline : ℕ
newline = 10

-- `<<` and `>>` of a type: a failed read is `none`, and leaves the value of `failed`.
pub record Streamed {ℓ} (A : Type ℓ) : Type ℓ where
  pub print : A → Text
  pub scan : Text → Option A
  pub failed : A

abbrev pub is_empty : Text → Bool
is_empty [] = true
is_empty (c ∷ cs) = false

unfoldable pub starts_with : Text → Text → Bool
starts_with [] text = true
starts_with (c ∷ cs) [] = false
starts_with (c ∷ cs) (d ∷ ds) = (c == d) && starts_with cs ds

-- `std::string::find`
unfoldable pub find_text : Text → Text → Option ℕ
find_text pattern [] = if starts_with pattern [] then some 0 else none
find_text pattern (c ∷ cs) =
    let rest = find_text pattern cs in
    if starts_with pattern (c ∷ cs) then some 0 else (do n ← rest; some (suc n))

abbrev pub before_line : ℕ → List Text → List Text
before_line c [] = (c ∷ []) ∷ []
before_line c (line ∷ lines) = (c ∷ line) ∷ lines

-- The lines that `getline` reads.
unfoldable pub split_lines : Text → List Text
split_lines [] = []
split_lines (c ∷ cs) =
    let rest = split_lines cs in if c == newline then [] ∷ rest else before_line c rest

unfoldable pub is_valid_string : Text → Text → Bool
is_valid_string delimiter line = not (is_empty line) && is_some (find_text delimiter line)

-- What `load` does with a line: pass it over, end, or insert an entry.
pub data LineRead {ℓ κ} (K : Type ℓ) (V : Type κ) : Type (ℓ ⊔ κ) where
  skip_line end_load : LineRead K V
  load_entry : K → V → LineRead K V

abbrev pub scanned {ℓ κ} : {K : Type ℓ} {V : Type κ} → Option K → Option V → LineRead K V
scanned none v = end_load
scanned (some k) none = end_load
scanned (some k) (some v) = load_entry k v

abbrev pub or_failed {ℓ} : {A : Type ℓ} → A → Option A → A
or_failed a none = a
or_failed a (some b) = b

module _ {ℓ κ} {K : Type ℓ} {V : Type κ} (keys : Streamed K) (values : Streamed V) where
  module _ (delimiter : Text) where
    abbrev pub entry_line : K × V → Text
    entry_line e = keys.print e.0 ++ (delimiter ++ values.print e.1)

    unfoldable pub entry_lines : List (K × V) → Text
    entry_lines [] = []
    entry_lines (e ∷ m) = entry_line e ++ newline ∷ entry_lines m

    -- The text that `dump` writes.
    unfoldable pub dump : SkipList K V → Option Text
    dump s = do p ← read_forward s header 0; m ← collect s.fresh 0 s p; some (entry_lines m)

    -- The value starts one character after the start of the delimiter.
    unfoldable pub split_entry : Text → ℕ → LineRead K V
    split_entry line at =
        let key_str = take at line in
        let value_str = drop (at + 1) line in
        if is_empty key_str || is_empty value_str
        then skip_line
        else scanned (keys.scan key_str) (values.scan value_str)

    unfoldable pub read_line : Text → LineRead K V
    read_line line =
        if is_valid_string delimiter line
        then elim (find_text delimiter line) [ none ↦ skip_line | some at ↦ split_entry line at ]
        else skip_line

  module _ (o : KeyOrder K) (rolls : ℕ → List ℕ) where
    -- `rolls i` are the random numbers of line `i`, if it is inserted.
    unfoldable pub load_lines : Text → ℕ → List Text → SkipList K V → Option (SkipList K V)
    load_lines delimiter i [] s = some s
    load_lines delimiter i (line ∷ lines) s = elim (read_line delimiter line) [
      | skip_line ↦ load_lines delimiter (i + 1) lines s
      | end_load ↦ some s
      | load_entry k v ↦ (do r ← insert o (rolls i) k v s; load_lines delimiter (i + 1) lines r.0)
    ]

    -- A file that cannot be opened is `none`.
    unfoldable pub load : Text → Option Text → SkipList K V → Option (SkipList K V)
    load delimiter none s = some s
    load delimiter (some file) s = load_lines delimiter 0 (split_lines file) s

    -- The members of a JSON object, with their values as texts.
    unfoldable pub insert_members : ℕ → List (Text × Text) → SkipList K V → Option (SkipList K V)
    insert_members i [] s = some s
    insert_members i ((key, value) ∷ members) s = do
      r ←
          insert o (rolls i) (or_failed keys.failed (keys.scan key))
            (or_failed values.failed (values.scan value)) s
      insert_members (i + 1) members r.0

    -- What was there is deleted; the header's pointers and the count stay.
    unfoldable pub load_from_json : List (Text × Text) → SkipList K V → Option (SkipList K V)
    load_from_json members s = do
      s' ← elim (ltb 0 s.element_count) [
        | true ↦ (do p ← read_forward s header 0; a ← p; clear s.fresh a s)
        | false ↦ some s
      ]
      insert_members 0 members s'
