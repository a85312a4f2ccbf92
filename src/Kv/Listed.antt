-- ===== src/Kv/Listed.antt =====
-- include/KVServer.h: `kv_` of `KVStateMachine` is a `SkipList<std::string, std::string>`.
use raft_storage.Common.{
  codes, codes_injective, ℕ, ◌+◌, String, ap, Bool, false, Option, none, some, List, length,
}
use raft_storage.SkipList.{KeyOrder, SkipList}
use raft_storage.SkipList.Edit.{insert, erase}
use raft_storage.SkipList.Assoc.{IsTotal}
use raft_storage.SkipList.Streams.{Streamed, Text, load_from_json}
use raft_storage.SkipList.Words.{text_order, text_order-IsTotal}
use raft_storage.Kv.Machine.{SkipListOps}

-- The order of the texts is that of their codes.
abbrev pub string_order : KeyOrder String
string_order = record {
  less = λ s t. text_order.less (codes s) (codes t);
  same = λ s t. text_order.same (codes s) (codes t);
}

pub string_order-IsTotal : IsTotal string_order
string_order-IsTotal =
    let t = text_order-IsTotal in
    record {
      irreflexive = λ a. t.irreflexive (codes a);
      transitive = λ a b c. t.transitive (codes a) (codes b) (codes c);
      total = λ a b. t.total (codes a) (codes b);
      same_iff = λ a b. (
        λ h. codes_injective a b ((t.same_iff (codes a) (codes b)).0 h),
        λ h. (t.same_iff (codes a) (codes b)).1 (ap codes h),
      );
    }

-- The list of the state machine with the random numbers that its insertions draw; `none` is a list that
-- the program has left undefined.
abbrev pub Kept : Type 0
Kept = Option ((ℕ → List ℕ) × SkipList String String)

abbrev pub advance_draws : (ℕ → List ℕ) → ℕ → ℕ → List ℕ
advance_draws draws n i = draws (i + n)

abbrev pub inserted : (ℕ → List ℕ) → Option (SkipList String String × Bool) → Bool × Kept
inserted draws none = (false, none)
inserted draws (some (t, ok)) = (ok, some (advance_draws draws 1, t))

abbrev pub erased : (ℕ → List ℕ) → Option (SkipList String String × Bool) → Bool × Kept
erased draws none = (false, none)
erased draws (some (t, ok)) = (ok, some (draws, t))

abbrev pub loaded : (ℕ → List ℕ) → ℕ → Option (SkipList String String) → Kept
loaded draws n none = none
loaded draws n (some t) = some (advance_draws draws n, t)

module _ (texts : Streamed String) where
  unfoldable pub insert_kept : String → String → Kept → Bool × Kept
  insert_kept k v none = (false, none)
  insert_kept k v (some (draws, s)) = inserted draws (insert string_order (draws 0) k v s)

  unfoldable pub erase_kept : String → Kept → Bool × Kept
  erase_kept k none = (false, none)
  erase_kept k (some (draws, s)) = erased draws (erase string_order k s)

  unfoldable pub load_kept : List (Text × Text) → Kept → Kept
  load_kept members none = none
  load_kept members (some (draws, s)) =
      loaded draws (length members) (load_from_json texts texts string_order draws members s)

  -- The skip list as the state machine uses it.
  abbrev pub kept_list : SkipListOps Kept (List (Text × Text))
  kept_list = record {
    insert = insert_kept;
    erase = erase_kept;
    load_from_json = λ members kv. some (load_kept members kv);
  }
