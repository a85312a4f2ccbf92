-- ===== src/SkipList/Words.antt =====
-- `std::string` as the key and the value of the list, as `KVStateMachine` has it: its `<` and `==`, and
-- its `>>`, which reads one word.
use mathlib.Core.Bool.{false≢true}
use raft_storage.Common.{
  ℕ, ◌≡◌, refl, ap, subst, ◌↔◌, Bool, true, false, ◌&&◌, ◌||◌, Option, none, some, [], ◌∷◌, ◌++◌,
  arith, ltb, leb, ◌==◌, if◌then◌else◌, All,
}
use raft_storage.SkipList.{KeyOrder}
use raft_storage.SkipList.Streams.{Text, Streamed, is_empty}
use raft_storage.SkipList.Assoc.{IsTotal}

-- The order of the character codes, taken as unsigned.
abbrev pub less_text : Text → Text → Bool
less_text [] [] = false
less_text [] (d ∷ ds) = true
less_text (c ∷ cs) [] = false
less_text (c ∷ cs) (d ∷ ds) = ltb c d || ((c == d) && less_text cs ds)

abbrev pub same_codes : Text → Text → Bool
same_codes [] [] = true
same_codes [] (d ∷ ds) = false
same_codes (c ∷ cs) [] = false
same_codes (c ∷ cs) (d ∷ ds) = (c == d) && same_codes cs ds

abbrev pub text_order : KeyOrder Text
text_order = record { less = less_text; same = same_codes }

less_irreflexive : (a : Text) → less_text a a ≡ false
less_irreflexive [] = refl
less_irreflexive (c ∷ cs) = let r = less_irreflexive cs in ground arith

less_transitive :
    (a b c : Text) → less_text a b ≡ true → less_text b c ≡ true → less_text a c ≡ true
less_transitive [] [] c h k = absurd (false≢true h)
less_transitive [] (y ∷ b) [] h k = cc k
less_transitive [] (y ∷ b) (z ∷ c) h k = refl
less_transitive (x ∷ a) [] c h k = cc h
less_transitive (x ∷ a) (y ∷ b) [] h k = cc k
less_transitive (x ∷ a) (y ∷ b) (z ∷ c) h k = let r = less_transitive a b c in ground arith

less_total : (a b : Text) → less_text a b ≡ false → same_codes a b ≡ false → less_text b a ≡ true
less_total [] [] h k = cc k
less_total [] (y ∷ b) h k = cc h
less_total (x ∷ a) [] h k = refl
less_total (x ∷ a) (y ∷ b) h k = let r = less_total a b in ground arith

pub same_codes_iff : (a b : Text) → (same_codes a b ≡ true) ↔ (a ≡ b)
same_codes_iff a b = (go a b, λ e. subst (λ z. same_codes a z ≡ true) e (same_refl a))
  where
    go : (a b : Text) → same_codes a b ≡ true → a ≡ b
    go [] [] h = refl
    go [] (y ∷ b) h = cc h
    go (x ∷ a) [] h = cc h
    go (x ∷ a) (y ∷ b) h =
        let e : x ≡ y = ground arith in let r : a ≡ b = go a b (ground arith) in cc

    same_refl : (a : Text) → same_codes a a ≡ true
    same_refl [] = refl
    same_refl (x ∷ a) = let r = same_refl a in ground arith

pub text_order-IsTotal : IsTotal text_order
text_order-IsTotal = record {
  irreflexive = less_irreflexive;
  transitive = less_transitive;
  total = less_total;
  same_iff = same_codes_iff;
}

-- `std::isspace`
abbrev pub is_space : ℕ → Bool
is_space c = (c == 32) || (leb 9 c && leb c 13)

unfoldable pub skip_spaces : Text → Text
skip_spaces [] = []
skip_spaces (c ∷ cs) = let rest = skip_spaces cs in if is_space c then rest else c ∷ cs

unfoldable pub word : Text → Text
word [] = []
word (c ∷ cs) = let rest = word cs in if is_space c then [] else c ∷ rest

abbrev non_empty : Text → Option Text
non_empty [] = none
non_empty (c ∷ cs) = some (c ∷ cs)

unfoldable pub scan_word : Text → Option Text
scan_word text = non_empty (word (skip_spaces text))

abbrev pub text_stream : Streamed Text
text_stream = record { print = λ t. t; scan = scan_word; failed = [] }

-- A text without a space, and not empty.
abbrev pub IsWord : Text → Type 0
IsWord text = (is_empty text ≡ false) × All (λ c. is_space c ≡ false) text

word-append :
    (w : Text) (sp : ℕ) (rest : Text)
    → All (λ c. is_space c ≡ false) w
    → is_space sp ≡ true
    → word (w ++ sp ∷ rest) ≡ w
unfolding word
word-append [] sp rest h k = rw k refl
word-append (c ∷ w) sp rest h k = rw h.0 (ap (◌∷◌ c) (word-append w sp rest h.1 k))

word_whole : (w : Text) → All (λ c. is_space c ≡ false) w → word w ≡ w
unfolding word
word_whole [] h = refl
word_whole (c ∷ w) h = rw h.0 (ap (◌∷◌ c) (word_whole w h.1))

pub scan_word_lem : (w : Text) → IsWord w → scan_word w ≡ some w
unfolding scan_word skip_spaces
scan_word_lem [] h = cc (h.0)
scan_word_lem (c ∷ w) h = rw h.1.0 (ap non_empty (word_whole (c ∷ w) h.1))

pub scan_word_cut :
    (w : Text) (sp : ℕ) (rest : Text)
    → IsWord w
    → is_space sp ≡ true
    → scan_word (w ++ sp ∷ rest) ≡ some w
unfolding scan_word skip_spaces
scan_word_cut [] sp rest h k = cc (h.0)
scan_word_cut (c ∷ w) sp rest h k = rw h.1.0 (ap non_empty (word-append (c ∷ w) sp rest h.1 k))
