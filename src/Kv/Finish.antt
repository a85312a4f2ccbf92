-- ===== src/Kv/Finish.antt =====
-- A request is answered at most once, and no answer is begun after it was cancelled, in whatever
-- order the threads take their steps.
use raft_storage.Common.{
  same_text, ℕ, suc, ◌≤◌, String, ◌≡◌, refl, ◌∙◌, true, ◌&&◌, ◌||◌, none, List, [], ◌∷◌, arith,
  ◌==◌, if◌then◌else◌, ◌+◌, ap,
}
use raft_storage.Kv.Pending.{
  register_move, take_move, finish_move, forget_move, cancel_move, register_pending, take_pending,
  finish, Move, forget_pending, finish_in_hand, move, Pending, move_all, cancel, RequestKey,
  pending_at, call_move, call_finish,
}
use raft_storage.Raft.Frame.{option_both, if_both}
use raft_storage.Kv.Machine.{ApplyResult}

-- How often the server has finished a completion.
abbrev pub count_finished : ℕ → List (ℕ × String) → ℕ
count_finished cid [] = 0
count_finished cid (x ∷ xs) =
    let others = count_finished cid xs in if x.0 == cid then suc others else others

-- How often the server has finished a completion, or is about to.
abbrev pub count_answers : ℕ → Pending → ℕ
count_answers cid s = count_finished cid s.sending + count_finished cid s.finished

-- A completion that is not done was not finished, and none was finished twice.
abbrev pub IsSingle : Pending → Type 0
IsSingle s = (cid : ℕ) → count_answers cid s ≤ (if (s.completions cid).done then 1 else 0)

-- A completion that is closed stays so, and gets no further answer.
abbrev IsClosed : ℕ → Pending → Type 0
IsClosed cid s = ((s.completions cid).done || (s.completions cid).cancelled) ≡ true

-- How a move may change the completions and the answers.
record Advances (s s' : Pending) : Type 0 where
  single : IsSingle s → IsSingle s'
  closed : (cid : ℕ) → IsClosed cid s → IsClosed cid s'
  silent : (cid : ℕ) → IsClosed cid s → count_answers cid s' ≡ count_answers cid s
  grows : (cid : ℕ) → count_finished cid s.finished ≤ count_finished cid s'.finished

Advances-of_eq :
    (s s' : Pending)
    → s'.completions ≡ s.completions
    → s'.sending ≡ s.sending
    → s'.finished ≡ s.finished
    → Advances s s'
Advances-of_eq s s' e g f = record {
  single = λ h cid. rw (e, g, f) (h cid);
  closed = λ cid h. rw e h;
  silent = λ cid h. rw (g, f) refl;
  grows = λ cid. rw f (omega arith);
}

Advances-trans : {s t u : Pending} → Advances s t → Advances t u → Advances s u
Advances-trans h k = record {
  single = λ x. k.single (h.single x);
  closed = λ cid x. k.closed cid (h.closed cid x);
  silent = λ cid x. k.silent cid (h.closed cid x) ∙ h.silent cid x;
  grows = λ cid. omega (arith, h.grows cid, k.grows cid);
}

finish-Advances : (cid : ℕ) (err : String) (s : Pending) → Advances s (finish cid err s)
unfolding finish
finish-Advances cid err s = record {
  single = λ h j. let b = h j in ground arith;
  closed = λ j h. ground arith;
  silent = λ j h. ground arith;
  grows = λ j. ground arith;
}

-- The call moves an answer from those under way to those given.
call_finish-Advances : (s : Pending) → Advances s (call_finish s)
unfolding call_finish
call_finish-Advances s = go s.sending refl
  where
    go :
        (q : List (ℕ × String))
        → s.sending ≡ q
        → Advances s
            (elim q [ [] ↦ s | x ∷ xs ↦ record s { sending = xs; finished = x ∷ s.finished } ])
    go [] e = Advances-of_eq s s refl refl refl
    go (x ∷ xs) e = record {
      single = λ h j.
          let same = ap (count_finished j) e in
          let b = h j in
          let moved : count_finished j xs + count_finished j (x ∷ s.finished) ≡ count_answers j s =
            rw same (ground arith) in
          rw moved b;
      closed = λ j h. h;
      silent = λ j h. rw e (ground arith);
      grows = λ j. ground arith;
    }

cancel-Advances : (cid : ℕ) (s : Pending) → Advances s (cancel cid s)
unfolding cancel
cancel-Advances cid s = record {
  single = λ h j. let b = h j in ground arith;
  closed = λ j h. ground arith;
  silent = λ j h. refl;
  grows = λ j. omega arith;
}

register-Advances :
    (index term : ℕ) (key : RequestKey) (cid : ℕ) (s : Pending)
    → Advances s (register_pending index term key cid s)
unfolding register_pending
register-Advances index term key cid s =
    option_both (Advances s) (pending_at s key) _ _ (Advances-of_eq s _ refl refl refl)
      (λ w. Advances-of_eq s s refl refl refl)

forget-Advances : (key : RequestKey) (cid : ℕ) (s : Pending) → Advances s (forget_pending key cid s)
unfolding forget_pending
forget-Advances key cid s =
    option_both (Advances s) (pending_at s key) _ _ (Advances-of_eq s s refl refl refl) (λ w.
      if_both (Advances s) (w.completion == cid) _ _ (Advances-of_eq s _ refl refl refl)
        (Advances-of_eq s s refl refl refl))

take-Advances :
    (index term : ℕ) (result : ApplyResult) (s : Pending)
    → Advances s (take_pending index term result s)
unfolding take_pending
take-Advances index term result s =
    let key : RequestKey = record {
      client_id = result.client_id;
      request_id = result.request_id;
    } in
    if_both (Advances s) (same_text result.client_id "" || (result.request_id == 0)) _ _
      (Advances-of_eq s s refl refl refl)
      (option_both (Advances s) (pending_at s key) _ _ (Advances-of_eq s s refl refl refl) (λ w.
        if_both (Advances s) ((index == w.log_index) && (term == w.log_term)) _ _
          (Advances-of_eq s _ refl refl refl) (Advances-of_eq s _ refl refl refl)))

finish_in_hand-Advances : (s : Pending) → Advances s (finish_in_hand s)
unfolding finish_in_hand
finish_in_hand-Advances s =
    option_both (Advances s) s.in_hand _ _ (Advances-of_eq s s refl refl refl) (λ r.
      Advances-trans (Advances-of_eq s (record s { in_hand = none }) refl refl refl)
        (finish-Advances r.0 r.1 (record s { in_hand = none })))

move-Advances : (m : Move) (s : Pending) → Advances s (move m s)
unfolding move
move-Advances (register_move index term key cid) s = register-Advances index term key cid s
move-Advances (take_move index term result) s = take-Advances index term result s
move-Advances finish_move s = finish_in_hand-Advances s
move-Advances call_move s = call_finish-Advances s
move-Advances (forget_move key cid) s = forget-Advances key cid s
move-Advances (cancel_move cid) s = cancel-Advances cid s

move_all-Advances : (ms : List Move) (s : Pending) → Advances s (move_all ms s)
unfolding move_all
move_all-Advances [] s = Advances-of_eq s s refl refl refl
move_all-Advances (m ∷ ms) s = Advances-trans (move-Advances m s) (move_all-Advances ms (move m s))

-- If no answer was given or under way before, then in every order of the threads' steps each
-- completion is answered at most once.
pub finished_once :
    (ms : List Move) (s : Pending)
    → s.sending ≡ []
    → s.finished ≡ []
    → (cid : ℕ) → count_finished cid (move_all ms s).finished ≤ 1
finished_once ms s g h cid =
    let single = (move_all-Advances ms s).single (λ j. rw (g, h) (omega arith)) in
    let bound = single cid in ground arith

-- After a completion is cancelled no answer to it is begun, whatever the threads do: the answers
-- given and under way stay as many as they were. If none was under way at the cancel, none is given
-- after it.
pub cancel-silent :
    (ms : List Move) (cid : ℕ) (s : Pending)
    → let t = move_all ms (cancel cid s) in
      (count_answers cid t ≡ count_answers cid s)
      × (count_finished cid s.sending ≡ 0
          → count_finished cid t.finished ≡ count_finished cid s.finished)
unfolding cancel
cancel-silent ms cid s =
    let moved = move_all-Advances ms (cancel cid s) in
    let total = moved.silent cid (ground arith) in
    let more = moved.grows cid in (total, λ h. omega (arith, total, more, h))
