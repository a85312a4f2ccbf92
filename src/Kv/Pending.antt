-- ===== src/Kv/Pending.antt =====
-- Server/KVServer.cc and include/KVServer.h: the requests that wait for their command to be
-- applied, and the completion that a reactor shares with the server. Each function is what one
-- thread does under one lock, or a call that it makes under none; the threads' order is the order
-- of these steps.
use raft_storage.Common.{
  same_text, ℕ, String, Bool, true, false, not, ◌&&◌, ◌||◌, Option, none, some, List, [], ◌∷◌, ◌==◌,
  if◌then◌else◌, update,
}
use raft_storage.Kv.Machine.{ApplyResult}

-- `RpcCompletion`; `attached` says that `reply` and `reactor` are not null.
pub record RpcCompletion : Type 0 where
  pub done : Bool
  pub cancelled : Bool
  pub attached : Bool

-- A completion is shared, so it is named by its place in the store.
pub record PendingRequest : Type 0 where
  pub log_index : ℕ
  pub log_term : ℕ
  pub completion : ℕ

pub record RequestKey : Type 0 where
  pub client_id : String
  pub request_id : ℕ

-- `in_hand` is what `completePending` holds between its lock and its call of `finish`; `sending` are
-- the completions between the lock of `RpcCompletion::finish` and its call of `Finish`; `finished`
-- are the calls of `Finish` by the server, with their messages, the newest first.
pub record Pending : Type 0 where
  pub pending_requests : String → ℕ → Option PendingRequest
  pub completions : ℕ → RpcCompletion
  pub in_hand : Option (ℕ × String)
  pub sending : List (ℕ × String)
  pub finished : List (ℕ × String)

abbrev pub set_pending :
    (String → ℕ → Option PendingRequest)
    → RequestKey
    → Option PendingRequest
    → String
    → ℕ
    → Option PendingRequest
set_pending f key v c r = if same_text key.client_id c && (key.request_id == r) then v else f c r

abbrev pub pending_at : Pending → RequestKey → Option PendingRequest
pending_at s key = s.pending_requests key.client_id key.request_id

-- The reactor's constructor: a new completion with its reply and its reactor.
unfoldable pub open_completion : ℕ → Pending → Pending
open_completion cid s = record s {
  completions =
      update s.completions cid (record { done = false; cancelled = false; attached = true });
}

-- A key that waits already keeps its first request.
unfoldable pub register_pending : ℕ → ℕ → RequestKey → ℕ → Pending → Pending
register_pending index term key cid s =
    let request : PendingRequest = record {
      log_index = index;
      log_term = term;
      completion = cid;
    } in
    elim (pending_at s key) [
      | none ↦ record s { pending_requests = set_pending s.pending_requests key (some request) }
      | some waiting ↦ s
    ]

-- The locked part of `RpcCompletion::finish`.
unfoldable pub finish : ℕ → String → Pending → Pending
finish cid err s =
    let x = s.completions cid in
    if x.done || x.cancelled || not x.attached then s else record s {
      completions = update s.completions cid (record x { done = true });
      sending = (cid, err) ∷ s.sending;
    }

-- `r->Finish(grpc::Status::OK)`, after the lock.
unfoldable pub call_finish : Pending → Pending
call_finish s = elim s.sending [
  | [] ↦ s
  | x ∷ xs ↦ record s { sending = xs; finished = x ∷ s.finished }
]

-- `RpcCompletion::cancel`
unfoldable pub cancel : ℕ → Pending → Pending
cancel cid s = record s {
  completions =
      update s.completions cid (record (s.completions cid) { cancelled = true; attached = false });
}

-- The locked part of `cancelPending`.
unfoldable pub forget_pending : RequestKey → ℕ → Pending → Pending
forget_pending key cid s = elim (pending_at s key) [
  | none ↦ s
  | some waiting ↦
      if waiting.completion == cid
      then record s { pending_requests = set_pending s.pending_requests key none }
      else s
]

unfoldable pub cancel_pending : RequestKey → ℕ → Pending → Pending
cancel_pending key cid s = cancel cid (forget_pending key cid s)

-- The locked part of `completePending`: the request leaves, and is taken in hand if the applied
-- command is the one it waits for.
unfoldable pub take_pending : ℕ → ℕ → ApplyResult → Pending → Pending
take_pending index term result s =
    let key : RequestKey = record {
      client_id = result.client_id;
      request_id = result.request_id;
    } in
    let s' = record s { pending_requests = set_pending s.pending_requests key none } in
    if same_text result.client_id "" || (result.request_id == 0)
    then s
    else elim (pending_at s key) [
      | none ↦ s
      | some waiting ↦
          if (index == waiting.log_index) && (term == waiting.log_term)
          then record s' { in_hand = some (waiting.completion, result.reply_msg) }
          else s'
    ]

-- The rest of `completePending`, up to the call of `Finish`.
unfoldable pub finish_in_hand : Pending → Pending
finish_in_hand s = elim s.in_hand [
  | none ↦ s
  | some r ↦ finish r.0 r.1 (record s { in_hand = none })
]

unfoldable pub complete_pending : ℕ → ℕ → ApplyResult → Pending → Pending
complete_pending index term result s =
    call_finish (finish_in_hand (take_pending index term result s))

-- What the threads do, each step under one lock, or the call of `Finish` under none.
pub data Move : Type 0 where
  register_move : ℕ → ℕ → RequestKey → ℕ → Move
  take_move : ℕ → ℕ → ApplyResult → Move
  finish_move : Move
  call_move : Move
  forget_move : RequestKey → ℕ → Move
  cancel_move : ℕ → Move

unfoldable pub move : Move → Pending → Pending
move (register_move index term key cid) s = register_pending index term key cid s
move (take_move index term result) s = take_pending index term result s
move finish_move s = finish_in_hand s
move call_move s = call_finish s
move (forget_move key cid) s = forget_pending key cid s
move (cancel_move cid) s = cancel cid s

unfoldable pub move_all : List Move → Pending → Pending
move_all [] s = s
move_all (m ∷ ms) s = move_all ms (move m s)
