-- ===== src/Kv/Answers.antt =====
-- What the worker makes of a command that a request waits for.
use raft_storage.Common.{ℕ, true, false, some, update}
use raft_storage.Kv.Pending.{
  Pending, set_pending, RequestKey, register_pending, open_completion, RpcCompletion,
}
use raft_storage.Kv.Machine.{Op, ApplyResult}

-- The key of a command's request.
abbrev pub request_key : Op → RequestKey
request_key op = record { client_id = op.client_id; request_id = op.request_id }

-- A reactor with a new completion, whose request is registered for the entry of its command.
abbrev pub registered : ℕ → ℕ → Op → ℕ → Pending → Pending
registered index term op cid s =
    register_pending index term (request_key op) cid (open_completion cid s)

abbrev opened : RpcCompletion
opened = record { done = false; cancelled = false; attached = true }

-- What registering leaves under a free key.
abbrev waits : ℕ → ℕ → Op → ℕ → Pending → Pending
waits index term op cid s = record s {
  completions = update s.completions cid opened;
  pending_requests =
      set_pending s.pending_requests (request_key op)
        (some (record { log_index = index; log_term = term; completion = cid }));
}

-- The reply to a command, with any message.
abbrev reply_to : Op → ApplyResult → ApplyResult
reply_to op x = record x { client_id = op.client_id; request_id = op.request_id }
