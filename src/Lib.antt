-- ===== src/Lib.antt =====
-- RaftStorage: a key-value server replicated by the Raft protocol. These files model one node of
-- the cluster, with its log and its files, the state machine with its skip list and the waiting
-- requests above it, the pool of threads, and what the votes of several nodes come to.
--
-- The program's parts. KVServer (Server/KVServer.cc) hands each command to its Raft node
-- (Raft/Raft.cc), which appends it to the log, sends it to the peers, and puts it on the apply
-- queue when a quorum holds it. The server's worker takes it from there, applies it to the state
-- machine, and answers the request that waits for it. The node keeps its term, vote and log in the
-- files of its Persister (Raft/Persister.cc). All of the node's state is changed by one event loop;
-- the other threads post events to it. The state machine keeps its entries in a skip list
-- (include/SkipLists.h), and what the node hands on runs in a pool of threads (Common/ThreadPool.cc).
--
-- The files.
--   Common: the names that the other files share; tests on numbers and texts, lists, maps.
--   Log: the vector of entries behind the snapshot, with the accessors of Raft/Raft.cc (getLastLogIndex,
--     getSlicesIndexFromLogIndex, getLogTermFromIndex, matchLog, whetherVoteFor) and the loops of
--     handleAppendEntries. Log/Shape has the shape of a log and the ranges of the accessors,
--     Log/Merge and Log/Agree the loop against a merge, Log/Conflict the index of a refusal.
--   Persister: the state file and the snapshot file.
--   Raft: the node. Raft/State has the members of the class (include/Raft.h), the messages of
--     Proto/RaftRpc.proto and the effects; Raft/Role the deadlines, pending reads and the way back
--     to follower; Raft/Commit updateCommitIndex and applyCommitted; Raft/Replication what a leader
--     sends; Raft/Election votes and pre-votes; Raft/Append a follower's side of AppendEntries;
--     Raft/Reply a leader's side of the replies; Raft/Snapshot doSnapshot and
--     handleInstallSnapshot; Raft/Loop the events, start, readIndex and the deadlines; Raft/Start
--     the constructor and the batch of the event queues.
--     Raft/Frame says which fields a function leaves alone, Raft/Durable is about terms, votes and the
--     state file, Raft/Votes about the votes of a node, Raft/Quorums about those of a
--     cluster, Raft/Queues about the order of events, Raft/Reads about reads, Raft/Valid
--     about the invariant of a node; below it, Raft/Valid/Holding counts the peers that hold an index,
--     and Raft/Valid/Behind has a peer that a snapshot has left behind.
--   Kv: Kv/Machine is KVStateMachine with its deduplication, Kv/Once what that gives;
--     Kv/Listed puts the skip list under the machine, and Kv/Refined compares it there with a sorted
--     list; Kv/Snapshots has snapshot, and what restore makes of it;
--     Kv/Pending has the waiting requests and RpcCompletion, Kv/Finish their answers; Kv/Worker is
--     applyWorkerLoop, Kv/Answers what it answers.
--   SkipList: include/SkipLists.h, as nodes at addresses. SkipList has the nodes, what reads and writes
--     them, and their deletion; SkipList/Edit the search with insert, erase, find and get; SkipList/Dump
--     display, dumpToJson and operator==; SkipList/Streams dump, load and loadFromJson;
--     SkipList/Words std::string as key and value. SkipList/Assoc is the abstract view, a sorted list of
--     entries. SkipList/Shape says how the pointers lie over the nodes, by the lists of addresses of
--     SkipList/Chains and SkipList/Levels. SkipList/Search, Find, Writes, Grow, Insert, Insertion,
--     Unlink, Shrink, Remove and Removal are about the search and the two edits; Walks, Equal and
--     Release about the walks along a level and the deletions; Reload, Roundtrip, Restored and
--     Dangling about what is read back.
--   Threads: Common/ThreadPool.cc, the moves of the threads; Threads/Counts counts tasks, Threads/Kept has
--     what every move keeps, Threads/Done what follows for a pool that is stopped.
--   The modules called Tests, and those below them, hold runs and the theorems at concrete inputs.
--
-- How the code is read.
--   A handler is a function from the node's state to an Option: `none` is the end of the process, by a
--   failed myAssert, an index out of range, or an exception that nothing catches. A call that a
--   handler hands to the thread pool, to a stream or to a callback is an effect, and effects are kept
--   newest first; the reply to a call comes back as an event. A handler reads the clock once, from
--   its environment (Env), which also has the random election timeout and what the JSON library says of
--   a text. Times are milliseconds. A command or a snapshot is a String, which is text, so that the
--   dump of the state file goes through; where a client's command is printed for the log, bytes that
--   are not UTF-8 throw, and start is given `none`. peers_.at throws for a server that is no peer.
--   Ids, terms, indices and rounds are natural numbers. The source's int is taken not to overflow;
--   the round of a read wraps at 2^64, and the round of a reply is negative from 2^63 on; the counter
--   of rounds, which is static in the source, is the node's, since a process runs one node. votedFor_ -1 is `none`, and so is updatenextindex -100.
--   A map is a function with the default that operator[] gives. getPrevLogInfo of a next index 0,
--   which would be -1 in the source, is `none`.
--   The loops recurse on their index or their list. applyCommitted runs commitIndex_ minus
--   lastApplied_ rounds, which is how often its test holds since each round adds one; the searches
--   of updateCommitIndex and of a refusal go down from their index to 0 at most.
--   A batch of the event queues is given the control events that are posted between its commands;
--   an event that is posted earlier in it is as one that was there before.
--   The skip list is an interface of Kv/Machine (SkipListOps), which Kv/Listed fills. In SkipList
--   `none` is what C++ leaves undefined: a pointer that is null or whose node is deleted, a level
--   that is not in the node's array. A walk gets the number of addresses given out so far as its
--   fuel, which is more than there are nodes; recursive deletion and the walks of dump and
--   display get the same, and operator== one more. The random numbers are arguments, since rand()
--   is the library's: each insertion has a list of them, which counts as even where it ends. JSON
--   is the list of its members with texts as values, in the order of the keys; a file is its
--   text, and what display prints is its rows. The reads and writes of a type to a stream are a
--   parameter (Streamed). One call runs at a time. The waiting requests move in steps, one for
--   what a thread does under one lock and one for the call of Finish after it, and the steps come in
--   any order. The worker's parsing and
--   the node's answer to needSnapshot are arguments of Kv/Worker. A member that a snapshot does not
--   have is `none`, and to read it ends the restore, as operator[] of a constant object asserts.
--   In Threads a round of a worker under the lock is one move, since only the flag can change
--   meanwhile, and what the round does is then what it does before or after. The lists of tasks
--   that were submitted, started and finished are kept for the theorems only.
--
-- What the theorems assume of the rest. Allowed (Raft/Valid/Events) says what the protocol promises of
-- an event at a node: a request's entries are consecutive and agree with what is committed here, a
-- reply comes from a peer and belongs to a request that the leader could make, a client's command can
-- be printed, a snapshot is a JSON text and covers what is
-- committed. The last promise, that a read finds every peer's next entry in the log, is one that the
-- code does not keep by itself.
--
-- What is not modelled: the mutex of the skip list, the gRPC client and server
-- (Raft/RaftRpcUtil.cc) and the reactors, the locked queues of include/Util.h, the reading of the
-- configuration, the generated protocol code and the JSON library; the getters that query the
-- event loop; the messages of several nodes together.
pub mod Common
pub mod Log
pub mod Persister
pub mod Raft
pub mod Kv
pub mod SkipList
pub mod Threads
