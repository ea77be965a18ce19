-- ===== src/Lib.antt =====
-- Sebenza keeps an inbox of drafts beside a set of agent worktrees. A draft is a file; next to it
-- stands an append-only log of events. The log holds comments, the requests that worktree agents
-- send, what the system agent records about them in triage, and what the operator decides. A
-- confirmed resolution is pasted into the terminal pane of the worktree that asked.
--
-- The files and the code they model, by paths from the repository's root:
--
-- - Draft: crates/common/src/domain/model.rs, the types of a draft and its frontmatter. Draft/File
--   has the text of its file and the order of the drafts, Draft/Round what is proved of the text.
-- - Events, with Events/Fold: crates/common/src/domain/inbox_events.rs, the events,
--   `request_id_of`, `apply_redactions` and `fold_requests`. Events/Fold/Track has the state
--   machine of one request, Events/Redaction and Events/Fold/Redaction what redaction shows and
--   keeps.
-- - Limits: crates/common/src/services/inbox_limits.rs, the limits and `RateLimiter::allow_at`;
--   Limits/Window has the limiter that forgets nothing.
-- - Delivery: crates/common/src/services/resolution_delivery.rs, `sanitize_for_paste` and
--   `prepare_resolution`; Delivery/Controls and Delivery/Fence are about what reaches the pane.
-- - Convert: crates/common/src/services/inbox_convert.rs, its types; Convert/Targets has
--   `validate_targets`, Convert/Run the wave of conversions and the launch prompts, and the
--   children of both what is proved of them.
-- - World: the state and the ports of the two services below, and the actions on them.
--   World/Outcome has the rules by which a method is walked step by step.
-- - Store: crates/common/src/adapters/inbox_store.rs with `is_ulid` of
--   crates/common/src/util/id.rs; a directory of files is a map from ids. Store/Ownership,
--   Store/Writes and Store/Prioritise are about who may write what.
-- - Service: crates/common/src/services/inbox_service.rs, its helpers; Service/Requests has the
--   comments, the new requests and what a worktree agent sends, Service/Decisions has what triage
--   records, the operator's decisions and the delivery, Service/Priorities the priorities.
--   Service/Reads, Service/Views and Service/Effects hold what the methods share: how each begins
--   and ends, what a reader of an item sees, and what one more event changes. Service/Comment,
--   Service/Open, Service/Triage, Service/Reject, Service/Redact, Service/Deliver,
--   Service/Delivered, Service/Fresh, Service/Confirm and Service/Redeliver are about one method
--   or a few.
-- - Worktree: the types of crates/common/src/domain/model.rs and
--   crates/common/src/domain/config.rs for worktrees, their tabs and their services.
-- - Policies: crates/common/src/domain/policies.rs. Policies/Branch has the names of branches,
--   Policies/Guard the guards of the inbox routes, Policies/Ports the ports of services,
--   Policies/Prefix the URL prefixes of projects and Policies/Paths the small checks; their
--   children hold what is proved of each.
-- - Tabs: crates/common/src/services/tab_logic.rs, the tabs of a worktree. Tabs/Forks has the
--   steps by which crates/common/src/services/lifecycle_service.rs changes them.
-- - Agent: the types of crates/sebenza-server/src/services/system_agent/mod.rs and output.rs.
--   Agent/Output is output.rs, what a reply must be. Agent/Queue is the queue of mod.rs:
--   Agent/Queue/Run queues, runs and finishes a job, Agent/Queue/Retry has the other entries.
--   Agent/Apply is crates/sebenza-server/src/services/system_agent/apply.rs, what a finished
--   triage does to the inbox. Agent/Queue/Counts, Agent/Queue/Sound and Agent/Queue/Moves carry
--   the proof in Agent/Queue/Slots, and Agent/Queue/Settled is about the loop of `dispatch`.
-- - Jobs: crates/sebenza-server/src/services/inbox_jobs.rs, the table of conversion jobs;
--   Jobs/Bounded is about its size.
-- - Runtime: crates/common/src/services/project_runtime.rs, the table of the worktrees of a
--   project and its index by branch, with the types of domain/model.rs. Runtime/Feed is
--   domain/events.rs and `apply_event`. Runtime/Indexed and Runtime/Aligned are about what every
--   operation keeps, Runtime/Stale about a removal that loses a branch.
-- - Reconcile: crates/common/src/services/reconciliation.rs, with what it takes from
--   adapters/git.rs; Reconcile/Services has the services of a worktree, with parts of
--   adapters/fs.rs and config.rs. Reconcile/Parts and Reconcile/Seen are about what a run leaves
--   in the table.
-- - Oneshot: crates/sebenza-server/src/services/oneshot_watcher_service.rs, which ends a run whose
--   agent has settled; Oneshot/Grace is about the time that it waits.
-- - ContentScan: crates/common/src/services/content_scan.rs and the advisories of
--   services/inbox_convert.rs. ContentScan/Keys is about the search for a key, ContentScan/Names
--   about what a scan answers.
-- - Service/Threads: the comment threads of crates/common/src/services/inbox_service.rs;
--   Service/Threads/Rows and Service/Threads/Complete are about what each thread holds.
--   Service/Ledger: `convert_streaming` and the history of conversions there;
--   Service/Ledger/Merge, Service/Ledger/Recorded, Service/Ledger/Status and
--   Service/Ledger/Unrecorded are about what a wave leaves in the draft. Service/Edits: the reads
--   and edits of a draft there, and its deletion, which Service/Edits/Deleted is about.
-- - Base: the lists, texts, dictionaries and tests that the others share. Tests: runs on small
--   inputs.
--
-- A text is the list of its code points. A method is an action on `World` that answers with a
-- value or an error; the state comes back after an error too, since what was written stays
-- written. The locks of the code, one per path over each write of the store and one for decisions
-- over the proposal of triage, the confirm, the rejection, the redelivery and the redaction, make
-- most methods one action; a comment or a request that another thread appends in the middle of a
-- decision is left out. `open_request` and `convert_streaming` hold no lock between their reads
-- and their writes: each is in two actions, `admit_request` and `take_request`, `checked_draft`
-- and `record_wave`, and what is stated of them says what the writes of others between the two can
-- do. The deletion of a draft takes no lock and removes several files; it is one action here.
--
-- What the code calls and does not define is a parameter, a field of `Env`: the SHA-1, random ids
-- and the clock by the number of earlier draws, the pane sink by the number of earlier sends, the
-- values of the YAML library, and the content scan, which ContentScan models on its own. Arguments
-- of their functions are lower case, the parsing of an IPv4 address, random bytes, the JSON
-- library (`Json`), the YAML of a frontmatter (`Yaml`), and the clock and ids of the system agent
-- (`AgentEnv`), the runner of a conversion (`Runner`), which answers by the calls before, and what
-- git, tmux and the file system answer to one reconciliation (`Machine`). A statement that assumes
-- something of them says so.
--
-- Bounds and fuel: `strip_controls` and `strip_formats` recurse on fuel, which their callers set
-- to the length of the text; each round drops or keeps one character at least, so that it is never
-- short. A search for a free number (`first_free`) has fuel for one number more than there are
-- taken ones, and the loop over project prefixes goes through 998 numbers, as in the code. The
-- loop of `dispatch` has fuel for the jobs that wait, of which each round takes one. The loop over
-- a template has fuel for one round more than there are characters, and each round takes two at
-- least. The digits of a number have fuel one above the number. Times are nanoseconds in unbounded
-- numbers. The attempt of a delivery is a 32-bit number, and its increment wraps.
--
-- Not modelled: I/O errors, the text of the JSON files, the listing of drafts, the creation of
-- worktrees, the system agent's child process and its prompts, the git, tmux and container
-- adapters, the server's routes, the command line and the user interface.
pub mod Base
pub mod Delivery
pub mod Convert
pub mod Draft
pub mod Events
pub mod Limits
pub mod Runtime
pub mod Service
pub mod Store
pub mod Tests
pub mod World
pub mod Policies
pub mod Worktree
pub mod Reconcile
pub mod Oneshot
pub mod ContentScan
pub mod Tabs
pub mod Agent
pub mod Jobs
