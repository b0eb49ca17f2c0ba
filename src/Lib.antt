-- ===== src/Lib.antt =====
-- Pocket Advisor ingests a folder of documents and mail into PostgreSQL through a durable job
-- queue, and serves search and mailbox browsing over what it stored. This development models the
-- parts that carry that logic and proves what makes them correct.
--
-- * Client models internal/client/embedding/circuit_breaker.go: the breaker before the embedding
--   endpoint, a step for each method and the clock as an argument.
-- * Domain models the failure vocabulary of internal/domain/document.go and classification.go.
-- * Queue models internal/storage/postgres/jobs.go. The job table is a list of rows, a statement is
--   a guarded update at one database time, and `Run` takes the table at its start and at its end,
--   so that other claims may act in between. Queue.Claims is `Claim`, Queue.Gate is job_gate.go
--   with the slots that internal/worker/runtime.go takes from it.
-- * Worker.Cache models internal/worker/vector_cache.go, an entry for each list element; Refinement
--   compares it with a list of its entries.
-- * Worker.Runtime models internal/worker/runtime.go: errors as chains of what errors.As and
--   errors.Is find, Settle the verdict on a result, Invoke the run of a handler with its panics,
--   Backoff the delay of a retry. The queue and the document store are interfaces of that code, and
--   stay records of operations over any state.
-- * Limits models internal/limits/limits.go: the semaphore as a state that acquisitions and
--   releases reach in any order.
-- * Mailbox models internal/mailbox: Keyset the browse order, Cursor the continuation tokens, Store
--   the SQL statement, Pages the service's `ListMessages`. The store returns the rows that Pages
--   verifies and cuts, and the cursor of a page becomes the boundary of the next statement.
-- * Retrieval models internal/retrieval: Pool the window of the reranker, Rerank its use and
--   Selection the picked matches of select.go, Packets the packets of packets.go and the byte
--   budget of expand.go. The candidates, documents and neighbours come from SQL and are arguments,
--   scores are values that can be compared.
-- * Chunker models internal/engine/embed/chunker.go: Split the windows and chunks of `Split`, with
--   the window and the overlap as arguments, and Batches the `Batcher`, whose floating-point
--   numbers are an argument. Tiling, Slices and Texts are its proofs.
-- * Workspace.Ignore models internal/workspace/ignore.go, from the patterns to the verdict on a
--   path.
-- * Mcp models internal/mcp: Page the result, its items and when a page can be sent, from
--   result.go, and Build how snapshot.go cuts the next page and which position a cursor then stands
--   for. Build.Follow reads the pages as a client does. Mcp.Store is the store of snapshots, with
--   Serve its two handlers and Runs any sequence of calls; the clock and the random source are
--   arguments. Documents and Fetch model document.go: Fetch how a page is filled, Fetch.Cursor the
--   cursors and the page that one leads to, Fetch.Lookup the arguments and Fetch.Call the whole
--   call. Search to Whole are the proofs, from the binary search over one match and the loop to the
--   pages of a client.
-- * Source models internal/source/source.go: Resolver the reading of one file, Replay that of a
--   document from its files or its containers. The file system, the store and the unpacking are
--   arguments, and a budget below zero, which stays there, is none.
-- * Prelude holds Boolean tests, byte strings, Go's runes and spaces, lists with native lengths,
--   sorting and strict order.
--
-- Numbers are natural. An instant is a count of units, 0 where the code has the zero time or a NULL
-- date; the queue counts seconds and the runtime nanoseconds. Strings are lists of bytes. Attempts
-- and generations of the table are far below the width of its columns, so their sums are not
-- wrapped.
--
-- Most loops are structural. The eviction loop has fuel for the order and one round more, each
-- round drops an entry, and the theorem on it is stated for any such fuel. The decimal digits of a
-- length have as much fuel as the number. The client that follows cursors is a device of the
-- statement and has fuel for one page more than there are messages; the one that reads evidence has
-- fuel for each packet and each byte, and the one that fetches documents for each byte, attachment
-- and match. The search for the largest part that fits has fuel for the values of its range. The
-- windows of a text and its runes have fuel for its bytes, since each moves on by a byte at least,
-- the search for the end of a page for the lengths that it tries, the loop that makes room in the
-- store for a snapshot each and one round more, and the requests of a document for its chunks and
-- one round more. A read of a document goes down as many levels as the code allows, and a file has
-- as many attempts.
--
-- Not modelled: logging, telemetry, contexts and their deadlines but for whether a run is shutting
-- down, the wire formats (JSON, base64, SHA-256 and the text of an instant are parameters), the
-- renewal timer of a handler, and the parts that call models, parsers or the operating system.
pub mod Prelude
pub mod Chunker
pub mod Client
pub mod Domain
pub mod Limits
pub mod Mailbox
pub mod Mcp
pub mod Queue
pub mod Retrieval
pub mod Source
pub mod Worker
pub mod Workspace
