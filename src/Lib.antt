-- ===== src/Lib.antt =====
-- apoci: a container registry that federates over ActivityPub. This library models the parts that
-- decide what a node stores and sends: the queue of activities, the circuit breakers, the delivery of
-- activities to peers, the signatures and the inbox that let activities in, the tables below it,
-- the collection of garbage, the store of blobs and its uploads, the queues of the external targets,
-- and the checks on names.
--
-- The files and the code they model, by paths from the repository's root:
--   Queue            internal/queue/simple.go; Queue/Fifo and Queue/Waiting hold its properties.
--   Circuit          Circuit/Delivery: the breaker of internal/activitypub/delivery_queue.go;
--                    Circuit/Upstream: internal/upstream/circuit.go; their properties are in
--                    Circuit/Opening and Circuit/Counting.
--   Delivery         the table of internal/database/delivery.go, one function for each statement;
--                    Delivery/Worker: deliver, processBatch, PreWarmCircuit and cleanup of
--                    internal/activitypub/delivery_queue.go; the other modules below hold properties.
--   Urls             the interface of net/url and internal/activitypub/urlcheck.go.
--   Activity         RawActivity of internal/activitypub/inbox.go with the decoded JSON of its object.
--   Result, Actors   internal/database/actors.go: the tables of actors and follow requests, each
--                    statement with whether the database fails it.
--   Registry         internal/database/packages.go and blobs.go: the tables of repositories,
--                    manifests, tags and tombstones, and in Registry/Blobs those of blob references,
--                    blobs and peer blobs.
--   Inbox            internal/activitypub/inbox.go: configuration, URL comparison, allowlist and
--                    blocklist, whose properties are in Inbox/Blocking; Inbox/Follow:
--                    inbox_follow.go; Inbox/Content: inbox_content.go, with Ingest for tags, blobs and
--                    deletions, Manifest for ingestManifest and Process for the four handlers; Inbox/Action: handlers as state passing with an error
--                    that keeps what was written, and a logic for them in Inbox/Action/Yields.
--                    Inbox/Content/Handlers states as an interface, Laws, what the statements on the
--                    tables keep, and draws from it what the handlers keep; Inbox/Content/Owners and
--                    Inbox/Content/Digests fill it, the first by Rows and Held.
--   Replication      internal/replication/worker.go: the queues and counters of the external targets,
--                    whose balance is in Replication/Counted.
--   Signature        internal/activitypub/httpsig.go: what VerifyRequest demands and its cache.
--   Inbox/Gate       the rest of inbox.go: dispatch and the keys of actors, with the activity log of
--                    internal/database/activities.go; Inbox/Gate/Serve: ServeHTTP, and the two ends of
--                    the queue of internal/activitypub/inbox_worker.go; Admitted, Keys, KeyOwner
--                    and Limits say what is checked, Once, Uninvited and Busy what a sequence of requests
--                    comes to.
--   Gc               internal/peering/gc.go: its configuration; Gc/Retention: retentionSweep and
--                    pruneUntaggedManifests; Gc/Orphans: the three cleanups of blobs; Gc/Drift:
--                    reconcileBlobStorageDrift and collect; their statements are in Registry/Retention.
--                    Pinned, Untagged and Survival follow a pinned manifest through a cycle, Selection,
--                    Budget and Stored say what is deleted or marked; Ends, Paging, Reconciled and
--                    Termination show that the loops end.
--   Validate         internal/validate/validate.go.
--   BlobStore        internal/blobstore/store.go: the files of blobs; BlobStore/Contents and
--                    BlobStore/RoundTrip hold its properties.
--   Upload           internal/oci/blobwriter.go: the staging of an upload; Upload/Sound: its calls in any
--                    order.
--   Prelude          shared names, Boolean tests, lists, strings as lists of bytes, maps as
--                    association lists. Tests: runs of the models.
--
-- How they interact: a request passes ServeHTTP, and its activity waits in the worker's queue or is
-- dispatched at once; it then reaches a handler of Inbox/Follow or Inbox/Content, which reads and
-- writes the tables of Actors and Registry and asks for replication; outgoing activities are rows of
-- Delivery, which a worker sends under a breaker of Circuit. The collector deletes from the tables
-- of Registry and from the stored files.
--
-- Bounds and fuel: loops are by recursion on the list they walk; the loop of PopCtx, on the list of
-- what its consumer finds at each wake-up. The loops of the collector over pages and batches run on
-- fuel, one round more than the table that they walk has rows, which Gc/Termination shows to be
-- enough. Numbers of the program that are sizes, counters and instants are natural numbers; an
-- instant is in nanoseconds. Nothing modelled subtracts below zero or reaches the range of int64 but
-- the length of the exponential backoff, whose exponent is capped as in the code.
--
-- Parameters: the HTTP signature library, the parsers of keys and dates, the Allow of a rate
-- limiter, path.Match, the file store where the collector asks it, net/url, the public suffix list,
-- base64, SHA-256, encoding/json, net.ParseIP and IPNet.Contains, the fetch of an actor document,
-- the adapters of the other ecosystems, and for each statement on the database whether it fails.
--
-- Not modelled: HTTP below the request, logging and metrics; the expiry of the cached fetches and
-- rate limiters; the timers and notices of the collector; what replicate copies to an external
-- target; replication between peers and their health; the handlers of the OCI API and of the other
-- ecosystems; the object store, configuration and administration.
pub mod Activity
pub mod Actors
pub mod BlobStore
pub mod Circuit
pub mod Delivery
pub mod Gc
pub mod Inbox
pub mod Prelude
pub mod Queue
pub mod Registry
pub mod Replication
pub mod Result
pub mod Signature
pub mod Tests
pub mod Upload
pub mod Urls
pub mod Validate
