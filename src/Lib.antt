-- ===== src/Lib.antt =====
-- Gubernator, a distributed rate limiter: the two algorithms that decide on a request, the caches and
-- the store that they work on, the workers that share the keys out, the consistent hash that picks
-- the server of a key, the clients of other servers, the exchange of GLOBAL rate limits, the health and
-- the membership of a server, its configuration, and the discovery of its peers.
--
-- A request comes in at GetRateLimits of gubernator.go, which routes it to the owner of its key by
-- the consistent hash of replicated_hash.go. The owner's worker pool (workers.go) hands it to the
-- worker of the key, which runs tokenBucket or leakyBucket (algorithms.go) on its own LRU cache
-- (lrucache.go) and on the store (store.go). For a GLOBAL rate limit a server that is not the owner
-- answers from its cache, adds the hits up and sends them to the owner, and the owner broadcasts what
-- its buckets hold (global.go). Other requests go to their owner through its client (peer_client.go),
-- which collects them into batches and keeps the errors that HealthCheck reports. The pools of
-- memberlist.go, etcd.go and dns.go announce the servers that they find to SetPeers, which builds the
-- consistent hash anew. SetupDaemonConfig of config.go reads the environment that all of this starts from.
--
-- Which file models which code:
--   Types/Messages, Types/Flags  gubernator.proto as gubernator.pb.go declares it, HashKey of
--                       client.go, HasBehavior and SetBehavior of gubernator.go
--   Types/Items         the items of store.go and cache.go, float64, the counters
--   Balance             creditedLeak, debtAt, fullAt, millis, unusableRate, spendableTokens,
--                       snapToZero and wholeTokens of algorithms.go
--   Interval            GregorianDuration and GregorianExpiration of interval.go
--   Cache/Elements, Cache/Lru    container/list as the cache uses it, and LRUCache of lrucache.go;
--                       Cache/Spec is the specification, Cache/Index, Moves, Invariant, Refinement
--                       and Every are the proofs, and Cache/Eviction that of Add
--   World               the Store interface, and the lookup that both algorithms begin with;
--                       World/Fetch, Miss and Keeps are the proofs
--   World/MockStore     MockStore of store.go
--   Token/Bucket        tokenBucket and tokenBucketNewItem of algorithms.go; Token/Decision, Live,
--                       Window, Fresh and Invariant are the proofs
--   Leaky/Terms, Leaky/Answer, Leaky/Schedule, Leaky/New, Leaky/Bucket   leakyBucket, extendDebtExpiry,
--                       scheduleHits and leakyBucketNewItem of algorithms.go; Leaky/Decision, Capped
--                       and Invariant are the proofs, and Leaky/Whole that of the waits on whole numbers
--   Sound               what all cached items satisfy
--   Workers/Ring        ComputeHash63 and getWorker of workers.go
--   Peers/Search, Peers/Hash   sort.Search, and ReplicatedConsistentHash of replicated_hash.go;
--                       Peers/Successor and Joins are the proofs
--   Peers/Region        RegionPicker of region_picker.go
--   Global/Hits         the Interval of interval.go and runAsyncHits of global.go; Global/Conserved
--                       and Batches are the proofs
--   Global/Send         sendHits of global.go
--   Service/Validate, Service/Route, Service/Handlers   validateMaxWait, GetRateLimits up to the
--                       handler of a request, getLocalRateLimit, GetPeerRateLimits and
--                       UpdatePeerGlobals of gubernator.go, and the handlers of workers.go;
--                       Service/Sound, Exchange and Stored are the proofs
--   Service/Forward     asyncRequest of gubernator.go; Service/Attempts is the proof
--   Service/Persist, Workers/Commands   NewWorkerPool, Load, Store, GetCacheItem and the handlers of
--                       workers.go, the Loader and MockLoader of store.go; Service/Shares, Restart,
--                       Start, Workers/Reload and Cache/Reload are the proofs
--   Service/Membership  SetPeers of gubernator.go; Service/Placing, Members and Picks are the proofs
--   Service/Health      HealthCheck, LiveCheck and GetPeer of gubernator.go; Service/Unhealthy is the
--                       proof
--   Service/Instance    NewV1Instance's load, Close and getGlobalRateLimit of gubernator.go
--   Client/Errors, Client/Send, Client/Calls, Client/Batches   the last errors, sendBatch, the calls and
--                       runBatch of peer_client.go; Client/Answers, Faults, Left, Origin, Order and
--                       Drain are the proofs
--   Config/Setter, Config/Defaults   SetDefaults of config.go over holster's SetDefault
--   Config/EnvFile, Config/Env, Config/Settings, Config/Daemon   fromEnvFile, the readers of variables and
--                       SetupDaemonConfig of config.go, and what they call of flags.go, net.go and
--                       kubernetes.go; Config/RoundTrip and Checked are the proofs
--   Discovery/Gossip, Discovery/Etcd, Discovery/Dns, Discovery/Kubernetes   the events of memberlist.go,
--                       the listings and the registration of etcd.go, the lookups of dns.go, and the
--                       extraction of peers of kubernetes.go; Discovery/Gathering, Polling and Ready are
--                       the proofs
--   Service/Broadcast   runBroadcasts and broadcastPeers of global.go; Service/Report and
--                       Reported are the proofs
--   Tests               runs on concrete inputs
--   Prelude             tests, lists, integers, int64 with its wrap, Go's maps
--
-- How the code is modelled. State is passed on: an operation takes the cache, the pool or the node
-- and returns the new one, and prometheus counters are a list of their increments. Results (value,
-- error) are an Outcome. int64 is an integer whose sums, differences and products wrap at 64 bits.
-- A pointer in the map of the cache is the identity of a list element; a write through the pointer
-- to a cached item is a write to the element with the item's key, made at the end of a handler. One
-- reading of the clock serves a whole request. The store gives and takes values, not pointers.
-- A panic on an index out of range is `none` or a constructor of its own.
--
-- Parameters: float64 with its operations, Go's calendar, the store, the loader, md5, sort.Slice, the
-- hash function of the picker, xxhash, what the peers answer to calls, the state of each caller's
-- context, the cache that the last errors are kept in, whether a peer can be dialled, SetDefault, the
-- host's network and its environment, the parsers of numbers and durations, the decoders of metadata,
-- and what etcd and DNS answer. CapLaws are the laws of IEEE 754 that the cap on a leaky balance
-- needs, rounding included, and WholeLaws say that float64 is exact on integers of at most 2 ^ 53.
-- Sorts says that sort.Slice sorts; it need not be stable. The loops over fuel are sort.Search, with
-- one more than there are indices, which halving never uses up; strconv.Itoa, with one more than the
-- number, which division by ten never uses up; and asyncRequest, with 7, one more than the attempts
-- that it makes.
--
-- The runs of runAsyncHits and runBatch are relations, which hold every order of requests, ticks and the
-- goroutine of the interval. A channel is a list, and the capacity of a queue bounds its sends.
--
-- Not modelled: the network, contexts that end while a server works, tracing, logs, the counters of
-- errors, the event channel, the files of TLS and etcd's credentials, the informers of Kubernetes, the
-- set-up of the member list, and the start of the daemon's servers. The batch of a peer is served in one
-- order, that of the list.
pub mod Prelude
pub mod Types
pub mod Balance
pub mod Interval
pub mod Cache
pub mod Client
pub mod Config
pub mod Discovery
pub mod World
pub mod Token
pub mod Workers
pub mod Peers
pub mod Leaky
pub mod Sound
pub mod Global
pub mod Service
pub mod Tests
