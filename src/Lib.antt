-- ===== src/Lib.antt =====
-- Verification of the core of solana-token-lab: the pure computations between the events that are
-- ingested from the chain and the GO/NO-GO decision on a strategy.
--
-- How the program fits together. Ingestion stores swaps and liquidity events, ordered by their
-- position on the chain (internal/ingestion/ordering.go). Discovery makes a candidate of a token at its
-- first swap, or when its activity rises (internal/discovery). Normalization turns the ordered events
-- of a token into price, liquidity and volume series (internal/normalization); a replay merges them
-- into one stream (internal/replay). A simulation (internal/simulation) looks prices up in these
-- series (internal/lookup) and runs a strategy on them (internal/strategy), which builds a trade
-- record after the costs of a scenario (internal/domain). The trades of a strategy are summarised
-- (internal/metrics), and the summary is decided on (internal/decision).
--
-- The files and the code they model:
--   Base            shared names; Base/Int: int64 with its wrap-around, Base/Text: Go strings,
--                   Base/Sort: sort.Slice, Base/ThreeWay: comparisons, Base/Lists and Base/Indices: lists,
--                   Base/Search: sort.Search
--   Float64         float64 as an interface, its comparisons' laws, and a runnable instance
--   Result          Go's (value, error) results and the error values of all packages
--   Domain          internal/domain: records and constants
--   Position        the comparison cascade (slot, tx_signature, event_index) that the orderings share
--   Ingestion       internal/ingestion/ordering.go: SortSwaps, ValidateSwapOrdering and their kin
--   Normalization   internal/normalization: ordering.go, price_timeseries.go, liquidity_timeseries.go and
--                   volume_timeseries.go; Runs is the loop that the first two series share; Features is
--                   derived_features.go, and Runner stores all of them (engine.go, runner.go)
--   Replay          internal/replay: MergeEvents and SortEvents (ordering.go), the runner (Runner, runner.go),
--                   and the replay of discovery (Discovery, discovery.go)
--   Storage         internal/storage/memory: Keyed is the append-only map that the stores share, with its
--                   bulk inserts and sorted queries; a module for each store
--   Discovery       internal/discovery: the detector of new tokens (Detector, detector.go) and that of
--                   active tokens (Spikes and Active, active_detector.go), over the in-memory stores
--   IdHash          internal/idhash: candidate and trade identifiers
--   Lookup          internal/lookup/timeseries.go: PriceAt, LiquidityAt
--   Strategy        internal/strategy: inputs (Input), execution costs (Execution), the three
--                   strategies (TimeExit, TrailingStop, LiquidityGuard), FromConfig (Factory)
--   Simulation      internal/simulation/runner.go: Run, with the operations of the stores as parameters, and
--                   the runner on the in-memory stores
--   Metrics         internal/metrics: computeFromTrades and its statistics (compute.go), and the aggregator
--                   over the in-memory stores (Aggregator, aggregator.go)
--   Decision        internal/decision: types.go, evaluator.go, and the inputs built from a report (builder.go)
--   Pipeline        internal/pipeline/sufficiency.go: the checks of unique candidates, of duplicates and of
--                   missing events, over the in-memory stores
--   Examples        runs on small inputs, and each theorem applied at one
-- A Go function keeps its name in snake_case; a local part of a large function, such as a loop, has
-- a definition of its own with the name of what it does. The child modules of a part hold its proofs.
--
-- How Go is read:
--   int, int64    integers; additions, subtractions and products wrap around at 64 bits
--   float64       the parameter F with the operations of the interface Float64. No law of rounding is
--                 assumed; a theorem that needs the comparisons of IEEE 754 takes IsOrdered.
--   string        Unicode text; the order by code points is Go's order by the bytes of UTF-8
--   pointers      an optional field, or a nil argument, is an Option. A store that two parts write to, as
--                 the detectors of a replay do, is handed from one to the other; no other pointer is
--                 shared and written to later.
--   sort.Slice    a stable insertion sort by the same test. Go's sort is not stable: theorems on
--                 sorted results name the case where the order of equals does not matter, or hold for
--                 any order.
--   maps          association lists in the order of first insertion, where the code sorts the result
--                 or only counts; the entries of a store likewise, and a theorem on what a store returns
--                 takes them in any order
--   SHA-256       the parameter sha256_hex of the functions that compute an identifier
--   panics        an index out of range is the error index_out_of_range
-- The loops are structural recursion over slices. The binary search of the standard library (Base/Search)
-- runs on fuel: as many rounds as the interval is long, and each round shortens the interval.
-- The decimal digits of an int64 are written with a bound of 20, and no int64 has more than 19.
--
-- Not modelled: the RPC and WebSocket clients, the SQL stores, the HTTP server, metrics export and
-- the rendering of reports, which are input and output; contexts and mutexes (a call on a store is one
-- step); the parsing of logs, the ingestion manager and sources, the reports themselves, the
-- other checks of sufficiency and the pipeline phases, which build on the parts above.
pub mod Base
pub mod Float64
pub mod Result
pub mod Domain
pub mod Decision
pub mod Position
pub mod Ingestion
pub mod IdHash
pub mod Lookup
pub mod Metrics
pub mod Strategy
pub mod Storage
pub mod Normalization
pub mod Replay
pub mod Pipeline
pub mod Simulation
pub mod Discovery
pub mod Examples
