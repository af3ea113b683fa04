-- ===== src/Lib.antt =====
-- A model of sqls, an SQL language server in Go (paths are from the repository's root).
--
-- Parts. The tokenizer (token/) turns SQL text into tokens under the lexical rules of a dialect
-- (dialect/); the parser, the formatter and the editor features work on those tokens. Before a
-- batch of statements is run, internal/queryparams compiles its named placeholders and binds
-- values to them. Formatted text is compared with the original before it is used. The server in
-- internal/handler queues documents for diagnostics and writes the source of objects to files.
-- metadata/ loads the catalog, within a budget of native calls that its loaders share, and merges
-- what each of its jobs finds into the cache of catalog/, in which the features of the editor
-- look names up.
--
-- Files.
--   Base and its children: shared names, tests on numbers, lists, and Go's string functions.
--   Dialect/Keyword: dialect/keyword.go, the table `match` and `MatchKeyword`, and the `MatchKeyword`
--     methods of dialect/interbase.go and dialect/postgresql_lexer.go.
--   Dialect/Rules: the interface `Dialect`, with the optional interfaces of token/lexer.go as fields
--     that may be absent, and its implementations. Dialect/Variant: dialect/variant.go.
--   Token/Kind, Token/Pos, Token/Word: token/kind.go, `Pos`, `ComparePos`, `SQLWord`, `MakeKeyword`.
--   Token/Quoted: the loops of the `tokenize…` methods. Token/Step: the cases of `next` that look
--     behind the rune. Token/Lexer: `next`. Token/Stream: `NextToken` and `Tokenize`.
--   Token/Loops, Token/Advance, Token/Progress, Token/Order: progress and positions.
--   Token/Verbatim, Token/Lossless, Token/Reprint, Token/RoundTrip, Token/Printable: that the tokens
--     keep the text.
--   QueryParams/Scan: the loop of `Compile` in internal/queryparams/scan.go; QueryParams/Trivia: its
--     helpers on text; QueryParams/Compile: the rest of `Compile`; QueryParams/Keys: its results.
--   QueryParams/Value, QueryParams/Bind: `Convert` and `Bind` in internal/queryparams/value.go;
--     QueryParams/Markers: a driver's reading of SQL, and the markers of what `Compile` writes;
--     QueryParams/Binding: when `Bind` succeeds; QueryParams/Answers: what it gives.
--   Metadata/Budget: metadata/budget.go, each function; Metadata/Permits: `acquire` and its release
--     function as steps of callers in any interleaving; Metadata/Running, Metadata/Drain: what holds
--     in all the worlds that those steps reach; Metadata/Stores: the map of keys to handles;
--     Metadata/Sharing, Metadata/Lifetime: sequences of `ForStore` and `release`.
--   Metadata/Events: metadata/events.go; Metadata/Delivery: what its subscribers get.
--   Metadata/Registry: metadata/registry.go; Metadata/Registry/Maps, Holds, Tracks, Entries, Acquire,
--     Retire, Leave, Release, Close, Steps: its maps, what holds of it, and what follows after any
--     sequence of calls;
--     Metadata/Registry/Counts, Accounts, Holding, Releases, Budgets: references to tracks and to the budget.
--   Metadata/Details: metadata/details.go, the store of details and its goroutines; Metadata/Details/
--     Sizes, Flights, Bounded, Steps: its bytes, its loads, and what holds after any sequence.
--   Catalog/Types, Identity, ObjectIndex, Dependencies, Cache, Lookups, Columns: catalog/types.go,
--     identity.go, objectindex.go, dependencies.go, the kinds and states of metadata.go, and cache.go;
--     Catalog/Snapshot: the methods of `MetadataSnapshot`;
--     Catalog/Keys, Kinds, Matching, Resolve, Names, Edges, Graph: keys, comparisons and lookups.
--   Metadata/Merge/Patch, Externals, Marked, Groups, Publish: metadata/merge.go; Metadata/Merge/Combined:
--     what a set of fragments makes of a cache; Metadata/Merge/Marks, Columns, Catalogs, Keyed, Steps,
--     Order: that the merges come to it in any order.
--   Diagnostics/Queue: the locked functions of internal/handler/diagnostics_scheduler.go;
--     Diagnostics/Steps: `runDiagnosticSignals` and the callers that queue work and signal, in any
--     interleaving; Diagnostics/Kept, Diagnostics/Drained: what becomes of the queued documents.
--   Formatter/Verify: internal/formatter/verify.go, on the tokens of Token/Stream; Formatter/Kinds,
--     Words, Gaps: its tests on kinds, values and blanks; Formatter/Safety: what an accepted text keeps.
--   Language/Positions: language/positions.go; Language/Utf8: what it uses of unicode/utf8;
--     Language/Runes, Lines, ColumnSteps, Columns, Starts: its loops; Language/RoundTrip, Errors,
--     CodePoints: its results.
--   QueryType/Tables, Split, Kind: internal/database/query_type.go; QueryType/Words, Results: its
--     words and its results.
--   Snapshots/Names: `escapeSnapshotName` in internal/handler/snapshot_store.go; Snapshots/Escape:
--     what its names promise.
--   Tests: runs of the model, and the results at concrete inputs.
--
-- Representation. A Go string is the list of its bytes in internal/queryparams, language/,
-- catalog/, metadata/ and internal/handler, and the list of its code points in token/ and internal/formatter. A loop over
-- an index is a recursion on the text from that index on. A map of strings to `true` is a list
-- with a membership test. The scanner of text/scanner is the list of the runes that it has still
-- to give; it drops a byte order mark at the start of a text. Go's functions on floats, times,
-- Unicode spaces and Unicode letters that queryparams calls are the parameter `GoLib`, and
-- `strings.TrimSpace` and `strings.ToUpper` are parameters of QueryType, of which nothing is
-- assumed. Goroutines are steps in any order. A semaphore is the number of its permits in use,
-- and a pointer to a `StoreBudget`, a track or an entry is a number of its own. The folding of
-- `strings.EqualFold` is a parameter. A Go map of the catalog is the list of its entries, or none
-- where it is nil; its values are not nil where the code dereferences them without a test.
-- `Externals` has the functions of Go's library that the merge calls, of which nothing is
-- assumed.
--
-- Fuel. The loop of `Compile` has the length of the text as fuel, that of `Tokenize` one more
-- than it: each round takes a rune at least. `coalesceSend` needs two rounds. The loops of
-- language/positions.go have one more than the length of the text, and never run out. An outcome
-- of the model's own marks that the fuel ran out.
--
-- Not modelled: the parser and its tree, the layout of the formatter, the language features, the
-- rendering of the catalog, the loaders and leases of metadata/, the database drivers and the LSP
-- server around them. Error values carry what the code decides on, and no message text.
pub mod Base
pub mod Dialect
pub mod Token
pub mod QueryParams
pub mod Catalog
pub mod Diagnostics
pub mod Formatter
pub mod Language
pub mod Metadata
pub mod QueryType
pub mod Snapshots
pub mod Tests
