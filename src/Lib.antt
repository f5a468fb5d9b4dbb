-- ===== src/Lib.antt =====
-- BrickTrace: the service behind the lineage browser, and the column graph that it searches.
--
-- The service (backend/) asks a SQL warehouse for rows of lineage, turns them into a graph for the
-- browser, and protects the warehouse and the reader of its answers; the library below it
-- (transformation_lineage/) holds the graph of column transformations and searches it.
--
-- Prelude       What the modules share: Boolean tests, lists, texts by their characters, dicts as
--               association lists, signed integers.
-- Warehouse     Breaker models backend/circuit_breaker.py; the clock reading is an argument of each
--               method. Gate models the semaphore and the counters of backend/warehouse_gate.py
--               (`_Slot.__enter__` is `enter`, `__exit__` is `exit`, for a thread alone) and calls the
--               breaker as the code does; the seconds that an acquire waited are an argument.
--               Gate/Steps interleaves the pieces of entries and exits: each operation of the
--               semaphore, of the counters under their lock and of the breaker is a step. Tag
--               models the attribution comment of the same file (`_scrub_tag`,
--               `set_request_context`, `tag_statement`).
-- Validators    backend/validators.py: Escape holds `_validate`, `sql_str` and `like_escape`, Url the
--               checks of outgoing addresses and `redact_url`.
-- Cache         backend/cache_service.py: Delta holds the methods of DeltaCacheService over the rows
--               of the table and the buffer of hits. Each SQL statement is written out as what it
--               does to the rows; keys and values pass through `sql_str` and the reader of literals.
--               Capability models backend/server/capability_cache.py in the same way.
-- Parallel      backend/parallel.py, on the outcomes of the calls.
-- Lineage       backend/lineage_service.py: Refs holds `_parse_lineage_ref` and `_entity_key`, Edges
--               the edges of `_build_graph_from_rows`, Service the calls for traces and graphs with
--               their cache, for one caller at a time, Statement `_execute_sql` behind the gate,
--               Trace the two walks of `_fetch_lineage_trace` as steps that interleave.
-- Sublineage    transformation_lineage/sublineage: Graph models graph.py, Bfs bfs.py, KPaths
--               k_paths.py, Backtrack backtrack.py with backtrack_types.py, and Keys the two
--               keys of cache_keys.py.
-- Extraction    Resolver models transformation_lineage/extraction/resolver.py: the sources of a run and of
--               a pipeline.
-- Build         Graph models transformation_lineage/parsing/graph_builder.py, Endpoints the hops of
--               transformation_lineage/sublineage/edge_endpoints_builder.py with the phases of
--               transformation_lineage/pipeline.py and the writer that feed them, Versions
--               transformation_lineage/versioning/change_detection.py with the part of the pipeline
--               that goes by it. The tables that a statement reads are lists of rows; how a query for
--               the newest row chooses among equal timestamps is an argument of that query.
-- RootCause     backend/server/root_cause.py: Columns the walk over columns, Evidence the failed runs
--               and the violations of rules, Rank the trace of a column, Tables the walk over tables
--               and the trace by health. Scores are numbers of ten-thousandths.
-- Tests         Runs at fixed inputs, and an instance of every result that has hypotheses.
--
-- Conventions. A Python set is a list without repetitions; where a loop visits a set, the order is
-- an argument, and the results hold for every order that keeps the elements. Exceptions are values
-- of a result type. Code points of texts are numbers, lengths are native numbers, and the gauges that
-- may fall below zero are integers. The hash, JSON, gzip, the lengths in bytes, `urlsplit`,
-- `getaddrinfo`, `ipaddress`, regular expressions, `str.lower` and Unicode's tables are arguments.
--
-- Bounds and fuel. The loop of `shortest_path` runs at most `max_depth` rounds, the loop of
-- `backtrack_from_target` at most `max_depth` levels, and `_dfs` descends at most `max_depth` hops:
-- these numbers are the code's own, and the functions recurse on them, so no fuel is added. The walk
-- over columns has a queue and no number of its own: its fuel is `cost`, the rounds that one column can
-- cause where a query returns at most the 30 rows of its LIMIT, and it is enough. The polling of a
-- statement has two rounds more than the seconds of its budget, enough where each wait takes a second.
--
-- Not modelled: the SQL texts beyond their effect, logging, threads beyond the interleavings of the
-- pieces of entries and exits of the gate and of the two walks of a trace, the routes, the parsers,
-- the other extractors, the other writers of Delta tables, the user interface, the cached per-user
-- clients, and the sizes and the locks of the in-process cache.
pub mod Prelude
pub mod Warehouse
pub mod Validators
pub mod Parallel
pub mod Cache
pub mod Lineage
pub mod Sublineage
pub mod Build
pub mod Extraction
pub mod RootCause
mod Tests
