-- ===== src/Lib.antt =====
-- Verification library of hepta_dbcli, a command-line client and MCP server for several databases.
-- The library is about the crate under dbcli/src, and first of all about its two cores: delta-diff,
-- which compares two tables over two connections, and the gate that decides which statements a
-- session may run. File names below are relative to dbcli/src.
--
-- The parts of the program and how they interact. A statement that a user or an MCP client sends
-- goes through the write gate of cli.rs before a backend sees it. A comparison is routed to one of
-- several strategies: bucketdiff splits the key domain into ranges or hash buckets and compares
-- checksum tuples per bucket, then the rows or hash counts of the buckets that differ; ibltdiff
-- subtracts two invertible Bloom lookup tables, which the servers compute, and peels the rows that
-- differ out of the result; rowdiff merges two scans sorted by key, page by page; naivediff fetches
-- all rows and merges them on the client. All of them report rows of the type DiffRow. Beside that, synth
-- computes columns of generated tables from expressions and writes the tables as CSV, and load reads such
-- files and inserts them in an order that follows the foreign keys. Statements and connections are written
-- to an audit file, cut and scrubbed.
--
-- What models what.
--   Prelude, Prelude/*: shared names, integers, lists, exclusive or, the stable sort, and maps as
--     association lists, whose order stands for the order in which a hash map is walked.
--   Text, Number: str and char as lists of code points, parse and cmp of the language.
--   Decimals: the crate rust_decimal, a parameter: a record of its operations.
--   Report: delta_diff/report.rs, DiffRow and DiffStatus, and the printing of JSON scalars.
--   Guard: cli.rs, strip_leading_comments, classify_statement, write_gate. Guard/Nested is about block
--     comments, which nest.
--   Range: delta_diff/bucket_diff.rs, RangePlan. Range/Offsets works on offsets from min,
--     Range/Valid and Range/Partition lift that to the i64 keys, and Range/New is about the constructor.
--   Bucket, Bucket/Checksum: bucket_diff.rs, multiset_diff, count_map, merge_chunk_map and
--     maps_to_diff_buckets, and ChecksumTuple of checksum.rs. Bucket/Checksum/Merged is about the sums
--     of merged chunks, and Bucket/Checksum/Differing about the differing buckets.
--   Iblt, Iblt/Classify: iblt_diff.rs, subtract, peel, classify_keyless. Iblt/Cells has the group
--     laws of cells, Iblt/Sound the specification of a summary as a sketch of entries.
--   Pairing: delta_diff/pairing.rs, pair_names (Pairing/Names) and pair_plans, with TablePlan of metadata.rs.
--   Route: delta_diff/engine.rs, route_impl and what it calls. Route/Passes is about its branches,
--     Route/Integers about the types of integer keys, and Pairing/Keys about the key that two tables share.
--   RowDiff, RowDiff/Paging: rowdiff.rs, cmp_value, cmp_key, row_values_equal, and row_level_diff
--     with drain and the cursors. RowDiff/Paging/Flat is its specification, the merge of two whole
--     lists; RowDiff/Paging/Pages says which pages a scan still has to come.
--   Skew: keyed_diff.rs, skew_route and merge_small_vs_hits, and Skew/Accounts on its counts.
--   Minus: minus_diff/sql.rs, classify_minus_rows. Minus/Answer is the server's answer and what a report
--     shows of it, and Minus/Accounts compares the two.
--   Naive: naive_diff.rs, the fingerprints and keyless_merge. Naive/Pairing, Naive/Counts and
--     Naive/Balance are about the map of open left rows for any kind of key.
--   Expr, Expr/Lex, Expr/Operators, Expr/Parser, Expr/Operands, Expr/Referenced, Expr/Eval:
--     synth/expr.rs, the language of the rules for columns: its lexer, its parser, its static types
--     (infer_type) and its evaluation on a row.
--   Csv: synth/export.rs (export_csv) and tabular.rs (read_csv); Csv/Fields is about one field.
--   HashDiff: hash_diff.rs, split_range and the key domain, on integers whose wrap-around is written out.
--   Sample: delta_diff/sample.rs, the rows to show and the histogram; Sample/Fill and Sample/Picks are about its loops and
--     Sample/Selects about ascending lists; Sample/Histogram is compute_modified_columns. ColumnType is
--     is_numeric_type of metadata.rs.
--   Backend/Quoting: backend/mod.rs, quote_ident, sql_literal and contains_bare_limit, whose nested loops are
--     one scan that knows where it stands.
--   Load/Topo: load/plan.rs, stable_topo_order. Load/Topo/Degrees is about the graph, Load/Topo/Relax
--     about the inner loop, Load/Topo/Order about the outer one, Load/Topo/Answers about the result,
--     and Load/Topo/Ranked about schemas without cycles.
--     Load/Build: fk_edges and build_plan, with the listing of foreign keys in Load/Build/Refers. Load/Columns: validate_column_sets, and align_row_with_defaults of load/loader.rs.
--   Audit/Scrub: audit/scrub.rs, redact_dsn, percent_decode and truncate_for_audit; texts are code points,
--     and the bytes of a character are counted by its width in UTF-8.
--   Audit/Event: audit/event.rs, ConnectionInfo::from_url, on the bytes of the texts.
--   TextSet: a BTreeSet of texts, as the list of its elements in order.
--   The modules called Examples hold tests and concrete instances.
--
-- State and errors. A loop that mutates locals is a function of those locals; a stored index into a
-- buffer is the rest of the buffer. An index or slice out of bounds and an assertion that fails are
-- a value of the result (none, panic). A connection is the function from the last key to its answer,
-- which may be an error. u64 additions of checksums wrap at 2 ^ 64; counts of rows in the IBLT are
-- integers without a bound.
--
-- Fuel. strip_within has the length of the text, which each call shortens (Guard/Comments). peel has
-- the event budget of the source, which stops the loop in the source too. The loop of row_level_diff
-- and drain need one unit for each row, each page and two more turns. digits has the number itself.
-- The lexer of expressions has a unit for each character, the parser one for each token and one more,
-- since each level of brackets takes a token; the topological order has a unit for each table.
--
-- Not modelled: the SQL text of the dialects, connections and pools, the two-round protocol of
-- ibltdiff and the parsing of its summaries, the SQL and the loops of hashdiff, joindiff, keydiff,
-- minusdiff and point lookup, recheck, progress and export of delta-diff; of synth the generators, which
-- are floating-point statistics on random numbers, and all but the rules' expressions and the CSV files;
-- of load the discovery of files and the inserts; the files of audit and the rest of its events; the server, the
-- interactive mode, output and configuration. They are pure I/O, text for a server, or later work.

pub mod Audit
pub mod Backend
pub mod Bucket
pub mod ColumnType
pub mod Csv
pub mod Decimals
pub mod Expr
pub mod Guard
pub mod HashDiff
pub mod Iblt
pub mod Load
pub mod Minus
pub mod Naive
pub mod Number
pub mod Pairing
pub mod Prelude
pub mod Range
pub mod Report
pub mod Route
pub mod RowDiff
pub mod Sample
pub mod Skew
pub mod Text
pub mod TextSet
