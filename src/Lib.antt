-- ===== src/Lib.antt =====
-- gitpixel: the indexed search of crates/gitpixel-core, the code graph of crates/gitpixel-graph, the budgeted context of
-- crates/gitpixel-context and the search over turns of crates/gitpixel-recall, and theorems about them.
--
-- The program answers regular expression searches over a repository. A pattern is planned into a query over
-- hashes of grams (crates/gitpixel-core/src/plan.rs, gram.rs). The query is resolved against the posting lists of
-- two shards (posting.rs, shard.rs) and against the gram sets of edited files (overlay.rs). The index set
-- (indexset.rs) merges the three layers into candidate files, and the real matcher reads these (verify.rs).
-- Beside it the program keeps a graph of the symbols of the repository: build.rs stores the files, the symbols
-- and the imports (imports.rs) that the extraction finds and links the calls (resolve.rs) in the tables of store.rs;
-- trace.rs, impact.rs and changes.rs answer questions from these tables. Items of code are rendered for a budget of
-- tokens (crates/gitpixel-context). crates/gitpixel-recall keeps the turns of conversations in a table, indexes them in
-- shards of the same format (segment.rs) and searches them (search.rs) with the same planner.
--
-- Base         shared names, lists, sorted lists, maps and sets keyed by text, sort_unstable and dedup
-- Posting      posting.rs: GramQuery, gallop, intersect_sorted, union_sorted, resolve_query
-- Gram         gram.rs: the trait GramExtractor as a record; Gram.Trigram is TrigramExtractor and Gram.Sparse is
--              SparseGramExtractor, whose emit, grams and covering are emit, sparse_grams and sparse_covering
-- Overlay      overlay.rs: eval, Overlay and its operations
-- Query planner, under the module Plan: plan_pattern and plan_literal of plan.rs; Plan.Analyze is analyze with its
--              loops, Plan.Query is and, simplify, exact_to_query and covering_query, Plan.Syntax the nodes of
--              regex_syntax
-- Shard        shard.rs: Shard.Varint the varints, Shard.Builder the builder, the posting run that write makes and
--              the loop with which Shard::postings reads it; Shard.Writer the bytes that write puts into the file;
--              Shard.Publish the calls with which write puts the file into its place; Shard.Reader is Shard::open and
--              Shard::postings, and Shard.Reader.Written what they make of these bytes
-- Verify       verify.rs: search_file_page and search_file
-- IndexSet     indexset.rs: IndexSet has the state, the candidates of search_page_in, paths, refresh_file and
--              remove_file; IndexSet.Search is the rest of search_page_in; IndexSet.Build is extract_blob and
--              build_shard_from; IndexSet.Reconcile is reconcile_delta, and the status loop and the test of the base
--              shard in open_or_build
-- Graph        crates/gitpixel-graph: Graph.Store is store.rs, whose statements are functions on lists of rows;
--              Graph.Trace trace.rs, with symbol_by_id and file_path_by_id of impact.rs; Graph.Resolve resolve.rs,
--              its writing operations in Graph.Resolve.Calls; Graph.Imports imports.rs and lang_of of extract.rs;
--              Graph.Impact impact.rs; Graph.Changes parse_diff of changes.rs and Graph.Changes.Detect detect;
--              Graph.Build build_graph of build.rs and Graph.Build.Update update_file; Graph.Text the operations
--              of str that they use, with the blanks of ASCII
-- Context      crates/gitpixel-context/src/lib.rs: render, estimate_tokens and fit_to_budget_detailed
-- Recall       crates/gitpixel-recall: index_new, rebuild and open_shards of segment.rs, turns_for_indexing of store.rs,
--              and search of search.rs: turn_candidates are its candidates, considered the rows that either of its
--              paths selects, Recall.Visit the closure visit with its loop, and Recall.Hits.search the whole
--
-- Numbers. A byte, a hash, a file id and a length are natural numbers. Where the source casts to a narrower
-- integer or wraps, the model writes the remainder; where it saturates, the minimum; checked additions are tests.
-- Texts are the native strings; a content is a list of bytes. A HashMap is an association list or a function, a
-- HashSet a list without repetition, a BTreeSet an ascending list. A panic is none.
--
-- Fuel. gallop_bound and binary_search have the length of the list, which their loops cannot exceed; write_varint
-- has five rounds, which every u32 needs at most; read_run has the length of the run, of which each round takes
-- a byte; lower_bound has the number of records; the searches of trace and impact have two rounds more than the
-- store has edges, as each edge discovers at most one symbol, and the chain of parents one more than the depth. The
-- loop over the layers of a rendering has three rounds, as two layers can be given up; the loop of index_new one round
-- more than the table has turns, as each round indexes one.
-- The theorems about these functions hold with the fuel that the functions give.
--
-- Parameters. The hash xxh3 and the weigher of the sparse extractor; the parser of regex_syntax, with the record
-- Language of what its nodes may match; what the matcher hands to the sink for each file, and is_regular_file;
-- starts_with of std::path; the id that SQLite gives to a new row; the extraction of a file's symbols, the hashes of
-- contents and the signature of a tree in build.rs; the answers of git and the contents of files; as_bytes and from_utf8
-- of texts; the file system that a shard is written to; trim and lines of str and the decimal notation in the
-- rendering; the names of segment files, the writing and reading of an id as a text, the filters of a search, the
-- order of its rows and the regular expression on a turn. Each theorem that has one of these has an example in an Examples module that fills it
-- with a concrete function.
--
-- A segment of Recall and a shard of IndexSet stand for the layer of the builder that was written; Shard.Reader.Written
-- is about the bytes of the file between the two.
--
-- Not modelled: open_or_build as a whole, plain_signature, the JSON of DeltaState; bounded reads, symbolic links and
-- other file access (index.rs); CRC weights (weights.rs); the calls of git (gitsync.rs). Of crates/gitpixel-graph: the
-- extraction, which walks the trees of a third-party parser, and the walk over the directory; the errors, the opening
-- and the migration of the database, and symbols_by_name; the text of the summary of impact; cluster.rs, process.rs
-- and targets.rs. Of crates/gitpixel-recall: the lock and the file errors of segment.rs, the
-- snippets and candidate_count of search.rs, and the other files. The log sniper, the server, the command line and the
-- benchmarks.
pub mod Base
pub mod Posting
pub mod Overlay
pub mod Gram
pub mod Plan
pub mod Shard
pub mod Verify
pub mod IndexSet
pub mod Graph
pub mod Context
pub mod Recall
