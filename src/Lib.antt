-- ===== src/Lib.antt =====
-- pgdb is a database written chapter by chapter: pages and tuples, storage and buffer managers, heap,
-- lexer, parser, catalog, analyzer, executor, B-tree, planner, transactions, and a session that a shell
-- and a regression runner drive. In the repository the bodies of the layers below the session are
-- exercises, that is, panics; their types, constants, errors and small methods are code, and so are the
-- command cmd/pgdb and the runner of the regression tests. This library models that code.
--
-- The parts, and where they stand:
--   Prelude    lists, integers, texts as lists of bytes, decimal and hexadecimal numbers as fmt and
--              strconv write and read them, results
--   Lexer      internal/sql/lexer/lexer.go: token kinds and texts (Kinds), keywords (Keywords), Tokenize
--              (Tokens)
--   Sql        internal/sql/ast/ast.go (Ast), internal/sql/parser/parser.go (Parser),
--              internal/sql/query/query.go (Query),
--              internal/sql/analyzer/analyzer.go (Analyzer),
--              internal/plan/plan.go (Plan), internal/planner/planner.go (Planner)
--   Executor   internal/executor/executor.go and internal/executor/expr/expr.go
--   Tuple      internal/tuple/tuple.go
--   Page       internal/page/page.go
--   Catalog    internal/catalog/catalog.go and control.go; Oids has the operations
--   Storage    internal/txn/txn.go (Txn, Manager) and internal/mvcc/mvcc.go (Txn, Stable),
--              internal/heap/heap.go (Heap, Relation), internal/smgr/smgr.go (Smgr, Store), the structs of
--              what is open (Open), the texts of verdicts and states (Verdicts), internal/btree/btree.go
--              with the types of bufmgr, index and planner (Btree, Tree), and internal/index/index.go
--              (Indexes)
--   Visibility internal/heap/heap_test.go: fakeSnap, the snapshot of the tests; the visibility rules as
--              tables (Rules), and that its methods follow them (Methods), agree (Agree) and come
--              to rest (Rounds)
--   Session    internal/session/session.go; Script has the loop over the lines of an input that the shell
--              and the regression runner share
--   Pgdb       cmd/pgdb/dump.go (Dump, Dump/File, Sample) and cmd/pgdb/main.go (Repl, Main)
--   Regress    internal/regress/regress_test.go: run (Run), upToChapter (Chapters), diff (Diff), the
--              comparison with the expected output, which both runners share (Compare), and TestRegress
--              (Suite) over a file system (Disk), a test after one with -update (Suite/Update) and all
--              tests after all with -update (Suite/Twice)
--   Isolation  internal/isolation/isolation_test.go: tokens (Scan, and what a source reads as in
--              Scan/Words), parse (Spec), the text of a specification (Spec/Text) and its way back
--              (Spec/RoundTrip), format (Print, Print/Padded), the loops of permutation (Schedule, with the
--              calls behind what is printed in Schedule/Calls), the test of a file with run and the rest of
--              permutation (Play, with the calls of sessions in Play/Shown), and TestIsolation (Suite)
--   Tests      concrete runs
--
-- A Go function is a definition with its name in snake_case. A panic is none; an error is its text or a
-- sum of the package's errors; a writer is the bytes written to it so far; a file or a session is a record
-- with the calls that the code makes of it. uint16 counters wrap at 65536, and int is an integer with the
-- bounds of 64 bits where the code can reach them (REGRESS_CHAPTER).
--
-- Functions and methods whose bodies are exercises are fields of a record (PageReader, PageWriter,
-- HeaderReader, TupleWriter, Scanner, Session, and the records whose names end in Ops), and what their
-- comments promise is a second record, whose name ends in Laws, where a theorem takes it as a hypothesis.
-- The calls of a module that no result rests on have no such record.
-- Tests fills the records that a result below rests on with concrete functions.
--
-- Loops run on fuel where the source has no counter: Tokenize on the length of the source and one, since
-- every token but EOF takes a byte; the loop over statements on the length of the buffer and one, since
-- Split leaves a shorter text; the loop over line pointers on NumItems() and one, which also covers the
-- wrap of the counter; the loops of tokens and parse on the number of bytes and of tokens. A theorem says of each that
-- it ends. The polling loops of permutation run on any fuel, and may not end on it, as a receive from a step
-- that stays blocked does not end: the results on permutation say so in their last case.
--
-- Not modelled: the exercises themselves; the goroutines of internal/isolation/isolation_test.go, which are a
-- parameter (Host); the other test cases, chapters and documents.
pub mod Prelude
pub mod Lexer
pub mod Tuple
pub mod Page
pub mod Catalog
pub mod Sql
pub mod Storage
pub mod Executor
pub mod Session
pub mod Pgdb
pub mod Regress
pub mod Visibility
pub mod Isolation
mod Tests
