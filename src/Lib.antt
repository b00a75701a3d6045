-- ===== src/Lib.antt =====
-- A model of MattSQL, a small SQL engine in C++, with the theorems that make its parts correct.
--
-- The program. A statement goes through the lexer, the parser, the binder, the logical planner, the
-- optimizer, the physical planner and the executor (src/sql_engine.cpp). The executor reads and
-- writes rows through a table storage manager: a row is encoded as a tuple, a tuple is a record in a
-- slotted page, and a table is a heap of such pages. The catalog holds the schemas.
--
-- The files, each with the code that it models:
--   Prelude       shared names: tests, lists over the native numbers, integers, facts on quotients
--   Common        include/mattsql/common: error codes and results (Status), SQL types and values
--                 (Types), comparisons (Values), checked integer arithmetic (Checked) and maps (Maps)
--   Lexer         src/lexer/lexer.cpp and include/mattsql/lexer: trivia (Trivia), tokens (Scan)
--   Catalog       src/catalog: the metadata in memory (Hosted), the catalog over it (Tables)
--   Storage       include/mattsql/storage and src/storage: bytes (ByteIo), rows as bytes
--                 (TupleCodec), pages of records (SlottedPage), tables of pages (Heap), the tables'
--                 heaps (TableStorage) and a device of blocks (BlockDevice)
--   Parser        include/mattsql/parser and src/parser/parser.cpp: the syntax tree (Ast), the current
--                 token (Tokens), literals (Literals), expressions (Expressions), statements
--                 (Statements), and how a parse ends (Endings, Expressions/Ending, Statements/Ending)
--   Binder        include/mattsql/binder and src/binder: bound expressions (Expression), names of
--                 columns (Columns), the binding of expressions (Binding) and of statements
--                 (Statements; Creating sets CREATE TABLE against the catalog), and the rules of
--                 typing (Typing)
--   Optimizer     src/optimizer/default_optimizer.cpp: constant folding (Folding), the rules on plans
--                 and the pipeline (Rules)
--   Planner       include/mattsql/planner and src/planner: plans (Plans), the logical planner
--                 (Logical) and the physical planner (Physical)
--   Execution     src/execution: the evaluation of expressions (Evaluator), the loops over rows
--                 (Rows), what a plan does behind its inputs (Executor), and plans on the state of
--                 the catalog and the storage (Driver)
-- A definition has the name of its function or type, in snake case for a function. Proofs stand in
-- the child modules of the definitions, and concrete runs in the modules named Examples.
--
-- The model. A `Status` or `Result` is its error code or its value; the text of a message is not
-- modelled, as no code branches on it. A string is the list of its bytes, a byte a number below 256.
-- A `std::int64_t` is an integer, and `IsInt64` its range; an unsigned integer of n bytes is a
-- number below 256 ^ n. A pointer to an expression is a tree with a constructor for the null
-- pointer. A reader's offset into a record is given by the bytes from there on. Loops are recursion
-- on the list that they run over or on the rounds that are left. Two loops of the lexer take rounds
-- that are given, one more than the characters that are left, and a round consumes a character.
-- The characters' tests are those of the C locale. Tracing
-- (`ScopedTrace`) has no effect on results and is left out.
-- The pages of a heap are numbers and bytes that each operation takes and returns; the handles and
-- cursors of a table share its state, so a cursor is a position that `next` takes with the table.
-- The catalog takes its store as a record of operations, `HostedCatalogApi`, as the code does; its
-- laws for tables are `StoresTables`, which the store in memory has. An `unordered_map` is an
-- association list (Common/Maps). The exception of `at` is a result of its own.
-- A page's header is never a null pointer, as the heap hands over the header of a frame.
--
-- The executor works on the state of the catalog and of the storage in memory. Its loop over a scan
-- takes as many rounds as the table has slots, and one for the end.
-- A transaction is its mode and its state. `TableStorageMethod` has one value and is left out, with
-- the tests for another one.
--
-- Not modelled: the chain of stages in src/sql_engine.cpp, the runtime of the host, the
-- command line and the interfaces of storage that have no implementation.
pub mod Lexer
pub mod Catalog
pub mod Prelude
pub mod Common
pub mod Storage
pub mod Parser
pub mod Binder
pub mod Execution
pub mod Optimizer
pub mod Planner
