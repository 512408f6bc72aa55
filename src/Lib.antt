-- ===== src/Lib.antt =====
-- dbmcp is a server of the Model Context Protocol in front of MySQL, PostgreSQL and SQLite databases. A
-- tool call becomes SQL; in read-only mode the SQL is checked first (crates/sql), lists are cut into
-- pages (crates/server), and with redaction on, the text of an answer is analyzed for personal data and
-- rewritten (crates/pii). The settings come from files and variables (crates/config), and a database can
-- be behind an SSH tunnel (crates/ssh). A library of its own traces the columns of a statement to the
-- tables that they come from (crates/sql-lineage). This library models these parts.
--
-- Sql (crates/sql/src)
--   Error is error.rs. Sanitize is `quote_ident` of sanitize.rs. Functions and Validation are
--   validation.rs: the lists of dangerous functions, `validate_read_only`, `validate_single_statement`
--   and `classify` with its two visitors. The parser is a parameter, the record `Parser`: what the code
--   matches a statement against, the nodes on which a visitor is called, in their order, and the parse
--   itself. `str::to_uppercase` is part of it, since it maps by the tables of Unicode. `classify`
--   recurses on fuel, one more than the depth of the statement; Sql.Validation.ReadOnly holds what
--   read-only mode is to let through, apart from the code.
--   Pagination is `with_limit_offset` of pagination.rs.
-- Server (crates/server/src)
--   Listing is listing.rs with the response type of types.rs. The fetch of a backend is an argument, and
--   so are the JSON and base64 libraries of the cursors. Numbers of 64 bits are in range; where the
--   source saturates, so does the model.
-- Pii (crates/pii/src)
--   Entity, Category, Score, Outcome and Result are the files of these names (Outcome is
--   validation.rs). A `Score` is the bits of its `f32`. Validators has a module for each file of
--   validators/. Recognizers is recognizers/mod.rs and the pattern type of pattern.rs: what a regular
--   expression matches is a parameter of its pattern. Context is context.rs, Words is words.rs, Analyzer
--   is analyzer.rs. Overlap is overlap.rs, Operators is operators/, Anonymizer is anonymizer.rs. An
--   analysis runs the recognizers, lifts the scores by context, drops what is below the least score and
--   resolves overlaps; `anonymize` resolves again and rewrites each survivor by its operator.
--   Ner is the decoder of ner.rs, from the tags of the tokens to spans; Rows makes the tags from the
--   logits of a row, over the arithmetic of `f32` and the answers of the tokenizer.
--   Redactor is redact.rs: Spans has the statistics and the rewriting of one string, Json the values of
--   an answer. A pointer into the rows is the positions on the way to a value, and the loop over the
--   stack of frames runs on fuel, the number of frames that the rows put on it. Walk has the recursive
--   traversal that the loop stands for, Redacts and Defers what becomes of the rows without an engine
--   and with one.
-- Config (crates/config/src)
--   Template is template.rs. An offset into the template is the text from there on; the functions that
--   call each other take `substitute` as an argument, which recurses on fuel. Dotenv is dotenv.rs, with
--   the values in Dotenv.Values; its loop over the statements runs on fuel as well.
-- Ssh (crates/ssh/src)
--   Tunnel is the connect of tunnel.rs, with the policy on host keys and the authentication; what the
--   server answers is a parameter. Session is the lock under which the callers share a session, as
--   steps of single callers in any order; Session.Flight follows callers that wait together, and
--   Session.Progress a single one on its way to an answer.
--   KnownHosts is known_hosts.rs, with `glob` in KnownHosts.Glob: its loop runs on fuel, the product of
--   the sizes of the text and of the pattern. KnownHosts.White has the white space of a line, whose
--   characters are their bytes. The parser of one entry and the check of a hashed name are parameters.
-- Lineage (crates/sql-lineage/src)
--   Model is model.rs with error.rs, Scope is scope.rs, Resolve is resolve.rs, Statement and Extract are
--   statement.rs and extract.rs. Ast is what these match on of the parser's syntax tree; an expression is
--   the calls of a visitor on it. The levels of nesting are counted down from the limit of the source,
--   so no other fuel is needed. A set is a list without equal elements.
--
-- A text is a list of numbers, its bytes where the code walks bytes or takes byte offsets, and its code
-- points where it walks `chars()`. A slice at a place where Rust panics has the value `none`, so that a
-- function that answers `some` has not panicked. A loop is recursion over its list, or on fuel that the
-- definition computes from its input: the distance to the end of the text in `safe_right_boundary`.
--
-- Backend (crates/mysql, and connection.rs, timeout.rs and tool.rs under it)
--   A run keeps the statements that were sent, with the transaction that each is in; what the driver
--   answers is a parameter. Mysql has the tools that take a statement or change the schema, Mysql.Calls
--   calls them by name over the registry that the mode allows, and Mysql.Guarded is what read-only mode
--   sends.
--
-- Not modelled: the rest of the configuration, the listener and the channels of the tunnels, the engine
-- that runs the named-entity model, and the conversion of SQL values. Left out: the listings of the
-- backends and the tools of PostgreSQL and SQLite, the schemas of the tools, and the command line.
pub mod Prelude
pub mod Sql
pub mod Server
pub mod Pii
pub mod Config
pub mod Ssh
pub mod Lineage
pub mod Backend
