-- ===== src/Lib.antt =====
-- stable-mir-json runs rustc on a crate, collects the items that are compiled, analyses the body of
-- each one once, and prints items, functions, allocations and types as JSON or as a graph.
--
-- Mir holds the data of rustc's `stable_mir` library that the program matches on. Compiler is the
-- record of the queries that the program makes to rustc and to that library. Neither is code of the
-- repository: the queries are parameters of every definition that uses them. What the program
-- relies on is stated as hypotheses: IsDocumented, IsRank and IsSearchable of Printer/Prov/Total
-- (types contain each other in a well-founded way, a struct has one variant, and `builtin_deref`
-- answers on pointers; a layout query may panic; the types that are met are of ranks below the
-- fuel), IsUniverse of Printer/Allocs/Finite (finitely many allocations), IsTyUniverse and
-- IsStructureRank of Printer/TyVisitor/Ends (finitely many types, where what a type is built from
-- is of lower rank), IsNameUniverse of Printer/Collect/Ends (finitely many names of constants), and
-- IsFinite and IsEnough of Printer/Analyzer/Ends, which gather these with the bodies of instances
-- and the fuel.
--
-- Parts, with the files of the repository they are about:
-- Prelude: shared helpers, with maps, text and results that may be a panic.
-- Printer/Schema: src/printer/schema.rs and src/compat/bridge.rs, keys and symbols.
-- Printer/LinkMap: src/printer/link_map.rs, `fn_inst_sym` and `update_link_map`.
-- Printer/Prov: src/printer/mir_visitor.rs, `get_prov_ty` and the choice of a field.
-- Printer/Allocs: src/printer/mir_visitor.rs, `collect_alloc`, and `AllocMap` of schema.rs.
-- Printer/TyVisitor: src/printer/ty_visitor.rs, `TyCollector`.
-- Printer/Items: src/printer/items.rs, `mk_item`.
-- Printer/Analyzer: src/printer/mir_visitor.rs, `BodyAnalyzer`.
-- Printer/Coherence: src/printer/schema.rs, `verify_coherence`.
-- Printer/Collect: src/printer/collect.rs, the work queue and the loop over it.
-- Printer/Assemble: src/printer/collect.rs, `assemble_smir` and `collect_smir`, and the output types
-- and the order of items of schema.rs.
-- Graph: src/mk_graph/: labels, indices and contexts, layouts of types (Layout), D2 texts (D2) and
-- the DOT graph (Dot).
-- Cargo: src/bin/cargo_stable_mir_json.rs, the installation of the built artefacts.
-- Driver: src/main.rs, src/driver.rs, src/compat/output.rs and the entry points of
-- src/printer/mod.rs and src/mk_graph/mod.rs, from the arguments to the output file.
-- Generics: src/compat/types.rs, the walk of `generic_data` over the scopes of a definition.
-- FileSystem: the file system that Cargo and Driver write to.
-- Tests: a small crate, and the theorems applied to it.
--
-- The analysis threads one record, `Collected`, through the calls that in the source share mutable
-- references: the link map, the allocation map, the types, the spans and the constants found. The
-- visits of a body come in the order of the library's traversal, which is a query. Code that may
-- panic has a result in `Outcome`. Overflow checks are those of a debug build, as are the fields of
-- `AllocMap` that count insertions. HashMaps are association lists. The order in which the loop takes
-- items is an argument, and the theorems hold for each one. In the assembly the entries of a map come
-- in the order of its association list, and the theorems compare any two orders. Sorting is by
-- comparisons that Prelude/Orders shows to be orders, with the stable sort of Prelude/Sorting.
-- A DOT graph is the list of calls that the code makes to the writer. The file system
-- is a function from paths to entries, which each operation returns changed. What rustc makes of its
-- arguments, the texts that serde_json and dot_writer make, and how much of a text the operating
-- system takes when it is written, are parameters of Driver.
--
-- Recursion that is not structural has fuel. The fuel of `get_prov_ty` is enough above the rank of the
-- type, that of `collect_alloc` above the number of allocations not yet recorded, and that of
-- `visit_ty` above the types not yet seen times one more than the highest rank, and the rank of the
-- type. The fuel of the loop bounds its rounds, one for each item: it is enough above the items at
-- the start and the names of constants together.
--
-- Not modelled: serialization, the reading of environment variables, the text that the package
-- dot_writer makes of a graph, debug output, what rustc does besides the callback, and the
-- wrappers of rustc in src/compat other than the output path and `generic_data`. Refusals by the
-- operating system are no outcome of the installation; of the driver they are in that a file is not
-- created without its directory, and in that a write may fail, or lose the end of the text unseen.

pub mod Cargo
pub mod Compiler
pub mod Driver
pub mod FileSystem
pub mod Generics
pub mod Graph
pub mod Mir
pub mod Prelude
pub mod Printer
pub mod Tests
