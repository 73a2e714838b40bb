-- ===== src/Lib.antt =====
-- A distributed query system over NYC 311 service requests. scripts/make_shards.py turns the rows of
-- a CSV file into records of 20 bytes and deals them to nine shard files. Each team node of the
-- cluster serves one shard: src/python_server/server.py is such a node, and
-- src/team_node/team_node.cpp is another. The nodes form a tree, which the configuration lists or an
-- overlay and a leader imply; a call of `Fetch` at a node returns the
-- node's shard and what the calls at its children return. The leader at the root calls its children
-- in the same way and serves no shard itself: src/leader/leader_node.cpp joins what they return,
-- caches it by request, and sends it to clients in pages, one call of `QueryOnce` for each, while its
-- `FairQueue` lets one call in at a time. The client, src/client/main.cpp, calls it until a reply says
-- that there is no more, and reads the records from the bytes.
--
-- Which file models what:
-- - Struct: `struct.pack` at the format "<iffIHBB" of both scripts, with its range errors.
--   Struct/Layout is the packed C++ struct `Record` and the loop of the client that reads it.
-- - Shards/Search, Shards/Strptime, Shards/Fields: the cells of a row. `parse_year`, `parse_zip`,
--   `parse_float`, `code` and `row_to_record` keep their names; `re.search`, `datetime.strptime` at
--   the three formats and `int(text)` are written out on lists of code points.
-- - Shards/Deal: `main` of make_shards.py. `Shards` is the pair of `files` and `counts`, `deal` the
--   loop, `deal_one` one round of it, and `report` what is printed.
-- - Node/Config: the configuration and `_node_endpoint`. Node/Tree: `_build_children`; `grow` is the
--   loop over the queue, `visit` and `offer` the loop over the neighbours, `link` the last loop.
-- - Node/Payload: `_load_shard_payload`, `_build_fallback_payload` and the choice of `__init__`.
-- - Node/Servicer: `TeamServicer`; `init` is `__init__`, `fetch` is `Fetch`, `gather` its loop over
--   the children, and `average_us` the figure that `serve` prints at the end.
-- - Node/Serve: `serve`; its pool of threads leaves the counters as an interleaving of Node/Counters does.
-- - Node/Counters: the two counters of a `TeamServicer` whose calls run in several threads.
-- - Node/Cluster: a tree of Python nodes that call each other.
-- - Node/Deploy: the nodes that a table of children starts: Node/Deploy/Derived for the table of an overlay,
--   Node/Deploy/Explicit for one in the configuration.
-- - Rpc: the stubs and the registrations of src/python_server/cluster_pb2_grpc.py over the gRPC library
--   and the serialisers, which are parameters.
-- - Leader/Pages: the arithmetic of `QueryOnce`. Leader/Handler: `LeaderServiceImpl`; `query_once` is
--   `QueryOnce` behind `acquire`, `call_once` the whole of it, and `reap` a round of the reaper.
-- - Leader/Queue: `FairQueue`. Leader/Queue/Threads: threads that go through it, as a step relation.
-- - Cluster: `ClusterConfig` of src/common/config.hpp, as far as the tree goes; `load_tree` is `load` from
--   the overlay on, and `load_nodes` in Cluster/Nodes what comes before. `buildTree` holds a reference into
--   a vector that it grows; `moves` says at which sizes `push_back` moves the elements, and a read of the
--   reference behind such a move is the error `dangling_reference`.
-- - Team: `TeamServiceImpl` of src/team_node/team_node.cpp; `fetch_all` is its `Fetch`. Team/Payload is its
--   `loadShardPayload`, and Team/Mixed a tree of nodes of both kinds.
-- - Client: the loop of src/client/main.cpp over the pages. Client/Timing: the times that it keeps of its
--   calls.
-- - System: the programs together, from the rows of the CSV file to the decoded answer, at a team node
--   and, in System/Paging, at the leader. System/Deployed goes from a
--   configuration without an explicit tree to the client's records, and System/Listed from one with.
-- - Document: `add_heading` and `add_para` of scripts/generate_submission_docs.py over python-docx, which is
--   the record `Docx` of operations and laws. Document/Texts has the texts and numbers of `make_docx`, and
--   Document/Report `make_docx` in parts. Its tables are compared with the client's paging.
-- - Poster: the slide of `make_poster` of the same script over python-pptx, which is the record `Pptx`, with
--   `rgb`, `add_box`, `add_text`, `add_line` and `add_node`. Poster/Upper and Poster/Steps have its
--   statements in parts, and Poster/Notes the notes of the speaker. A length is a decimal number of
--   inches; what python-pptx makes of it is known up to the rounding of the floating point number.
-- - Prelude: numbers, texts, dictionaries, exceptions as values, paths. Tests: concrete inputs.
--
-- Conventions and bounds: an exception is a value of `Result`; a Python `dict` is an association
-- list in insertion order; a byte is a number below 256. Python's integers are unbounded, and the
-- ranges of the packed fields are written out as powers of 2. `grow` is given one round for the
-- leader and one for each end of an edge; the search visits a node at most once, so this is enough.
-- `client_loop` is given a number of rounds; `page_count` of them are enough. The offsets and sizes of
-- the leader's pages are C++ `int`s, and the model says where one leaves its range; the counters of
-- its queue are unbounded.
--
-- Parameters: floating point numbers (record `Floats`), the Unicode tables (record `Unicode`, which
-- says only what holds in ASCII), the file system, the environment, what a stub's call returns, and
-- whether a call is still active; in Cluster also when a `std::vector` moves its elements, in Rpc the
-- gRPC library, in Document python-docx and `str`, and in Poster python-pptx and `int(text, 16)`. The
-- rows are those that `csv.DictReader` yields.
--
-- Between two calls of the client the other clients' calls come one behind the other; calls that wait
-- at the same time are in Leader/Queue/Threads, apart from what they do once they are let in.
--
-- Not modelled: the sample records of the C++ team node, the threads in which the leader calls its
-- children (it joins all of them before it looks at their results), what is printed on the way,
-- argument parsing, and the charts of the generator of the report, which matplotlib draws into files.
pub mod Prelude
pub mod Struct
pub mod Shards
pub mod Node
pub mod Rpc
pub mod System
pub mod Leader
pub mod Cluster
pub mod Team
pub mod Client
pub mod Document
pub mod Poster
mod Tests
