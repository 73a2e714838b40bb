-- ===== src/Document/Texts.antt =====
-- The texts and numbers of `make_docx`, as they stand there.
use mini2_anu_asim.Prelude.{ℕ, String, List, [], ◌∷◌}

-- A number of a row: an integer, or the literal m / 10 ^ k.
pub data Value : Type 0 where
  int : ℕ → Value
  float : ℕ → ℕ → Value

-- `CHUNKS`, `TOTAL_US`, `MEDIAN_US`, `P90_US` and `CV`.
abbrev pub chunks : List ℕ
chunks = 2000 ∷ 8000 ∷ 32000 ∷ 128000 ∷ 512000 ∷ []

abbrev pub total_us : List ℕ
total_us = 337844 ∷ 91303 ∷ 45748 ∷ 47482 ∷ 44046 ∷ []

abbrev pub median_us : List ℕ
median_us = 345594 ∷ 85771 ∷ 39882 ∷ 28276 ∷ 25782 ∷ []

abbrev pub p90_us : List ℕ
p90_us = 391651 ∷ 105447 ∷ 61045 ∷ 115303 ∷ 110104 ∷ []

abbrev pub cv : List Value
cv = float 14 2 ∷ float 16 2 ∷ float 26 2 ∷ float 74 2 ∷ float 80 2 ∷ []

-- The takeaways of Mini 1.
abbrev pub takeaways : List String
takeaways =
    "Use typed fields instead of strings for everything."
    ∷ "Avoid shared merge contention by gathering child replies into separate buffers."
    ∷ "Reserve or reuse storage where possible."
    ∷ "Report failures and limitations, not only successful timings." ∷ []

-- The course and lab ideas.
abbrev pub course_ideas : List String
course_ideas =
    "The basic-grpc lab shaped the protobuf/service structure and unary call pattern."
    ∷ "The leader-adv lab shaped A as the coordinator while B-I do shard work."
    ∷ "The socket interoperability lab made us treat the C++/Python 20-byte record layout as a contract."
    ∷ "Socket and messaging lectures motivated the chunk-size experiment."
    ∷ "The sharding lecture motivated splitting the binary data across B-I."
    ∷ "MPI round/baton-style labs influenced the fairness test." ∷ []

-- The questions and their answers.
abbrev pub questions : List (String × String)
questions =
    (
      "Performance/resources",
      "30-run chunk sweep measured total time, chunk count, avg RPC time, min RPC time, and max RPC time.",
    )
    ∷ (
      "Conserve memory",
      "20-byte typed records, explicit chunk offsets, and a 1 MB max chunk instead of unbounded responses.",
    )
    ∷ (
      "Fairness/balance",
      "Four-client run showed equal chunk turns, but not identical finish times.",
    )
    ∷ (
      "Flexible overlay",
      "Host/process/tree settings live in YAML; identity and config path are runtime arguments.",
    )
    ∷ ("No flat shortcut", "Final tree uses A -> B,H,G,I; B -> C,D,E; E -> F.")
    ∷ (
      "Request failure/abandonment",
      "Fail-fast before gather; cache-complete behavior after gather; no speculative prefetching because it would increase A memory pressure.",
    )
    ∷ []

-- `rows`.
abbrev pub rows : List (List Value)
rows =
    (int 2000 ∷ int 337844 ∷ int 800 ∷ int 422 ∷ [])
    ∷ (int 8000 ∷ int 91303 ∷ int 200 ∷ int 456 ∷ [])
    ∷ (int 32000 ∷ int 45748 ∷ int 50 ∷ int 914 ∷ [])
    ∷ (int 128000 ∷ int 47482 ∷ int 13 ∷ int 3652 ∷ [])
    ∷ (int 512000 ∷ int 44046 ∷ int 4 ∷ int 11011 ∷ [])
    ∷ []

-- `rows_tail`.
abbrev pub rows_tail : List (List Value)
rows_tail =
    (int 2000 ∷ float 3378 1 ∷ float 3456 1 ∷ float 3917 1 ∷ float 14 2 ∷ [])
    ∷ (int 8000 ∷ float 913 1 ∷ float 858 1 ∷ float 1054 1 ∷ float 16 2 ∷ [])
    ∷ (int 32000 ∷ float 457 1 ∷ float 399 1 ∷ float 610 1 ∷ float 26 2 ∷ [])
    ∷ (int 128000 ∷ float 475 1 ∷ float 283 1 ∷ float 1153 1 ∷ float 74 2 ∷ [])
    ∷ (int 512000 ∷ float 440 1 ∷ float 258 1 ∷ float 1101 1 ∷ float 80 2 ∷ [])
    ∷ []

-- `failures`.
abbrev pub failures : List String
failures =
    "Early per-RPC channel/stub setup made the prototype measure setup overhead too much. Child stubs are now created once during startup."
    ∷ "A streaming/async detour was abandoned because the final design needed unary gRPC and clearer failure behavior."
    ∷ "Old processes were already bound to ports 50051, 50052, and 50058, causing the client to hit the wrong server."
    ∷ "The first tree derivation only contacted B's subtree. The directed tree is now explicit in nodes.yaml."
    ∷ "Partial child failures could be cached. Child fetch failures now fail the request."
    ∷ "Client request ids were reused. They now include a per-run timestamp."
    ∷ "Python and C++ initially had to be checked carefully for exact binary record size and field order. The final record is a validated 20-byte layout."
    ∷ "The Python node failed under system Python without yaml. The launcher now uses venv/bin/python when available."
    ∷ "Host2 Homebrew Python loaded macOS's older libexpat, which broke ensurepip. We used Python 3.12 with Homebrew's expat path."
    ∷ "Node I initially used fallback sample data until we copied the real shards to host2 and restarted the node."
    ∷ "The first benchmark included one-record chunks, which was too slow for normal iteration. Tiny chunks are now opt-in."
    ∷ "Large requested chunks were clamped to 64 KB. The cap is now 1 MB."
    ∷ "With H down before a new request, the client fails clearly. If H dies after A has cached the gathered result, that same request can still finish from cache."
    ∷ []

-- The references.
abbrev pub references : List String
references =
    "NYC Open Data / Data.gov, 311 Service Requests from 2020 to Present: https://catalog.data.gov/dataset/311-service-requests-from-2010-to-present"
    ∷ "NYC Open Data, 311 Service Requests Updates: https://opendata.cityofnewyork.us/311-service-requests-from-2010-to-present-updates/"
    ∷ "gRPC, Performance Best Practices: https://grpc.io/docs/guides/performance/"
    ∷ "Protocol Buffers, Encoding: https://protobuf.dev/programming-guides/encoding/"
    ∷ "Protocol Buffers, Language Guide (proto3): https://protobuf.dev/programming-guides/proto3/"
    ∷ "Python struct documentation for the exact C++/Python binary record contract: https://docs.python.org/3/library/struct.html"
    ∷ "CMake add_custom_command documentation for generating protobuf/gRPC sources during the build: https://cmake.org/cmake/help/latest/command/add_custom_command.html"
    ∷ "gRPC C++ basics tutorial for protoc/grpc_cpp_plugin build pattern: https://grpc.io/docs/languages/cpp/basics/"
    ∷ "PyYAML documentation for loading YAML configuration on the Python node: https://pyyaml.org/wiki/PyYAMLDocumentation"
    ∷ "yaml-cpp project documentation for C++ YAML parsing: https://github.com/jbeder/yaml-cpp"
    ∷ "python-pptx documentation for generating the one-slide poster: https://python-pptx.readthedocs.io/"
    ∷ "Matplotlib barh documentation for the horizontal poster chart: https://matplotlib.org/stable/api/_as_gen/matplotlib.pyplot.barh.html"
    ∷ "AMD Vitis HLS Documentation, Data Structure Padding: https://docs.amd.com/r/2024.1-English/ug1399-vitis-hls/Data-Structure-Padding"
    ∷ "Course lectures on messaging/socket costs, sharding, parallelism, failure behavior, and benchmarking."
    ∷ "Course labs covering basic gRPC, leader coordination, MPI round/baton behavior, and sockets."
    ∷ []
