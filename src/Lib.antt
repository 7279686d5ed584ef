-- ===== src/Lib.antt =====
-- Coldsnap: checkpoint and restore of inference engines on accelerators. This library models the
-- engine-neutral core of its Python code.
--
-- Base        types and lemmas that the parts share: raising code, keys and sets, sorted lists,
--             integers, texts, JSON values with the JSON and SHA-256 libraries as a parameter.
-- Memory      integrations/core/coldsnap_core/memory.py. Regions and capabilities, layout
--             descriptors, residency statistics, checkpoint plans, the agreement of the ranks'
--             plans and the admission of a provider's plan. A plan is created from layouts, each
--             rank admits its own, and the coordinator agrees on all of them.
-- Topology    integrations/core/coldsnap_core/topology.py. `execution_graph`, `worker_id`,
--             `global_rank` and `world_group`; a process finds its rank in the graph that the
--             environment holds.
-- Hydration   integrations/core/coldsnap_core/hydration.py. Extents with digests in hexadecimal, the
--             policies that choose a backend, and `hydrate` and `capture` around the calls of the
--             native library, which is a parameter, and its selection from the environment. A
--             capture's digests are the evidence that a later hydration is given.
-- Checkpoint  integrations/core/coldsnap_core/checkpoint.py. The registry that suspends resources in
--             order, rolls a failed preparation back and restores, and the search for io_uring
--             descriptors. The resources and what /proc shows are parameters.
-- Coordinator runtime/shared/coldsnap_coord.py. The client of the coordinator: endpoints and
--             addresses, the encoding of requests, the reads that frame a reply, the operations.
--             The network, the clock and the decoding of UTF-8 are parameters.
-- Validation  integrations/core/coldsnap_core/validation.py. Payloads that a cached record or a hash
--             accepts: digests, identities, records, hashing, the local validation, the command and RPC
--             transports and the admission that they return. The operating system, processes,
--             sockets, SHA-256 and JSON texts are parameters.
-- KvCapacity  integrations/vllm/coldsnap_vllm_kv_capacity.py. The guard on the size of an automatically
--             sized KV cache, the switch that enables it, and the hook around the worker's method; the
--             reservation and the import machinery are parameters.
-- Layout      integrations/vllm/coldsnap_layout.py. The allocation that a tensor lies in, fingerprints of
--             references and the map that places saved allocations in a fresh process; the walk that
--             finds a model's tensors is a parameter.
-- Lifecycle   runtime/engine/coldsnap_lifecycle.py. The sleep and wake protocol of a restored engine and
--             the evidence that its workers leave; the system, the network, the clock and JSON are
--             parameters.
--
-- A dataclass is a record, an enumeration a data type, a raise the `raised` of a `Result` with one
-- constructor for each place that raises; functions keep their names. `str` is the native text,
-- `int` an unbounded integer, a `set` a list compared as one, a `dict` a list of entries, a `Mapping`
-- of environment variables a function into options. Loops are structural recursions, so
-- the models are total, but for six with fuel: the digits of a number are written with as many rounds
-- as the number itself, which is enough since each divides it by ten, and `_recv_exact` has as many
-- rounds as bytes are asked for, which is enough since each receives one or raises, and the loop that
-- reads a file to hash it has a given number of rounds, of which more than the file has bytes are enough,
-- and the reply of the validation's RPC has more rounds than it may have bytes, and the two loops of
-- the lifecycle client that wait for a state or for health have a given number of rounds, of which one
-- more than the timeout has pauses are enough.
--
-- Not modelled: `isinstance` tests that the types of the model decide, floating-point numbers beyond
-- their place in JSON, `int()` of digits other than ASCII ones, attributes that are no dataclass
-- fields, and the memory protocols and the no-op controller, which hold no decisions. `json.dumps`,
-- `json.loads` and SHA-256 are parameters; what is used of them is that a written text reads
-- back as a value with the same text and that a later member of an object decides a repeated key.
pub mod Base
pub mod Checkpoint
pub mod Coordinator
pub mod Hydration
pub mod KvCapacity
pub mod Layout
pub mod Lifecycle
pub mod Memory
pub mod Topology
pub mod Validation
