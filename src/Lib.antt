-- ===== src/Lib.antt =====
-- causasv: exact Asymmetric Shapley Values over a causal DAG.
--
-- The crate takes a DAG (`Dag`, src/graph.rs) and a value function on coalitions of nodes, and
-- averages the marginal contributions of each node over the topological orders of the DAG
-- (src/topo.rs). `exact` goes through all orders; `exact_dag` (src/dag_dp.rs) counts them by
-- dynamic programming over bitmasks. Values of coalitions are kept in a cache (src/cache.rs).
--
-- Files:
--   Prelude: shared names, Boolean tests, lists and machine words over the native numbers, and sums.
--   Error: src/error.rs. `Result` has the outcomes `ok` and `err`; `panicked` for an `unwrap` of
--     nothing; and `out_of_fuel`, a loop of the model that stopped too early. `Error/Served` has the
--     outcomes other than `InvalidConfig`.
--   Graph: src/graph.rs. `Graph/Index` is the map from names to ids (the `indexmap` package), a
--     parameter with the laws that the code relies on; `Graph/WellFormed` the invariant of the
--     representation; `Graph/Induced` the function `induced_subgraph`.
--   Topo: src/topo.rs. `BinaryHeap<Reverse<NodeId>>` is the ascending list of its ids.
--     `Topo/Spec` says what a topological order is; `Topo/Kahn`, `Topo/Ends` and `Topo/Sort` are about
--     the queue loops of `topo_sort` and of `Dag::validate`; `Topo/Backtrack`, `Topo/Occurs` and
--     `Topo/Orders` about `enumerate_topos`.
--   Bits: `u64` masks as sets of bit positions, and the loops over the set bits.
--   Cache: src/cache.rs. The `HashMap` is an association list, latest entry first.
--   Numerics: src/numerics.rs and the floating-point operations, which are a parameter (`Float`).
--   Outcome: `AsvResult` of src/asv.rs.
--   DagDp: src/dag_dp.rs. `DagDp/Counting` is the number of linear extensions as a recursion on
--     the subset; `DagDp/Table` is about `compute_dp_ind`; `DagDp/Orders` relates it to
--     `enumerate_topos`.
--   DagDpSparse: src/dag_dp_sparse.rs; `DagDpSparse/Memo` is about `dp_ind_lazy`. A `HashMap` has one
--     entry for each key, and the order in which the program goes through it is a parameter.
--   Tree: src/tree.rs; `Tree/Exact` has `tree_exact_asv`, `Tree/Root` is about the root.
--   Coalition: src/coalition.rs, with the membership in `Coalition/Members`.
--   Sampler: the samplers of src/sampler.rs; the random generator (the `rand` package) is a parameter.
--     `Sampler/Frontier` is about `sample_one_into`, `Sampler/Choose` and `Sampler/Uniform` about one
--     choice of `sample_uniform_into` and `Sampler/Walk` about its whole run, `Sampler/Sparse` about
--     `sample_uniform_sparse_into`.
--   Cpdag: src/cpdag.rs; `Cpdag/Edges` is about what a `Cpdag` stores, `Cpdag/Induced` has the
--     induced subgraph and the hull. `Cpdag/Pairs`, `Cpdag/Candidate`, `Cpdag/Progress`,
--     `Cpdag/Rounds`, `Cpdag/Orient` and `Cpdag/Build` are about the parts of
--     `consistent_extension`, `Cpdag/Extension` about the whole of it and `Cpdag/Validate` about
--     the validation.
--   DConvex: src/d_convex.rs. `DConvex/Interface` is the set of ids (`IndexSet`, a parameter) and
--     `DConvex/Sets` what follows of it; `DConvex/Ancestors` is about the closure under parents,
--     `DConvex/Trace`, `DConvex/Path` and `DConvex/Shortest` about the search for a path,
--     `DConvex/Rounds`, `DConvex/Hull` and `DConvex/Strong` about the two hulls.
--   Approx: the estimators. Approx itself has the walk over one ordering and the adaptive loop,
--     `Approx/Masks` the coalitions of src/approx.rs as masks, `Approx/Fixed` the runs with a fixed
--     number of samples, `Approx/Moments` the sums over uniform orderings, `Approx/Estimators` and
--     `Approx/Uniform` the functions of src/approx.rs, `Approx/LargeCache` and `Approx/Large` those
--     of src/approx_large.rs. `Approx/Values`, `Approx/MaskValues`, `Approx/Batch`, `Approx/Keys`,
--     `Approx/LargeValues`, `Approx/Resolve` and `Approx/Evaluators` are about the ways to get the
--     values of coalitions, `Approx/Words` about masks and words, `Approx/Rounds` and
--     `Approx/FixedRuns` about the loops, `Approx/Backends`, `Approx/Adaptive`, `Approx/Workers`,
--     `Approx/OnDemand` and `Approx/Served` about whole estimators.
--   Asv: src/asv.rs. `Asv/ParentsMask` is `parents_mask` of `AsvExplainer::new`; `Asv/Exact` has the
--     explainer and its exact methods, `Asv/Auto` has `auto`, `Asv/Dispatch`
--     and `Asv/Labels` are about it, `Asv/Quality` has `auto_quality`; `Asv/Answers` has their common lemmas;
--     `Asv/Approximate` has the approximate methods, `Asv/Runs` puts `auto_quality` together with
--     those that it calls.
--   Examples: a sample graph and other inputs to which the theorems are applied.
--
-- Conventions. A node id (`u32`) is a number, and `as u32` keeps its `% 2 ^ 32`. `u64` and `usize`
-- are numbers too: `checked_add` is an Option, `-= 1` and `+= 1` wrap at 2 ^ 64, and `1 << i` takes
-- `i` modulo 64, as a release build does. Indexing reads a default out of range, where the program
-- panics; `IsWellFormed` is what keeps the ids of the adjacency lists in range. A `&mut` argument
-- is passed in and returned.
--
-- Fuel. The queue loops get one round for each node, since a node is queued at most once: the
-- results on `topo_sort` and `validate` leave no case for a loop that stopped early. The loops over
-- the bits of a `u64` get 64 rounds, since each round clears a bit. `dp_ind_lazy`
-- gets one unit more than its mask, since a nested call has a smaller mask. Recursion along the
-- edges of a tree gets as many units as there are nodes, and the searches over order ideals `1 << n`
-- rounds. The searches of src/d_convex.rs get a round for each node, since a node is queued at most
-- once, the adaptive estimators `max_samples` rounds and the batched ones `n_samples`, since each
-- round draws a sample, and the loop over the chunks of a batch as many rounds as it has keys.
--
-- Not modelled: the Python bindings (src/python.rs), which convert objects, and `normal_quantile`
-- (src/numerics.rs), which only they call. What the `rayon` package decides is a parameter: the
-- number of threads, the parts that an unseeded loop is split into, and the order of a reduction.
-- `auto` takes what `approximate` returns as a parameter, since that may run in threads.
pub mod Prelude
pub mod Error
pub mod Graph
pub mod Topo
pub mod Bits
pub mod Cache
pub mod Numerics
pub mod Outcome
pub mod DagDp
pub mod DagDpSparse
pub mod Tree
pub mod Coalition
pub mod Sampler
pub mod Cpdag
pub mod DConvex
pub mod Approx
pub mod Asv
pub mod Examples
