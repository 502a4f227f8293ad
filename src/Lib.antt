-- ===== src/Lib.antt =====
-- fVDB: sparse convolution planning, the part of the Python library that decides whether and how a
-- convolution between two sparse voxel grids is run, and that reports which rows it covers; the
-- conversion of arguments; the fetching of data snapshots; the dispatch of jagged tensors;
-- and the check of the runner token's policy.
--
-- The program. A caller gives fvdb/convolution_plan.py a source grid, a kernel size, a stride and
-- perhaps a target grid. `ConvolutionPlan.from_grid_batch` and `from_grid_batch_transposed` resolve
-- the topology policy, try a short circuit for the identity kernel, make or take the target, compare
-- the transforms of the two grids, warn of a geometry that leaves stride residues out, build a backend
-- with its rulebook, and check the coverage of the output; `from_plan_transposed` turns a plan into its
-- exact transpose, which shares the plan's cache of the coverage report.
--
-- The modules.
-- - Prelude: shared names, Python's integers and exceptions, floor division, sets of numbers.
-- - Convolution.Vectors, Convolution.Geometry: triples, and `ConvolutionGeometry` of
--   src/fvdb/detail/ops/convolution/ConvolutionGeometry.h as Python sees it. Its sizes are narrowed to the
--   32 bits of a coordinate, as `pyToCoord` of src/python/Bindings.cpp does; the kernel's volume is an int64,
--   and the constructor's overflow check is kept.
-- - Convolution.Policy: the enums of fvdb/enums.py, and `_resolve_topology_policy`.
-- - Convolution.Residues: `_warn_if_incomplete_residue_coverage`, with the set of geometries that have
--   been warned of passed along.
-- - Convolution.Coverage: the backends, `_coverage_report`, `_degree_summary`,
--   `_swap_coverage_report`, `_output_zero_count`, `_validate_coverage_policy`, and the cache
--   `_CoverageReportCache` as a step relation on threads that share it: each access of a field and each
--   step of the lock is one step, and any thread may take the next one.
-- - Convolution.Natives: what the plan calls outside this code. Convolution.Compatibility:
--   `_transform_compatibility` and its validation. Convolution.Admission: channel pairs and the
--   admission tests of the PredGatherIGemm backend.
-- - Convolution.Plan: the plan, its factories, and what holds of every plan that they make. A factory is
--   a function from the set of warned geometries to a result or an exception and the set afterwards.
--   Convolution.Plan.Execute: `valid_usage` and `execute`.
-- - Oracle: the scalar relation of fvdb/utils/tests/convolution_semantics_oracle.py, against which the
--   meaning of a geometry is stated, with its enumeration of edges and its degrees.
-- - Types: the conversion of kernel sizes and strides of fvdb/types.py, `to_Vec3i` and what it calls,
--   for the default dtype int64, its variants for other sizes and for batches, and `resolve_device`;
--   Types.Vec3i fills the interface through which a plan uses it.
-- - DataRepo: fvdb/utils/_data_repo.py, by which tests and examples fetch a snapshot of a data
--   repository. DataRepo.Text: texts as lists of code points. DataRepo.Names: the two regular
--   expressions, `local_repo_path`, `_resolve_revision`. DataRepo.Tree: files and directories, and
--   `_current_revision`. DataRepo.Snapshot: `_checked_members` and `_extract_snapshot`. DataRepo.Fetch:
--   `fetch_data_repo` as actions on the destination, the staging directory and the downloads, with what
--   other processes do to the destination between its accesses as a parameter.
-- - TokenPolicy: .github/scripts/check_runner_token_policy.py, which keeps the token of the runner's
--   action to its uses. TokenPolicy.Yaml: what the YAML library gives of a workflow.
--   TokenPolicy.Lines: the regular expressions on a line; of `\b` the word characters of ASCII are
--   read. TokenPolicy.Jobs and TokenPolicy.Workflow: `check_workflow_file`, for one job and for a
--   file. TokenPolicy.Run: `check_no_leaks_outside_workflows` and `main`.
-- - Jagged: the dispatch of fvdb/jagged_tensor.py, `JaggedTensor.__torch_function__`, from the objects
--   that a function of torch is called with to those it returns. The native jagged tensors and the
--   function are parameters; the state that functions of torch read and write is passed along.
-- - Modules: the sparse convolution modules of fvdb/nn/modules.py, `SparseConv3d` and
--   `SparseConvTranspose3d`, which make weights and run them by a plan that `valid_usage` accepts;
--   Modules.Prune: `Prune`, which checks that features and a mask are parted like their grid;
--   Modules.Pooling: the sizes of the pooling and upsampling modules.
-- - Examples: concrete parameters, tests, and instances of the theorems.
--
-- Parameters. torch's arithmetic on transforms, grids, generated targets and the rulebook builders are
-- the record `Natives`; torch's operations on index tensors are the record `IndexTensors`, with what
-- torch documents of them; `to_Vec3i` is the record `PositiveVec3i`, which Types.Vec3i fills
-- over the record `Numbers` of torch's conversions of numbers; features, weights and the native
-- convolutions are the record `Executors`, and what the modules add to it the records `Layers`
-- and `Partitions`; reading an archive is the record `TarFile`, and the answers of GitHub are functions;
-- jagged tensors and the shapes of tensors are the record `Torch`; `yaml.safe_dump` is the record `Dump`,
-- and `yaml.safe_load`, the presence of a file, the order of keys, the output of git and the truth of a
-- Python value are arguments. Examples gives values to all of them.
--
-- Numbers are unbounded as in Python, but for the narrowed sizes of a geometry and the volume of a
-- module's kernel, which wrap around; a size that Python code converted is positive and has 63 bits;
-- fractions of a report are kept as a numerator and a denominator where Python stores a float. All
-- loops are structural, so no fuel is used. The second `self._lock` block of the cache is entered by
-- a thread that has left the first.
--
-- Files that are not UTF-8, on whose reading Python raises, are left out.
--
-- Not modelled: the messages of exceptions and warnings, the device kernels, the gradients, the
-- classes over native grids, the other methods of jagged tensors, the viewer, and the numerical code that
-- only calls torch.
pub mod Prelude
pub mod Convolution
pub mod Oracle
pub mod Types
pub mod DataRepo
pub mod TokenPolicy
pub mod Jagged
pub mod Modules
mod Examples
