-- ===== src/Examples/Modules.antt =====
-- Tests of the sparse convolution modules, and an instance of their theorem. Features and weights are
-- shapes.
use fvdb_core.Prelude.{
  inl, ◌-◌, ◌↔◌, ℕ, ◌≡◌, ◌<◌, refl, ap, none, some, true, false, List, [], ◌∷◌, arith, length, ◌==◌,
  if◌then◌else◌,
}
use fvdb_core.Prelude.Floor.{floor_mod}
use fvdb_core.Prelude.Sets.{add}
use fvdb_core.Prelude.Results.{Result, ok, raise, runtime_error, value_error, zero_division_error}
use fvdb_core.Convolution.Vectors.{Kernel, vec3, All3}
use fvdb_core.Convolution.Geometry.{
  convolution_geometry, checked_kernel_volume, checked_times, to_int32,
}
use fvdb_core.Convolution.Residues.{
  residue, residues, uncovered_axes, warn_if_incomplete_residue_coverage,
}
use fvdb_core.Convolution.Policy.{resolve_topology_policy}
use fvdb_core.Convolution.Coverage.Backend.{Backend}
use fvdb_core.Convolution.Coverage.Report.{output_zero_count, validate_coverage_policy}
use fvdb_core.Convolution.Compatibility.{transform_compatibility, validate_transform_compatibility}
use fvdb_core.Convolution.Admission.{check_channel_pairs, channel_pair_supported}
use fvdb_core.Convolution.Plan.Types.{ConvolutionPlan}
use fvdb_core.Convolution.Plan.Build.{rulebook_backend, build_backend, identity_matmul_plan}
use fvdb_core.Convolution.Plan.Factories.{admit, general_plan, make_plan, from_grid_batch}
use fvdb_core.Convolution.Plan.Execute.{
  Executors, jagged, valid_usage, weight_channels, run_backend, execute,
}
use fvdb_core.Modules.{Layers, SparseConvModule, make_module, sparse_conv3d_forward, forward_of}
use fvdb_core.Modules.Prune.{
  Partitions, check_partitioned_like, IsPartitionedLike, check_partitioned_like-ok_iff,
}
use fvdb_core.Modules.Forward.{convolved, forward-convolved}
use fvdb_core.Examples.Torch.{torch_tensors}
use fvdb_core.Examples.Grids.{
  toys, vec3i, checked_vec3i, fine_grid, coarse_grid, plain_options, toy_topology,
}
use fvdb_core.Examples.Plans.{down}
use fvdb_core.Examples.Usage.{leading, product_shape, shapes, down-IsPlan, down-accepted}

abbrev reversed : List ℕ → List ℕ
reversed (a ∷ b ∷ c ∷ d ∷ e ∷ []) = e ∷ d ∷ c ∷ b ∷ a ∷ []
reversed w = w

checked_vec3i-kept : (k : Kernel) → All3 (λ n. 0 < n) k → checked_vec3i k ≡ ok k
checked_vec3i-kept k h = ground arith

abbrev layers : Layers toys shapes vec3i
layers = record {
  zeros = λ s. s;
  permute = reversed;
  uniform = λ n w. w;
  add = λ x b. ok x;
  set_jdata = λ j x. ok x;
  argument = λ k. k;
  zeros_shape = λ s. refl;
  permute_shape = λ w a b c d e h. ap reversed h;
  uniform_shape = λ n w. refl;
  argument_converts = checked_vec3i-kept;
}

abbrev conv : SparseConvModule toys shapes vec3i layers
conv = record {
  in_channels = 8;
  out_channels = 16;
  kernel_size = vec3 3 3 3;
  stride = vec3 2 2 2;
  weight = 16 ∷ 8 ∷ 3 ∷ 3 ∷ 3 ∷ [];
  bias = some (16 ∷ []);
}

conv-made : make_module toys shapes vec3i layers 8 16 (vec3 3 3 3) (vec3 2 2 2) true ≡ ok conv
unfolding make_module
conv-made = refl

no_channels :
    make_module toys shapes vec3i layers 0 16 (vec3 3 3 3) (vec3 2 2 2) true
    ≡ raise zero_division_error
unfolding make_module
no_channels = refl

forward-convolved_example :
    forward_of toys shapes vec3i layers false conv (jagged (3 ∷ 8 ∷ [])) down
    ≡ convolved toys shapes vec3i layers conv (3 ∷ 8 ∷ []) down true
forward-convolved_example =
    forward-convolved toys shapes vec3i layers 8 16 (vec3 3 3 3) (vec3 2 2 2) true conv down
      (3 ∷ 8 ∷ []) false true conv-made down-IsPlan (inl refl) down-accepted

-- A volume of 2 ^ 64 wraps around to none.
no_volume :
    make_module toys shapes vec3i layers 8 16 (vec3 4194304 2097152 2097152) (vec3 2 2 2) true
    ≡ raise zero_division_error
unfolding make_module
no_volume = refl

-- The native convolution, which wants weights of five dimensions.
abbrev strict_conv : List ℕ → List ℕ → Result (List ℕ)
strict_conv x w = if length w == 5 then ok (product_shape x w) else raise runtime_error

abbrev strict : Executors toys
strict = record {
  X = List ℕ;
  J = List ℕ;
  shape = λ x. x;
  first_tap = leading;
  matmul_transposed = λ x w. ok (product_shape x w);
  to_jagged = λ x. x;
  jdata = λ j. j;
  jagged_like = λ j x. ok x;
  grid_jagged_like = λ g x. ok x;
  gs_conv = λ x w t. strict_conv x w;
  gs_conv_transpose = λ x w t. strict_conv x w;
  pred_gather_igemm_conv = λ x w g h k s. strict_conv x w;
  first_tap_shape = λ w o i a b c e h. ap leading e;
}

abbrev strict_layers : Layers toys strict vec3i
strict_layers = record {
  zeros = λ s. s;
  permute = reversed;
  uniform = λ n w. w;
  add = λ x b. ok x;
  set_jdata = λ j x. ok x;
  argument = λ k. k;
  zeros_shape = λ s. refl;
  permute_shape = λ w a b c d e h. ap reversed h;
  uniform_shape = λ n w. refl;
  argument_converts = checked_vec3i-kept;
}

-- A kernel of one tap, and a stride of two.
abbrev thin : ConvolutionPlan toys
thin = record down {
  geometry = record {
    kernel_size = vec3 1 1 1;
    stride = vec3 2 2 2;
    padding_before = vec3 0 0 0;
    padding_after = vec3 0 0 0;
    kernel_volume = 1;
  };
  backend =
      Backend.gather_scatter (toy_topology false fine_grid coarse_grid (vec3 1 1 1) (vec3 2 2 2));
  coverage_report_cache = record {
    cached_backend =
        Backend.gather_scatter (toy_topology false fine_grid coarse_grid (vec3 1 1 1) (vec3 2 2 2));
    cached_source = fine_grid;
    cached_target = coarse_grid;
  };
}

thin-made :
    (from_grid_batch toys torch_tensors vec3i
      (vec3 1 1 1)
      (vec3 2 2 2)
      fine_grid
      none
      plain_options
      []).0
    ≡ ok thin
unfolding from_grid_batch make_plan admit general_plan identity_matmul_plan build_backend
    rulebook_backend convolution_geometry checked_kernel_volume checked_times to_int32
    transform_compatibility validate_transform_compatibility check_channel_pairs
    validate_coverage_policy output_zero_count resolve_topology_policy
    warn_if_incomplete_residue_coverage uncovered_axes residues residue add floor_mod
thin-made = refl

abbrev thin_conv : SparseConvModule toys strict vec3i strict_layers
thin_conv = record {
  in_channels = 8;
  out_channels = 16;
  kernel_size = vec3 1 1 1;
  stride = vec3 2 2 2;
  weight = 16 ∷ 8 ∷ [];
  bias = none;
}

thin_conv-made :
    make_module toys strict vec3i strict_layers 8 16 (vec3 1 1 1) (vec3 2 2 2) false ≡ ok thin_conv
unfolding make_module
thin_conv-made = refl

-- The module accepts the plan of its own sizes, and its weights have two dimensions.
thin_refused :
    sparse_conv3d_forward toys strict vec3i strict_layers thin_conv (jagged (3 ∷ 8 ∷ [])) thin
    ≡ raise runtime_error
unfolding sparse_conv3d_forward valid_usage channel_pair_supported execute weight_channels
    run_backend
thin_refused = refl

-- Grids are the offsets of their voxels, and tensors those of their rows with the number of rows.
abbrev offsets : Partitions
offsets = record {
  GridBatch = List ℕ;
  JaggedTensor = List ℕ × ℕ;
  ldim = λ t. 1;
  num_tensors = λ t. length t.0 - 1;
  rows = λ t. t.1;
  joffsets = λ t. t.0;
  grid_count = λ g. length g - 1;
  total_voxels = λ g. 5;
  grid_joffsets = λ g. g;
  shares_offsets = λ t g. false;
  pruned_grid = λ g t. ok g;
  rmask = λ t m. ok t;
  shares_offsets-joffsets = λ t g h. absurd (cc h);
}

-- The same number of rows, parted in another way.
shifted_refused :
    check_partitioned_like offsets (0 ∷ 2 ∷ 5 ∷ []) (0 ∷ 3 ∷ 5 ∷ [], 5) ≡ raise value_error
unfolding check_partitioned_like
shifted_refused = refl

check_partitioned_like-ok_iff_example :
    (check_partitioned_like offsets (0 ∷ 2 ∷ 5 ∷ []) (0 ∷ 2 ∷ 5 ∷ [], 5) ≡ ok tt)
    ↔ IsPartitionedLike offsets (0 ∷ 2 ∷ 5 ∷ []) (0 ∷ 2 ∷ 5 ∷ [], 5)
check_partitioned_like-ok_iff_example =
    check_partitioned_like-ok_iff offsets (0 ∷ 2 ∷ 5 ∷ []) (0 ∷ 2 ∷ 5 ∷ [], 5)
