-- ===== src/Examples/Grids.antt =====
-- Small concrete values for the parameters of the plan's model: grids of one batch entry whose
-- transform is one number, with rulebooks written out.
use fvdb_core.Prelude.{
  ℕ, ◌+◌, ◌-◌, ◌*◌, ◌/◌, ◌≡◌, Bool, true, false, not, [], ◌∷◌, if◌then◌else◌, ◌==◌, ==_refl, arith,
  ◌<◌,
}
use fvdb_core.Prelude.Results.{Result, ok, raise, value_error}
use fvdb_core.Convolution.Vectors.{Kernel, any3, All3}
use fvdb_core.Convolution.Policy.{omitted}
use fvdb_core.Convolution.Coverage.Backend.{GatherScatterDefaultTopology}
use fvdb_core.Convolution.Natives.{Natives}
use fvdb_core.Convolution.Admission.{pair}
use fvdb_core.Prelude.Int.{pos}
use fvdb_core.Convolution.Plan.Types.{PositiveVec3i, Options, BackendName}

pub record ToyGrid : Type 0 where
  pub key : ℕ
  pub voxels : ℕ
  pub voxel_size : ℕ
  pub cuda : Bool

abbrev pub same_bool : Bool → Bool → Bool
same_bool true b = b
same_bool false b = not b

-- Three fine rows, of which the first two go to the first coarse row.
abbrev pub toy_topology : Bool → ToyGrid → ToyGrid → Kernel → Kernel → GatherScatterDefaultTopology
toy_topology transposed source target k s = record {
  gather_indices = 0 ∷ 1 ∷ 2 ∷ [];
  scatter_indices = 0 ∷ 0 ∷ 1 ∷ [];
  offsets = [];
  feature_total_voxels = source.voxels;
  output_total_voxels = target.voxels;
  kernel_volume = k.x * k.y * k.z;
  total_pairs = 3;
  kernel_size = k;
  stride = s;
  is_transposed = transposed;
}

pub ==_sym : (a b : ℕ) → (a == b) ≡ (b == a)
==_sym a b = ground arith

abbrev pub toys : Natives
toys = record {
  Tensor = ℕ;
  mul = ◌*◌;
  sub = ◌-◌;
  div = ◌/◌;
  round = λ t. t;
  zeros_like = λ t. 0;
  stride_like = λ s t. s.x;
  close = ◌==◌;
  all_finite = λ t. true;
  all_nonzero = λ t. not (t == 0);
  zeros = λ n. 0;
  GridBatch = ToyGrid;
  Device = Bool;
  grid_count = λ g. 1;
  total_voxels = λ g. g.voxels;
  device = λ g. g.cuda;
  device_eq = same_bool;
  is_cuda = λ d. d;
  voxel_sizes = λ g. g.voxel_size;
  origins = λ g. 0;
  is_same = λ g h. g.key == h.key;
  conv_grid = λ g k s.
      ok (record { key = g.key + 1; voxels = 2; voxel_size = g.voxel_size * s.x; cuda = g.cuda });
  conv_transpose_grid = λ g k s.
      ok (record { key = g.key + 1; voxels = 2; voxel_size = g.voxel_size / s.x; cuda = g.cuda });
  gs_build_topology = λ g h k s. ok (toy_topology false g h k s);
  gs_build_transpose_topology = λ g h k s. ok (toy_topology true g h k s);
  is_same_refl = λ g. ==_refl g.key;
  is_same_sym = λ g h. ==_sym g.key h.key;
}

abbrev pub checked_vec3i : Kernel → Result Kernel
checked_vec3i v = if any3 (λ n. n == 0) v then raise value_error else ok v

pub checked_vec3i-positive : (a v : Kernel) → checked_vec3i a ≡ ok v → All3 (λ n. 0 < n) v
checked_vec3i-positive a v e = ground arith

abbrev pub vec3i : PositiveVec3i
vec3i = record { Argument = Kernel; to_Vec3i = checked_vec3i; positive = checked_vec3i-positive }

abbrev pub fine_grid : ToyGrid
fine_grid = record { key = 1; voxels = 3; voxel_size = 4; cuda = false }

abbrev pub coarse_grid : ToyGrid
coarse_grid = record { key = 2; voxels = 2; voxel_size = 8; cuda = false }

abbrev pub plain_options : Options
plain_options = record {
  backend_name = BackendName.default;
  channel_pairs = pair (pos 8) (pos 16) ∷ [];
  topology_policy = omitted;
  strict_output_coverage = false;
  acknowledge_incomplete_coverage = false;
}
