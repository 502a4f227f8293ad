-- ===== src/Convolution/Compatibility.antt =====
-- The lattice registration diagnostic of fvdb/convolution_plan.py.
use fvdb_core.Prelude.{
  ℕ, ◌≡◌, ◌≢◌, ◌↔◌, Bool, true, false, not, ◌&&◌, ◌||◌, Option, none, some, if◌then◌else◌, ◌==◌,
  arith,
}
use fvdb_core.Prelude.Results.{Result, ok, raise, value_error, runtime_error, raise_if, ◌>>◌}
use fvdb_core.Convolution.Vectors.{Kernel}
use fvdb_core.Convolution.Geometry.{ConvolutionGeometry}
use fvdb_core.Convolution.Natives.{Natives}

pub record ConvolutionTransformCompatibility (Tensor : Type 0) : Type 0 where
  pub fine_grid_count : ℕ
  pub coarse_grid_count : ℕ
  pub same_batch_size : Bool
  pub same_device : Bool
  pub scale_compatible : Bool
  pub registration_integer : Bool
  pub registration_zero : Bool
  pub compatible : Bool
  pub registration_offset : Option Tensor

module _ (N : Natives) where
  open N use {
    Tensor, mul, sub, div, round, zeros_like, stride_like, close, all_finite, GridBatch, grid_count,
    device, device_eq, voxel_sizes, origins,
  }

  abbrev pub Compatibility : Type 0
  Compatibility = ConvolutionTransformCompatibility Tensor

  -- `(coarse_origins - fine_origins) / fine_voxel_sizes`
  abbrev pub registration : GridBatch → GridBatch → Tensor
  registration fine coarse = div (sub (origins coarse) (origins fine)) (voxel_sizes fine)

  abbrev pub is_scaled : GridBatch → GridBatch → Kernel → Bool
  is_scaled fine coarse stride =
      close (voxel_sizes coarse) (mul (voxel_sizes fine) (stride_like stride (voxel_sizes fine)))

  -- `_transform_compatibility`
  unfoldable pub transform_compatibility :
      GridBatch → GridBatch → ConvolutionGeometry → Compatibility
  transform_compatibility fine coarse geometry =
      let same_batch_size = grid_count fine == grid_count coarse in
      let same_device = device_eq (device fine) (device coarse) in
      let scaled = is_scaled fine coarse geometry.stride in
      let offset = registration fine coarse in
      let integer = close offset (round offset) in
      let zero_offset = close offset (zeros_like offset) in
      if not same_batch_size || not same_device
      then (record {
        fine_grid_count = grid_count fine;
        coarse_grid_count = grid_count coarse;
        same_batch_size = same_batch_size;
        same_device = same_device;
        scale_compatible = false;
        registration_integer = false;
        registration_zero = false;
        compatible = false;
        registration_offset = none;
      })
      else (record {
        fine_grid_count = grid_count fine;
        coarse_grid_count = grid_count coarse;
        same_batch_size = true;
        same_device = true;
        scale_compatible = scaled;
        registration_integer = integer;
        registration_zero = zero_offset;
        compatible = scaled && integer && zero_offset;
        registration_offset = some offset;
      })

  -- `registration_offset is None or not isfinite(registration_offset).all()`
  abbrev pub not_finite : Option Tensor → Bool
  not_finite none = true
  not_finite (some offset) = not (all_finite offset)

  -- `_validate_transform_compatibility`
  unfoldable pub validate_transform_compatibility : Compatibility → Result (Unit {0})
  validate_transform_compatibility c = do
    raise_if (not c.same_batch_size) value_error
    raise_if (not c.same_device) value_error
    raise_if (not c.scale_compatible) value_error
    raise_if (not_finite c.registration_offset) value_error
    raise_if (not c.registration_integer) value_error
    raise_if (not c.registration_zero) value_error
    raise_if (not c.compatible) runtime_error

  -- The two grids form the lattices of one convolution: batches of one size on one device, coarse
  -- voxels of `stride` fine ones, and a finite registration offset that is zero.
  pub record AreRegistered (fine coarse : GridBatch) (geometry : ConvolutionGeometry) : Type 0 where
    pub batch : (grid_count fine == grid_count coarse) ≡ true
    pub devices : device_eq (device fine) (device coarse) ≡ true
    pub scale : is_scaled fine coarse geometry.stride ≡ true
    pub finite : all_finite (registration fine coarse) ≡ true
    pub integer : close (registration fine coarse) (round (registration fine coarse)) ≡ true
    pub aligned : close (registration fine coarse) (zeros_like (registration fine coarse)) ≡ true

  -- The diagnostic of two grids passes validation exactly when the grids are registered.
  pub validate_transform_compatibility_iff :
      (fine coarse : GridBatch) (geometry : ConvolutionGeometry)
      → (validate_transform_compatibility (transform_compatibility fine coarse geometry) ≡ ok tt)
        ↔ AreRegistered fine coarse geometry
  unfolding validate_transform_compatibility transform_compatibility
  validate_transform_compatibility_iff fine coarse geometry = (λ e. ground arith, λ r. ground arith)

  -- The branch that reports an inconsistent state is never reached: validation of the diagnostic of
  -- two grids raises no `RuntimeError`.
  pub validate_transform_compatibility-ne_runtime_error :
      (fine coarse : GridBatch) (geometry : ConvolutionGeometry)
      → validate_transform_compatibility (transform_compatibility fine coarse geometry)
        ≢ raise runtime_error
  unfolding validate_transform_compatibility transform_compatibility
  validate_transform_compatibility-ne_runtime_error fine coarse geometry = λ e. ground arith

  -- A diagnostic that passes validation says that the lattices are compatible.
  pub compatible_of_valid :
      (c : Compatibility) → validate_transform_compatibility c ≡ ok tt → c.compatible ≡ true
  unfolding validate_transform_compatibility
  compatible_of_valid c e = ground arith
