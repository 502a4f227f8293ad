-- ===== src/Convolution/Plan/Execute/Usage.antt =====
-- What `valid_usage` promises of `execute`.
use fvdb_core.Prelude.{
  ℕ, ◌≡◌, refl, sym, ap, ◌∙◌, ◌↔◌, Bool, true, false, not, ◌&&◌, List, [], ◌∷◌, ◌==◌, arith,
}
use fvdb_core.Prelude.Int.{ℤ, pos}
use fvdb_core.Prelude.Results.{ok}
use fvdb_core.Convolution.Vectors.{Kernel, vec3}
use fvdb_core.Convolution.Residues.{kernel_eq}
use fvdb_core.Convolution.Coverage.Backend.{
  Backend, matmul, gather_scatter, pred_gather_igemm, unknown,
}
use fvdb_core.Convolution.Natives.{Natives}
use fvdb_core.Convolution.Admission.{channel_pair_supported}
use fvdb_core.Convolution.Plan.Types.{ConvolutionPlan, PositiveVec3i}
use fvdb_core.Convolution.Plan.Invariant.{IsPlan, BackendFits}
use fvdb_core.Convolution.Plan.Execute.{
  Executors, Features, is_flat, eq_bool, backend_channels_supported, valid_usage,
  matmul_weight_matrix, weight_channels, run_backend, execute,
}

kernel_eq→eq : (a b : Kernel) → kernel_eq a b ≡ true → a ≡ b
kernel_eq→eq a b h = ground arith

kernel_eq_refl : (a : Kernel) → kernel_eq a a ≡ true
kernel_eq_refl a = ground arith

eq_bool→eq : (a b : Bool) → eq_bool a b ≡ true → a ≡ b
eq_bool→eq true b h = sym h
eq_bool→eq false b h = ground arith

module _ (N : Natives) (V : PositiveVec3i) where
  -- The usage of a plan: its own sizes and direction, with channels that it supports.
  pub record IsUsage (p : ConvolutionPlan N) (in_c out_c : ℤ) (k s : Kernel) (transposed : Bool)
      : Type 0 where
    pub listed : channel_pair_supported in_c out_c p.channel_pairs ≡ true
    pub blocked : backend_channels_supported N p.backend in_c out_c ≡ true
    pub sizes : k ≡ p.geometry.kernel_size
    pub steps : s ≡ p.geometry.stride
    pub direction : transposed ≡ p.transposed

  -- Of arguments that convert to sizes, `valid_usage` accepts exactly the kernel size, stride and
  -- direction of the plan, with channels that its pairs and its backend support.
  pub valid_usage_iff :
      (p : ConvolutionPlan N) (in_c out_c : ℤ) (ka sa : V.Argument) (transposed : Bool)
      (k s : Kernel)
      → V.to_Vec3i ka ≡ ok k
      → V.to_Vec3i sa ≡ ok s
      → (valid_usage N V p in_c out_c ka sa transposed ≡ ok true)
        ↔ IsUsage p in_c out_c k s transposed
  unfolding valid_usage
  valid_usage_iff p in_c out_c ka sa transposed k s ek es = rw ek (
      rw es (
        (λ e. ground (
          arith,
          kernel_eq→eq k p.geometry.kernel_size,
          kernel_eq→eq s p.geometry.stride,
          eq_bool→eq transposed p.transposed,
        )),
        (λ u. ground (arith, kernel_eq_refl k, kernel_eq_refl s)),
      ))

module _ (N : Natives) (E : Executors N) where
  open E use {shape, first_tap, first_tap_shape}

  -- `(out_c, in_c, *kernel_size)`
  abbrev pub weight_shape : ℕ → ℕ → Kernel → List ℕ
  weight_shape out_c in_c k = out_c ∷ in_c ∷ k.x ∷ k.y ∷ k.z ∷ []

  unit_matrix :
      (w : E.X) (out_c in_c : ℕ)
      → shape w ≡ weight_shape out_c in_c (vec3 1 1 1)
      → matmul_weight_matrix N E w ≡ ok (first_tap w)
  unfolding matmul_weight_matrix
  unit_matrix w out_c in_c e = rw e refl

  -- Weights of a plan's kernel size have their channels read from their first two axes.
  pub weight_channels-fits :
      (p : ConvolutionPlan N) (b : Backend) (w : E.X) (out_c in_c : ℕ)
      → BackendFits N b p.source_grid p.target_grid p.geometry.kernel_size p.geometry.stride
          p.channel_pairs p.transposed
      → shape w ≡ weight_shape out_c in_c p.geometry.kernel_size
      → weight_channels N E b w ≡ ok (out_c, in_c)
  unfolding weight_channels
  weight_channels-fits p matmul w out_c in_c fits e =
      let unit : shape w ≡ weight_shape out_c in_c (vec3 1 1 1) =
        e ∙ ap (weight_shape out_c in_c) fits.0 in
      let matrix : shape (first_tap w) ≡ out_c ∷ in_c ∷ [] =
        first_tap_shape w out_c in_c 1 1 1 unit (omega arith, omega arith, omega arith) in
      rw (unit_matrix w out_c in_c unit) (rw matrix refl)
  weight_channels-fits p (gather_scatter t) w out_c in_c fits e = rw e refl
  weight_channels-fits p (pred_gather_igemm t k s) w out_c in_c fits e = rw e refl
  weight_channels-fits p unknown w out_c in_c fits e = absurd fits

  module _ (V : PositiveVec3i) where
    -- Weights whose channels are read as those that `valid_usage` accepts pass the checks.
    pub execute-accepted :
        (p : ConvolutionPlan N) (out_c in_c : ℕ) (k s : Kernel) (transposed : Bool)
        (features : Features N E) (w : E.X)
        → IsUsage N V p (pos in_c) (pos out_c) k s transposed
        → weight_channels N E p.backend w ≡ ok (out_c, in_c)
        → (is_flat N E features && not (N.grid_count p.source_grid == 1)) ≡ false
        → execute N E p features w ≡ run_backend N E p p.backend features w
    unfolding execute
    execute-accepted p out_c in_c k s transposed features w u read grids =
        rw read (rw u.listed (rw u.blocked (rw grids refl)))

    -- A plan that satisfies the invariant of plans and that `valid_usage` accepts for some channels and
    -- sizes executes, on weights of that shape and on features that are flat only where the source has
    -- one grid: no check refuses, and the result is what the plan's backend gives.
    pub valid_usage-execute :
        (p : ConvolutionPlan N) (out_c in_c : ℕ) (ka sa : V.Argument) (transposed : Bool)
        (k s : Kernel) (features : Features N E) (w : E.X)
        → IsPlan N p
        → V.to_Vec3i ka ≡ ok k
        → V.to_Vec3i sa ≡ ok s
        → valid_usage N V p (pos in_c) (pos out_c) ka sa transposed ≡ ok true
        → shape w ≡ weight_shape out_c in_c k
        → (is_flat N E features && not (N.grid_count p.source_grid == 1)) ≡ false
        → execute N E p features w ≡ run_backend N E p p.backend features w
    valid_usage-execute p out_c in_c ka sa transposed k s features w v ek es accepted shaped grids =
        let u =
          (valid_usage_iff N V p (pos in_c) (pos out_c) ka sa transposed k s ek es).0 accepted in
        let read : weight_channels N E p.backend w ≡ ok (out_c, in_c) =
          weight_channels-fits p p.backend w out_c in_c v.fits
            (shaped ∙ ap (weight_shape out_c in_c) u.sizes) in
        execute-accepted p out_c in_c k s transposed features w u read grids
