-- ===== src/Convolution/Plan/Invariant/Backends.antt =====
-- `_build_backend` returns a backend that fits its arguments.
use fvdb_core.Prelude.{
  ◌≡◌, subst, Bool, true, ◌&&◌, List, All, inl, inr, arith, if◌then◌else◌, some, Bool-cases,
}
use fvdb_core.Prelude.Results.{Result, ok, >>=-eq-ok, ok-injective}
use fvdb_core.Convolution.Vectors.{Kernel, vec3}
use fvdb_core.Convolution.Coverage.Backend.{
  GatherScatterDefaultTopology, Backend, matmul, gather_scatter, pred_gather_igemm,
}
use fvdb_core.Convolution.Natives.{Natives}
use fvdb_core.Convolution.Admission.{
  ChannelPair, IsPositivePair, check_channel_pairs, check_channel_pairs_iff,
  validate_pred_gather_igemm_admission, validate_pred_gather_igemm_admission_iff,
  validate_pred_gather_igemm_grid_admission,
}
use fvdb_core.Convolution.Plan.Types.{BackendName}
use fvdb_core.Convolution.Plan.Build.{vec_is_all, rulebook_backend, build_backend}
use fvdb_core.Convolution.Plan.Invariant.{BackendFits}

pub vec_is_all-one : (v : Kernel) → vec_is_all v 1 ≡ true → v ≡ vec3 1 1 1
vec_is_all-one v h = ground arith

module _ (N : Natives) (source target : N.GridBatch) (kernel_size stride : Kernel)
    (pairs : List ChannelPair) (transposed : Bool) (b : Backend) where
  abbrev Fits : Type 0
  Fits = BackendFits N b source target kernel_size stride pairs transposed

  carry :
      (c : Backend)
      → ok c ≡ ok b
      → BackendFits N c source target kernel_size stride pairs transposed
      → Fits
  carry c e f =
      subst (λ d. BackendFits N d source target kernel_size stride pairs transposed)
        (ok-injective c b e) f

  rulebook_backend-Fits :
      rulebook_backend N source target kernel_size stride transposed ≡ ok b → Fits
  unfolding rulebook_backend
  rulebook_backend-Fits e = elim (Bool-cases identity) [
    | inl h ↦
        let same : ok matmul ≡ ok b = rw h at e in
        carry matmul same (
          vec_is_all-one kernel_size (ground arith),
          vec_is_all-one stride (ground arith),
          ground arith,
        )
    | inr h ↦
        let (t, et, e1) =
          >>=-eq-ok (if transposed then transpose_topology else topology) _ (rw h at e) in
        carry (gather_scatter t) e1 tt
  ]
    where
      identity : Bool
      identity = vec_is_all stride 1 && (vec_is_all kernel_size 1 && N.is_same source target)

      transpose_topology : Result GatherScatterDefaultTopology
      transpose_topology = N.gs_build_transpose_topology source target kernel_size stride

      topology : Result GatherScatterDefaultTopology
      topology = N.gs_build_topology source target kernel_size stride

  -- The channel pairs of a plan are positive, and its backend fits its grids, sizes and direction.
  pub build_backend-fits :
      (name : BackendName)
      → build_backend N name source target kernel_size stride pairs transposed ≡ ok b
      → All IsPositivePair pairs × Fits
  unfolding build_backend
  build_backend-fits BackendName.dense e = cc
  build_backend-fits BackendName.pred_gather_igemm e =
      let (_, ec, e1) = >>=-eq-ok (check_channel_pairs pairs) _ e in
      let (sizes, ea, e2) =
        >>=-eq-ok (validate_pred_gather_igemm_admission kernel_size stride pairs transposed) _ e1 in
      let (_, eg, e3) =
        >>=-eq-ok (validate_pred_gather_igemm_grid_admission N source (some target)) _ e2 in
      let (t, et, e4) = >>=-eq-ok (N.gs_build_topology source target kernel_size stride) _ e3 in
      (
        (check_channel_pairs_iff pairs).0 ec,
        carry (pred_gather_igemm t sizes.0 sizes.1) e4 (
            (validate_pred_gather_igemm_admission_iff kernel_size stride pairs transposed _ _).0
              ea),
      )
  build_backend-fits BackendName.other_name e =
      let (_, ec, e1) = >>=-eq-ok (check_channel_pairs pairs) _ e in cc e1
  build_backend-fits BackendName.default e =
      let (_, ec, e1) = >>=-eq-ok (check_channel_pairs pairs) _ e in
      ((check_channel_pairs_iff pairs).0 ec, rulebook_backend-Fits e1)
  build_backend-fits BackendName.gather_scatter e =
      let (_, ec, e1) = >>=-eq-ok (check_channel_pairs pairs) _ e in
      ((check_channel_pairs_iff pairs).0 ec, rulebook_backend-Fits e1)
