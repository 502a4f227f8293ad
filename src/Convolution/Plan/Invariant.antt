-- ===== src/Convolution/Plan/Invariant.antt =====
-- What holds of every plan that the factories make.
pub mod Backends
pub mod Made
pub mod Identity
use fvdb_core.Prelude.{ℕ, ◌≡◌, ◌↔◌, Bool, true, false, List, All, ◌⊎◌}
use fvdb_core.Convolution.Vectors.{Kernel, vec3}
use fvdb_core.Convolution.Geometry.{IsGeometry}
use fvdb_core.Convolution.Policy.{ConvolutionTopologyPolicy, ConvolutionTopologyProvenance}
use fvdb_core.Convolution.Coverage.Backend.{
  Backend, matmul, gather_scatter, pred_gather_igemm, unknown,
}
use fvdb_core.Convolution.Natives.{Natives}
use fvdb_core.Convolution.Admission.{ChannelPair, IsPositivePair, IsBlockedPair}
use fvdb_core.Convolution.Plan.Types.{ConvolutionPlan}

-- What a backend demands of the plan that carries it.
abbrev pub BackendFits :
    (N : Natives)
    → Backend
    → N.GridBatch
    → N.GridBatch
    → Kernel
    → Kernel
    → List ChannelPair
    → Bool
    → Type 0
BackendFits N matmul source target kernel_size stride pairs transposed =
    (kernel_size ≡ vec3 1 1 1) × (stride ≡ vec3 1 1 1) × (N.is_same source target ≡ true)
BackendFits N (gather_scatter t) source target kernel_size stride pairs transposed = Unit
BackendFits N (pred_gather_igemm t k s) source target kernel_size stride pairs transposed =
    (transposed ≡ false)
    × (kernel_size ≡ vec3 k k k)
    × (stride ≡ vec3 s s s)
    × ((k ≡ 3) ⊎ ((k ≡ 5) ⊎ (k ≡ 7)))
    × ((s ≡ 1) ⊎ (s ≡ 2))
    × All IsBlockedPair pairs
BackendFits N unknown source target kernel_size stride pairs transposed = ⊥

pub record IsPlan (N : Natives) (p : ConvolutionPlan N) : Type 0 where
  pub shape : IsGeometry p.geometry
  pub compatible : p.transform_compatibility.compatible ≡ true
  pub channels : All IsPositivePair p.channel_pairs
  pub fits :
      BackendFits N p.backend p.source_grid p.target_grid p.geometry.kernel_size p.geometry.stride
        p.channel_pairs p.transposed
  -- Complete support is always generated, and only complete support is.
  pub provenance :
      (p.topology_policy ≡ ConvolutionTopologyPolicy.complete)
      ↔ (p.topology_provenance ≡ ConvolutionTopologyProvenance.generated)
