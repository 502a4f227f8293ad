-- ===== src/Convolution/Plan/Inversion.antt =====
-- What a factory that returned has done: each of its steps has returned.
use fvdb_core.Prelude.{◌≡◌, refl, Bool, false, Option, List}
use fvdb_core.Prelude.Results.{Result, ok, raise}
use fvdb_core.Convolution.Vectors.{Kernel, map3}
use fvdb_core.Prelude.Int.{pos}
use fvdb_core.Convolution.Geometry.{ConvolutionGeometry, convolution_geometry}
use fvdb_core.Convolution.Residues.{GeometryKey}
use fvdb_core.Convolution.Policy.{ConvolutionTopologyPolicy, provenance_of}
use fvdb_core.Convolution.Coverage.Tensors.{IndexTensors}
use fvdb_core.Convolution.Coverage.Backend.{Backend}
use fvdb_core.Convolution.Coverage.Report.{validate_coverage_policy}
use fvdb_core.Convolution.Natives.{Natives}
use fvdb_core.Convolution.Compatibility.{validate_transform_compatibility}
use fvdb_core.Convolution.Plan.Types.{Options, Planning, proceed, warn, ConvolutionPlan}
use fvdb_core.Convolution.Plan.Build.{build_backend}
use fvdb_core.Convolution.Plan.Factories.{target_or_generated, oriented_compatibility, general_plan}

-- A step whose continuation returned has returned itself.
pub proceed-eq_ok :
    {A B : Type 0} (r : Result A) (f : A → Planning B) (seen : List GeometryKey) {b : B}
    → (proceed r f seen).0 ≡ ok b
    → (a : A) × (r ≡ ok a) × ((f a seen).0 ≡ ok b)
proceed-eq_ok (ok a) f seen e = (a, refl, e)
proceed-eq_ok (raise x) f seen e = cc

module _ (N : Natives) (T : IndexTensors) (transposed : Bool) (kernel_size stride : Kernel)
    (source : N.GridBatch) (target : Option N.GridBatch) (options : Options)
    (policy : ConvolutionTopologyPolicy) where
  -- The plan of the general path, by the values of its steps.
  abbrev pub assembled : N.GridBatch → ConvolutionGeometry → Backend → ConvolutionPlan N
  assembled t g b = record {
    source_grid = source;
    target_grid = t;
    geometry = g;
    channel_pairs = options.channel_pairs;
    transposed = transposed;
    backend = b;
    transform_compatibility = oriented_compatibility N transposed source t g;
    topology_policy = policy;
    topology_provenance = provenance_of policy;
    coverage_report_cache = record {
      cached_backend = b;
      cached_source = source;
      cached_target = t;
    };
    coverage_report_swapped = false;
  }

  pub record Steps (p : ConvolutionPlan N) : Type 0 where
    pub t : N.GridBatch
    pub g : ConvolutionGeometry
    pub b : Backend
    pub generated : target_or_generated N transposed source target kernel_size stride ≡ ok t
    pub shaped : convolution_geometry (map3 pos kernel_size) (map3 pos stride) ≡ ok g
    pub registered :
        validate_transform_compatibility N (oriented_compatibility N transposed source t g) ≡ ok tt
    pub built :
        build_backend N options.backend_name source t kernel_size stride options.channel_pairs
          transposed
        ≡ ok b
    pub covered : validate_coverage_policy T b policy options.strict_output_coverage ≡ ok tt
    pub result : p ≡ assembled t g b

  pub general_plan-Steps :
      (seen : List GeometryKey) (p : ConvolutionPlan N)
      → (general_plan N T transposed kernel_size stride source target options policy seen).0 ≡ ok p
      → Steps p
  unfolding general_plan
  general_plan-Steps seen p e =
      let (t, et, e1) =
        proceed-eq_ok (target_or_generated N transposed source target kernel_size stride) _ seen
          e in
      let (g, eg, e2) =
        proceed-eq_ok (convolution_geometry (map3 pos kernel_size) (map3 pos stride)) _ seen e1 in
      let (_, ev, e3) =
        proceed-eq_ok
          (validate_transform_compatibility N (oriented_compatibility N transposed source t g)) _
          seen e2 in
      let seen' = (warn g options.acknowledge_incomplete_coverage seen).1 in
      let (b, eb, e4) =
        proceed-eq_ok
          (build_backend N options.backend_name source t kernel_size stride options.channel_pairs
            transposed)
          _ seen' e3 in
      let (_, ec, e5) =
        proceed-eq_ok (validate_coverage_policy T b policy options.strict_output_coverage) _ seen'
          e4 in
      record {
        t = t;
        g = g;
        b = b;
        generated = et;
        shaped = eg;
        registered = ev;
        built = eb;
        covered = ec;
        result = cc e5;
      }
