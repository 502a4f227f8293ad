-- ===== src/Convolution/Policy.antt =====
-- The enums of fvdb/enums.py that a convolution plan carries, and `_resolve_topology_policy` of
-- fvdb/convolution_plan.py.
use fvdb_core.Prelude.{◌≡◌, ◌↔◌, ◌⊎◌, Option, none, some, arith}
use fvdb_core.Prelude.Results.{Result, ok, raise, type_error, value_error}

pub data ConvolutionTopologyPolicy : Type 0 where
  complete restricted : ConvolutionTopologyPolicy

pub data ConvolutionTopologyProvenance : Type 0 where
  generated explicit_target exact_transpose : ConvolutionTopologyProvenance

-- The argument `topology_policy`: left out, a member of the enum, or any other object.
pub data PolicyArgument : Type 0 where
  omitted : PolicyArgument
  policy : ConvolutionTopologyPolicy → PolicyArgument
  other_object : PolicyArgument

unfoldable pub resolve_topology_policy {ℓ} :
    {Grid : Type ℓ} → Option Grid → PolicyArgument → Result ConvolutionTopologyPolicy
resolve_topology_policy none omitted = ok complete
resolve_topology_policy (some target) omitted = ok restricted
resolve_topology_policy target other_object = raise type_error
resolve_topology_policy (some target) (policy complete) = raise value_error
resolve_topology_policy none (policy restricted) = raise value_error
resolve_topology_policy none (policy complete) = ok complete
resolve_topology_policy (some target) (policy restricted) = ok restricted

-- The provenance that both factories derive from the resolved policy.
abbrev pub provenance_of : ConvolutionTopologyPolicy → ConvolutionTopologyProvenance
provenance_of complete = generated
provenance_of restricted = explicit_target

-- The policy that goes with a target: complete support is generated, a target restricts it.
abbrev pub policy_for {ℓ} : {Grid : Type ℓ} → Option Grid → ConvolutionTopologyPolicy
policy_for none = complete
policy_for (some target) = restricted

-- The resolved policy is the one that goes with the target, and it is returned exactly when the
-- argument was left out or names that policy.
pub resolve_topology_policy_iff {ℓ} :
    {Grid : Type ℓ} (target : Option Grid) (argument : PolicyArgument)
    (resolved : ConvolutionTopologyPolicy)
    → (resolve_topology_policy target argument ≡ ok resolved) ↔ (
        (resolved ≡ policy_for target)
        × ((argument ≡ omitted) ⊎ (argument ≡ policy (policy_for target))))
unfolding resolve_topology_policy
resolve_topology_policy_iff none omitted resolved = grind arith
resolve_topology_policy_iff (some target) omitted resolved = grind arith
resolve_topology_policy_iff none other_object resolved = grind arith
resolve_topology_policy_iff (some target) other_object resolved = grind arith
resolve_topology_policy_iff none (policy complete) resolved = grind arith
resolve_topology_policy_iff none (policy restricted) resolved = grind arith
resolve_topology_policy_iff (some target) (policy complete) resolved = grind arith
resolve_topology_policy_iff (some target) (policy restricted) resolved = grind arith
