-- ===== src/Types/Device.antt =====
-- `resolve_device` of fvdb/types.py.
use fvdb_core.Prelude.{ℕ, ◌≡◌, ◌≢◌, refl, subst, Option, none, some}
use fvdb_core.Prelude.Results.{Result, ok, raise, type_error, ◌>>=◌, >>=-eq-ok, ok-injective}

pub data DeviceType : Type 0 where
  cpu cuda other_type : DeviceType

-- `torch.device`
pub record Device : Type 0 where
  pub kind : DeviceType
  pub index : Option ℕ

-- What torch knows: how it reads a device string, and the current CUDA device.
pub record Devices : Type 1 where
  pub Text : Type 0
  pub parse : Text → Result Device
  -- `torch.cuda.current_device()`, which raises where CUDA is not there
  pub current_device : Result ℕ

-- `inherit_from`: an object with a torch device, or any other.
pub data Source : Type 0 where
  has_device : Device → Source
  no_device : Source

module _ (D : Devices) where
  open D use {Text, parse, current_device}

  -- `device_id`
  pub data DeviceArgument : Type 0 where
    omitted : DeviceArgument
    text : Text → DeviceArgument
    device : Device → DeviceArgument
    other_object : DeviceArgument

  -- A CUDA device without an index is given the current one.
  abbrev pub with_current : Device → DeviceType → Option ℕ → Result Device
  with_current d cuda none = current_device >>= λ i. ok (record { kind = cuda; index = some i })
  with_current d cuda (some i) = ok d
  with_current d cpu index = ok d
  with_current d other_type index = ok d

  abbrev pub with_index : Device → Result Device
  with_index d = with_current d d.kind d.index

  unfoldable pub resolve_device : DeviceArgument → Source → Result Device
  resolve_device (text t) source = parse t >>= with_index
  resolve_device (device d) source = with_index d
  resolve_device other_object source = raise type_error
  resolve_device omitted (has_device d) = ok d
  resolve_device omitted no_device = ok (record { kind = cpu; index = none })

  with_current-kept :
      (d e : Device) (kind : DeviceType) (index : Option ℕ)
      → d.kind ≡ kind
      → d.index ≡ index
      → with_current d kind index ≡ ok e
      → with_index e ≡ ok e
  with_current-kept d e cuda none k n h =
      let (i, _, h1) = >>=-eq-ok current_device _ h in
      subst (λ f. with_index f ≡ ok f) (ok-injective _ e h1) refl
  with_current-kept d e cuda (some i) k n h =
      subst (λ f. with_index f ≡ ok f) (ok-injective d e h) (rw k (rw n refl))
  with_current-kept d e cpu index k n h =
      subst (λ f. with_index f ≡ ok f) (ok-injective d e h) (rw k refl)
  with_current-kept d e other_type index k n h =
      subst (λ f. with_index f ≡ ok f) (ok-injective d e h) (rw k refl)

  with_index-kept : (d e : Device) → with_index d ≡ ok e → with_index e ≡ ok e
  with_index-kept d e h = with_current-kept d e d.kind d.index refl refl h

  -- An argument that is given takes precedence over the source, and a device that it resolved to
  -- resolves to itself.
  pub resolve_device-twice :
      (argument : DeviceArgument) (source other : Source) (d : Device)
      → argument ≢ omitted
      → resolve_device argument source ≡ ok d
      → (resolve_device argument other ≡ ok d) × (resolve_device (device d) other ≡ ok d)
  unfolding resolve_device
  resolve_device-twice omitted source other d h e = absurd (h refl)
  resolve_device-twice (text t) source other d h e =
      let (p, ep, e1) = >>=-eq-ok (parse t) _ e in (e, with_index-kept p d e1)
  resolve_device-twice (device p) source other d h e = (e, with_index-kept p d e)
  resolve_device-twice other_object source other d h e = cc
