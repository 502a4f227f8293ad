-- ===== src/Modules/Prune.antt =====
-- `Prune` of fvdb/nn/modules.py.
use fvdb_core.Prelude.{
  ℕ, ◌≡◌, ◌↔◌, refl, ap, ◌∙◌, ==_iff, Bool, true, false, not, ◌&&◌, List, [], ◌∷◌, ◌==◌, ltb, ◌⊎◌,
  arith,
}
use fvdb_core.Prelude.Results.{
  Result, ok, value_error, raise_if, ◌>>=◌, ◌>>◌, >>=-eq-ok, raise_if-eq-ok, ok-injective,
}

-- What the module asks of grids and jagged tensors. `shares_offsets` says whether a tensor's offsets are the
-- grid's own object.
pub record Partitions : Type 1 where
  pub GridBatch : Type 0
  pub JaggedTensor : Type 0
  pub ldim : JaggedTensor → ℕ
  pub num_tensors : JaggedTensor → ℕ
  pub rows : JaggedTensor → ℕ
  pub joffsets : JaggedTensor → List ℕ
  pub grid_count : GridBatch → ℕ
  pub total_voxels : GridBatch → ℕ
  pub grid_joffsets : GridBatch → List ℕ
  pub shares_offsets : JaggedTensor → GridBatch → Bool
  pub pruned_grid : GridBatch → JaggedTensor → Result GridBatch
  pub rmask : JaggedTensor → JaggedTensor → Result JaggedTensor
  pub shares_offsets-joffsets :
      (t : JaggedTensor) (g : GridBatch) → shares_offsets t g ≡ true → joffsets t ≡ grid_joffsets g

-- `torch.equal`
abbrev pub equal : List ℕ → List ℕ → Bool
equal [] [] = true
equal [] (n ∷ ns) = false
equal (m ∷ ms) [] = false
equal (m ∷ ms) (n ∷ ns) = m == n && equal ms ns

equal_iff : (ms ns : List ℕ) → (equal ms ns ≡ true) ↔ (ms ≡ ns)
equal_iff [] [] = ground arith
equal_iff [] (n ∷ ns) = ground arith
equal_iff (m ∷ ms) [] = ground arith
equal_iff (m ∷ ms) (n ∷ ns) = ground (arith, equal_iff ms ns)

module _ (P : Partitions) where
  open P use {
    GridBatch, JaggedTensor, ldim, num_tensors, rows, joffsets, grid_count, total_voxels,
    grid_joffsets, shares_offsets, pruned_grid, rmask, shares_offsets-joffsets,
  }

  -- `Prune._check_partitioned_like`
  unfoldable pub check_partitioned_like : GridBatch → JaggedTensor → Result (Unit {0})
  check_partitioned_like g t = do
    raise_if (not (ldim t == 1)) value_error
    raise_if (not (num_tensors t == grid_count g)) value_error
    raise_if (not (rows t == total_voxels g)) value_error
    raise_if
        (ltb 0 (grid_count g)
          && (not (shares_offsets t g) && not (equal (joffsets t) (grid_joffsets g))))
        value_error

  -- `Prune.forward`
  unfoldable pub prune_forward :
      JaggedTensor → GridBatch → JaggedTensor → Result (JaggedTensor × GridBatch)
  prune_forward features g mask = do
    check_partitioned_like g features
    check_partitioned_like g mask
    pruned ← pruned_grid g mask
    kept ← rmask features mask
    ok (kept, pruned)

  -- A flat list of one tensor for each grid, of a row for each voxel, parted like the grids.
  pub record IsPartitionedLike (g : GridBatch) (t : JaggedTensor) : Type 0 where
    pub flat_list : ldim t ≡ 1
    pub tensors : num_tensors t ≡ grid_count g
    pub voxels : rows t ≡ total_voxels g
    pub parted : (grid_count g ≡ 0) ⊎ (joffsets t ≡ grid_joffsets g)

  parted_iff :
      (g : GridBatch) (t : JaggedTensor)
      → ((ltb 0 (grid_count g)
            && (not (shares_offsets t g) && not (equal (joffsets t) (grid_joffsets g))))
          ≡ false)
        ↔ ((grid_count g ≡ 0) ⊎ (joffsets t ≡ grid_joffsets g))
  parted_iff g t =
      ground (arith, equal_iff (joffsets t) (grid_joffsets g), shares_offsets-joffsets t g)

  -- The check passes a jagged tensor if and only if it is a flat list with as many tensors as there are
  -- grids, as many rows as there are voxels, and, where there are grids, their offsets; a shared offsets
  -- object is taken for equal offsets without looking.
  pub check_partitioned_like-ok_iff :
      (g : GridBatch) (t : JaggedTensor)
      → (check_partitioned_like g t ≡ ok tt) ↔ IsPartitionedLike g t
  unfolding check_partitioned_like
  check_partitioned_like-ok_iff g t = (forth, back)
    where
      forth : check_partitioned_like g t ≡ ok tt → IsPartitionedLike g t
      forth h =
          let (_, e0, h1) = >>=-eq-ok (raise_if (not (ldim t == 1)) value_error) _ h in
          let (_, e1, h2) =
            >>=-eq-ok (raise_if (not (num_tensors t == grid_count g)) value_error) _ h1 in
          let (_, e2, h3) =
            >>=-eq-ok (raise_if (not (rows t == total_voxels g)) value_error) _ h2 in
          let d : not (ldim t == 1) ≡ false = raise_if-eq-ok _ value_error e0 in
          let n : not (num_tensors t == grid_count g) ≡ false = raise_if-eq-ok _ value_error e1 in
          let r : not (rows t == total_voxels g) ≡ false = raise_if-eq-ok _ value_error e2 in
          record {
            flat_list = ground arith;
            tensors = ground arith;
            voxels = ground arith;
            parted = (parted_iff g t).0 (raise_if-eq-ok _ value_error h3);
          }

      back : IsPartitionedLike g t → check_partitioned_like g t ≡ ok tt
      back p =
          let d : (ldim t == 1) ≡ true = (==_iff _ _).1 p.flat_list in
          let n : (num_tensors t == grid_count g) ≡ true = (==_iff _ _).1 p.tensors in
          let r : (rows t == total_voxels g) ≡ true = (==_iff _ _).1 p.voxels in
          rw d (rw n (rw r (rw ((parted_iff g t).1 p.parted) refl)))

  -- A pruning that returns had features and a mask that are parted like the grid.
  pub prune_forward-IsPartitionedLike :
      (features mask : JaggedTensor) (g : GridBatch) (result : JaggedTensor × GridBatch)
      → prune_forward features g mask ≡ ok result
      → IsPartitionedLike g features
        × IsPartitionedLike g mask
        × (pruned_grid g mask ≡ ok result.1)
        × (rmask features mask ≡ ok result.0)
  unfolding prune_forward
  prune_forward-IsPartitionedLike features mask g result h =
      let (_, e0, h1) = >>=-eq-ok (check_partitioned_like g features) _ h in
      let (_, e1, h2) = >>=-eq-ok (check_partitioned_like g mask) _ h1 in
      let (pruned, ep, h3) = >>=-eq-ok (pruned_grid g mask) _ h2 in
      let (kept, ek, h4) = >>=-eq-ok (rmask features mask) _ h3 in
      let same : (kept, pruned) ≡ result = ok-injective _ result h4 in
      (
        (check_partitioned_like-ok_iff g features).0 e0,
        (check_partitioned_like-ok_iff g mask).0 e1,
        ep ∙ ap (λ (q : JaggedTensor × GridBatch). ok q.1) same,
        ek ∙ ap (λ (q : JaggedTensor × GridBatch). ok q.0) same,
      )
