-- ===== src/Helper/Pending/Batch.antt =====
-- A batch is the front of the changes that wait.
use neutrasearch.Base.{
  Bool, Bytes, ℕ, zero, suc, List, [], ◌∷◌, ◌++◌, map, ◌≡◌, refl, ap, take, drop,
}
use neutrasearch.Delta.Record.{DeltaChange, remove_prefix}
use neutrasearch.Helper.Pending.{Pending, take_batch}

-- The changes in the order in which they are written.
abbrev pub waiting : Pending → List DeltaChange
waiting pending = map remove_prefix pending.prefixes ++ pending.leaves

-- A batch is the first changes that wait, the removals of prefixes before the leaves, at most `limit` of
-- them, and the others stay in their order.
pub take_batch-waiting :
    (limit : ℕ) (pending : Pending)
    → ((take_batch limit pending).0 ≡ take limit (waiting pending))
      × (waiting (take_batch limit pending).1 ≡ drop limit (waiting pending))
unfolding take_batch
take_batch-waiting limit pending = batch_lem limit pending.prefixes pending.leaves pending.retry
  where
    batch_lem :
        (limit : ℕ) (prefixes : List Bytes) (leaves : List DeltaChange) (retry : Bool)
        → ((take_batch limit record { prefixes = prefixes; leaves = leaves; retry = retry }).0
            ≡ take limit (map remove_prefix prefixes ++ leaves))
          × (waiting
                (take_batch limit record { prefixes = prefixes; leaves = leaves; retry = retry }).1
              ≡ drop limit (map remove_prefix prefixes ++ leaves))
    batch_lem zero prefixes leaves retry = (refl, refl)
    batch_lem (suc limit) [] [] retry = (refl, refl)
    batch_lem (suc limit) [] (leaf ∷ leaves) retry =
        let ih = batch_lem limit [] leaves retry in (ap (λ xs. leaf ∷ xs) ih.0, ih.1)
    batch_lem (suc limit) (root ∷ roots) leaves retry =
        let ih = batch_lem limit roots leaves retry in
        (ap (λ xs. remove_prefix root ∷ xs) ih.0, ih.1)
