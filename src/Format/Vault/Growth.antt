-- ===== src/Format/Vault/Growth.antt =====
-- The loop that grows a file (`truncate_file` of vault.rs) ends.
use farewell.Prelude.{
  ℕ, zero, suc, ◌+◌, ◌-◌, ◌≤◌, ◌≡◌, sym, ap, ◌∙◌, inl, inr, false, Bytes, ltb, min, replicate,
  if◌then◌else◌, Bool-cases, arith,
}
use farewell.Format.World.{World}
use farewell.Format.Vault.State.{pure, ◌>>◌}
use farewell.Format.Vault.Ranges.{grow, write_file_range}

module _ (w : World) (name : Bytes) (window : ℕ) (new_size : ℕ) where
  grow-done :
      (fuel cursor : ℕ) → new_size ≤ cursor → grow w fuel name window cursor new_size ≡ pure tt
  unfolding grow
  grow-done zero cursor h = let done : ltb cursor new_size ≡ false = ground arith in rw done
  grow-done (suc fuel) cursor h = let done : ltb cursor new_size ≡ false = ground arith in rw done

  -- With a window of a byte or more, any two numbers of rounds that are not below the number of bytes
  -- that are missing have the same effect: the loop leaves through its own test.
  pub grow_fuel :
      (fuel fuel' cursor : ℕ)
      → 1 ≤ window
      → new_size - cursor ≤ fuel
      → new_size - cursor ≤ fuel'
      → grow w fuel name window cursor new_size ≡ grow w fuel' name window cursor new_size
  unfolding grow
  grow_fuel zero fuel' cursor wide h h' =
      grow-done zero cursor (omega arith) ∙ sym (grow-done fuel' cursor (omega arith))
  grow_fuel (suc fuel) zero cursor wide h h' =
      grow-done (suc fuel) cursor (omega arith) ∙ sym (grow-done zero cursor (omega arith))
  grow_fuel (suc fuel) (suc fuel') cursor wide h h' =
      let n = min window (new_size - cursor) in
      let write = write_file_range w name cursor (replicate n 0) in
      elim (Bool-cases (ltb cursor new_size)) [
        | inl more ↦
            let missing : cursor + 1 ≤ new_size = ground arith in
            ap (λ rest. if ltb cursor new_size then (write >> rest) else pure tt)
              (grow_fuel fuel fuel' (cursor + n) wide (omega arith) (omega arith))
        | inr done ↦
            let reached : new_size ≤ cursor = ground arith in
            grow-done (suc fuel) cursor reached ∙ sym (grow-done (suc fuel') cursor reached)
      ]
