-- ===== src/Format/Slot/Enroll.antt =====
-- `WrappedSlot::add_credential` and `remove_credential` of slot.rs.
use farewell.Prelude.{
  ℕ, zero, suc, ◌+◌, ◌-◌, ◌%◌, ◌^◌, ◌||◌, not, Option, [], ◌∷◌, Bytes, length, ltb, leb, ◌==◌,
}
use farewell.Format.Error.{
  manifest, require, invalid_new_credential, no_free_hw_slot, key_index_out_of_range, last_hw_key,
}
use farewell.Format.World.{World}
use farewell.Format.Buffer.{read, write}
use farewell.Format.Draws.{D, pure, lift, fill, ◌>>=◌, ◌>>◌}
use farewell.Format.Slot.{
  max_hw_keys_per_level, max_cred_id_len, hw_slot_len, label_len, entry_offset, label_offset,
  encode_label, decrypt_outer, read_count,
}
use farewell.Format.Slot.Keys.{present_kwk}
use farewell.Format.Slot.Wrap.{write_entry, assemble}

-- The loop that moves the entries and labels `i + 1` and on down by one place.
unfoldable pub shift_down : ℕ → ℕ → Bytes → D Bytes
unfolding read write
shift_down zero i inner = pure inner
shift_down (suc rounds) i inner0 = do
  inner1 ← lift (write (entry_offset i) (read (entry_offset (i + 1)) hw_slot_len inner0) inner0)
  inner2 ← lift (write (label_offset i) (read (label_offset (i + 1)) label_len inner1) inner1)
  shift_down rounds (i + 1) inner2

module _ (w : World) where
  unfoldable pub add_credential : Bytes → Bytes → Option Bytes → Bytes → Bytes → Bytes → D Bytes
  unfolding decrypt_outer present_kwk write_entry encode_label assemble write read_count
  add_credential slot passphrase_key recover_hmac new_cred new_hmac new_label = do
    lift (
        require (not (length new_cred == 0 || ltb max_cred_id_len (length new_cred)))
          (manifest invalid_new_credential))
    inner0 ← lift (decrypt_outer w slot passphrase_key)
    let k = read_count inner0
    lift (require (not (leb max_hw_keys_per_level k)) (manifest no_free_hw_slot))
    kwk ← lift (present_kwk w passphrase_key inner0 recover_hmac)
    inner1 ← write_entry w passphrase_key kwk k new_cred new_hmac inner0
    inner2 ← lift (write (label_offset k) (encode_label new_label) inner1)
    inner3 ← lift (write 0 ((k + 1) % 2 ^ 8 ∷ []) inner2)
    assemble w passphrase_key inner3

  unfoldable pub remove_credential : Bytes → Bytes → ℕ → D Bytes
  unfolding decrypt_outer shift_down fill assemble write read_count
  remove_credential slot passphrase_key index = do
    inner0 ← lift (decrypt_outer w slot passphrase_key)
    let k = read_count inner0
    lift (require (not (leb k index)) (manifest (key_index_out_of_range index k)))
    lift (require (not (leb k 1)) (manifest last_hw_key))
    inner1 ← shift_down (k - 1 - index) index inner0
    entry ← fill w hw_slot_len
    inner2 ← lift (write (entry_offset (k - 1)) entry inner1)
    label ← fill w label_len
    inner3 ← lift (write (label_offset (k - 1)) label inner2)
    inner4 ← lift (write 0 ((k - 1) % 2 ^ 8 ∷ []) inner3)
    assemble w passphrase_key inner4
