-- ===== src/Format/Slot/Wrap.antt =====
-- `WrappedSlot::wrap` of slot.rs.
use farewell.Prelude.{
  ℕ, zero, suc, ◌+◌, ◌-◌, ◌%◌, ◌^◌, List, [], ◌∷◌, ◌++◌, Bytes, length, replicate, ltb,
  if◌then◌else◌,
}
use farewell.Bytes.{write_u16, write_u32}
use farewell.Format.Error.{panic}
use farewell.Format.World.{World, nonce_len}
use farewell.Format.Chunk.{crypto_result}
use farewell.Format.Buffer.{write}
use farewell.Format.Draws.{D, pure, lift, fill, ◌>>=◌}
use farewell.Format.Slot.{
  Entry, slot_len, inner_plaintext_len, max_hw_keys_per_level, max_cred_id_len, hw_slot_len,
  master_wrap_offset, metadata_key_offset, label_len, entry_offset, label_offset, master_key_len,
  kwk_len, slot_aad, hw_slot_aad, master_aad, combine_key, no_hw_kwk, encode_label,
}

module _ (w : World) where
  -- The entry of hardware key `i`: credential, random padding, and the wrapped KWK.
  unfoldable pub write_entry : Bytes → Bytes → ℕ → Bytes → Bytes → Bytes → D Bytes
  unfolding combine_key crypto_result fill write
  write_entry passphrase_key kwk i cred_id hw_output inner0 = do
    let start = entry_offset i
    inner1 ← lift (write start (write_u16 (length cred_id % 2 ^ 16)) inner0)
    inner2 ←
        lift
          (if ltb max_cred_id_len (length cred_id) then panic else write (start + 2) cred_id inner1)
    tail ← fill w (max_cred_id_len - length cred_id)
    inner3 ← lift (write (start + 2 + length cred_id) tail inner2)
    kwk_nonce ← fill w nonce_len
    inner4 ← lift (write (start + 2 + max_cred_id_len) kwk_nonce inner3)
    kwk_ct ←
        lift (
          crypto_result (w.seal (combine_key w passphrase_key hw_output) kwk_nonce hw_slot_aad kwk))
    lift (write (start + 2 + max_cred_id_len + nonce_len) kwk_ct inner4)

  -- The loop over the places for hardware keys, from place `i` on.
  unfoldable pub write_entries : Bytes → Bytes → ℕ → ℕ → List Entry → Bytes → D Bytes
  unfolding write_entry fill write
  write_entries passphrase_key kwk zero i entries inner = pure inner
  write_entries passphrase_key kwk (suc places) i [] inner = do
    random ← fill w hw_slot_len
    next ← lift (write (entry_offset i) random inner)
    write_entries passphrase_key kwk places (i + 1) [] next
  write_entries passphrase_key kwk (suc places) i (e ∷ es) inner = do
    next ← write_entry passphrase_key kwk i e.credential_id e.hmac_output inner
    write_entries passphrase_key kwk places (i + 1) es next

  -- The loop over the labels.
  unfoldable pub write_labels : ℕ → ℕ → List Entry → Bytes → D Bytes
  unfolding encode_label fill write
  write_labels zero i entries inner = pure inner
  write_labels (suc places) i [] inner = do
    random ← fill w label_len
    next ← lift (write (label_offset i) random inner)
    write_labels places (i + 1) [] next
  write_labels (suc places) i (e ∷ es) inner = do
    next ← lift (write (label_offset i) (encode_label e.label) inner)
    write_labels places (i + 1) es next

  -- The outer layer: encrypts the inner payload, and pads the slot with random bytes.
  unfoldable pub assemble : Bytes → Bytes → D Bytes
  unfolding crypto_result fill write
  assemble passphrase_key inner = do
    outer_nonce ← fill w nonce_len
    outer_ct ← lift (crypto_result (w.seal passphrase_key outer_nonce slot_aad inner))
    slot1 ← lift (write 0 outer_nonce (replicate slot_len 0))
    slot2 ← lift (write nonce_len outer_ct slot1)
    padding ← fill w (slot_len - (nonce_len + length outer_ct))
    lift (write (nonce_len + length outer_ct) padding slot2)

  -- `if enrollment.is_empty() { no_hw_kwk(…) } else { random }`
  unfoldable pub choose_kwk : Bytes → List Entry → D Bytes
  unfolding no_hw_kwk fill
  choose_kwk passphrase_key [] = pure (no_hw_kwk w passphrase_key)
  choose_kwk passphrase_key (e ∷ es) = fill w kwk_len

  -- The wrap of the master key, and the metadata key behind it.
  unfoldable pub write_master : Bytes → Bytes → Bytes → Bytes → D Bytes
  unfolding crypto_result fill write
  write_master kwk master_key metadata_key inner0 = do
    master_nonce ← fill w nonce_len
    master_ct ← lift (
        crypto_result
          (w.seal kwk master_nonce master_aad (master_key ++ write_u32 (master_key_len % 2 ^ 32))))
    inner1 ← lift (write master_wrap_offset master_nonce inner0)
    inner2 ← lift (write (master_wrap_offset + nonce_len) master_ct inner1)
    lift (write metadata_key_offset metadata_key inner2)

  unfoldable pub wrap : Bytes → Bytes → Bytes → List Entry → D Bytes
  unfolding choose_kwk write_entries write_master write_labels assemble write
  wrap passphrase_key master_key metadata_key entries = do
    kwk ← choose_kwk passphrase_key entries
    inner0 ← lift (write 0 (length entries % 2 ^ 8 ∷ []) (replicate inner_plaintext_len 0))
    inner1 ← write_entries passphrase_key kwk max_hw_keys_per_level 0 entries inner0
    inner2 ← write_master kwk master_key metadata_key inner1
    inner3 ← write_labels max_hw_keys_per_level 0 entries inner2
    assemble passphrase_key inner3

  -- `fill_indistinguishable`
  unfoldable pub fill_indistinguishable : D Bytes
  unfolding fill
  fill_indistinguishable = fill w slot_len
