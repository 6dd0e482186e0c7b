-- ===== src/Format/Slot.antt =====
-- crates/farewell_format/src/slot.rs: the slot that wraps the master key, its layout, the hardware
-- keys enrolled in it and their labels.
pub mod Wrap
pub mod Unwrap
pub mod Keys
pub mod Enroll
pub mod Contents
pub mod Written
pub mod Layers
pub mod Payload
pub mod Wrapped
pub mod Opened
pub mod Observed
pub mod Labels
pub mod Kept
pub mod Added
pub mod Shifted
pub mod Removed
use farewell.Prelude.{
  ℕ, zero, suc, ◌+◌, ◌-◌, ◌*◌, ◌%◌, ◌^◌, Bool, true, false, ◌&&◌, ◌||◌, not, Option, none, some,
  List, [], ◌∷◌, ◌++◌, Bytes, codes, length, take, drop, replicate, ltb, leb, ◌==◌, if◌then◌else◌,
  min, get_or,
}
use farewell.Bytes.{from_le, write_u16}
use farewell.Bytes.Utf8.Lossy.{from_utf8_lossy}
use farewell.Format.Error.{
  Result, ok, err, panic, FormatError, crypto, manifest, require, transport, credential_too_long,
  too_many_hw_keys, slot_index_out_of_range, inner_length_mismatch, invalid_hw_key_count,
  invalid_credential_length, ◌>>=◌, ◌>>◌,
}
use farewell.Format.World.{World, nonce_len, tag_len}
use farewell.Format.Chunk.{crypto_result}
use farewell.Format.Buffer.{read, write}
use farewell.Format.Vault.Raw.{num_slots}

abbrev pub slot_len : ℕ
slot_len = 4096

-- `MASTER_KEY_LEN`, `METADATA_KEY_LEN` and `KWK_LEN` are the key length of the cipher.
abbrev pub master_key_len : ℕ
master_key_len = 32

abbrev pub kwk_len : ℕ
kwk_len = 32

abbrev pub metadata_key_len : ℕ
metadata_key_len = 32

abbrev pub max_hw_keys_per_level : ℕ
max_hw_keys_per_level = 3

-- Of crates/farewell_fido2.
abbrev pub max_cred_id_len : ℕ
max_cred_id_len = 256

-- The layout of the inner payload.
abbrev pub hw_slot_len : ℕ
hw_slot_len = 2 + max_cred_id_len + nonce_len + 32 + tag_len

abbrev pub master_wrap_payload_len : ℕ
master_wrap_payload_len = 32 + 4

abbrev pub master_wrap_len : ℕ
master_wrap_len = nonce_len + master_wrap_payload_len + tag_len

abbrev pub master_wrap_offset : ℕ
master_wrap_offset = 1 + max_hw_keys_per_level * hw_slot_len

abbrev pub metadata_key_offset : ℕ
metadata_key_offset = master_wrap_offset + master_wrap_len

abbrev pub label_len : ℕ
label_len = 48

abbrev pub labels_offset : ℕ
labels_offset = metadata_key_offset + metadata_key_len

abbrev pub inner_plaintext_len : ℕ
inner_plaintext_len = labels_offset + max_hw_keys_per_level * label_len

abbrev pub inner_ciphertext_len : ℕ
inner_ciphertext_len = inner_plaintext_len + tag_len

abbrev pub slot_aad : Bytes
slot_aad = codes "farewell.slot.v6"

-- `hw_slot_aad`, which does not depend on the index.
abbrev pub hw_slot_aad : Bytes
hw_slot_aad = codes "farewell.slot.hwwrap.v6"

abbrev pub master_aad : Bytes
master_aad = codes "farewell.slot.master.v6"

-- Where the entry and the label of hardware key `i` begin.
abbrev pub entry_offset : ℕ → ℕ
entry_offset i = 1 + i * hw_slot_len

abbrev pub label_offset : ℕ → ℕ
label_offset i = labels_offset + i * label_len

-- `SlotIndex::new`
unfoldable pub slot_index : ℕ → Result ℕ
slot_index n = if leb num_slots n then err (manifest (slot_index_out_of_range n)) else ok n

-- An entry of `LevelEnrollment`.
pub record Entry : Type 0 where
  pub credential_id : Bytes
  pub hmac_output : Bytes
  pub label : Bytes

-- `LevelEnrollment::push_labeled`
unfoldable pub push_labeled : List Entry → Entry → Result (List Entry)
push_labeled entries e =
    if ltb max_cred_id_len (length e.credential_id)
    then err (manifest (credential_too_long (length e.credential_id)))
    else if leb max_hw_keys_per_level (length entries)
    then err (manifest too_many_hw_keys)
    else ok (entries ++ (e ∷ []))

-- `LevelEnrollment::push`
unfoldable pub push : List Entry → Bytes → Bytes → Result (List Entry)
unfolding push_labeled
push entries credential_id hmac_output =
    push_labeled entries
      (record { credential_id = credential_id; hmac_output = hmac_output; label = [] })

module _ (w : World) where
  unfoldable pub fido_salt_from_vault_salt : Bytes → Bytes
  fido_salt_from_vault_salt vault_salt =
      w.derive_key_in (codes "farewell.fido.salt.v5") (codes "vault_salt:" ++ vault_salt)

  unfoldable pub combine_key : Bytes → Bytes → Bytes
  combine_key passphrase_key hw_output =
      w.derive_key_in (codes "farewell.combine.v5") (passphrase_key ++ hw_output)

  unfoldable pub no_hw_kwk : Bytes → Bytes
  no_hw_kwk passphrase_key = w.derive_key_in (codes "farewell.kwk.no_hw.v5") passphrase_key

-- `str::is_char_boundary`: a byte that does not continue a character, or the end.
unfoldable pub is_char_boundary : Bytes → ℕ → Bool
is_char_boundary label n =
    if n == 0 || n == length label
    then true
    else ltb n (length label) && (ltb (get_or label n 0) 0x80 || leb 0xc0 (get_or label n 0))

-- `while n > 0 && !label.is_char_boundary(n) { n -= 1 }`
unfoldable pub char_floor : Bytes → ℕ → ℕ
unfolding is_char_boundary
char_floor label zero = zero
char_floor label (suc n) =
    let lower = char_floor label n in if is_char_boundary label (suc n) then suc n else lower

-- The field that `encode_label` fills.
unfoldable pub encode_label : Bytes → Bytes
unfolding char_floor
encode_label label =
    let n = char_floor label (min (length label) label_len) in
    take n label ++ replicate (label_len - n) 0

-- The bytes in front of the first 0.
unfoldable pub until_zero : Bytes → Bytes
until_zero [] = []
until_zero (b ∷ bs) = let rest = until_zero bs in if b == 0 then [] else b ∷ rest

unfoldable pub decode_label : Bytes → Bytes
unfolding until_zero from_utf8_lossy
decode_label field = from_utf8_lossy (until_zero field)

-- `inner_plain[0] as usize`
unfoldable pub read_count : Bytes → ℕ
unfolding read from_le
read_count inner = from_le (read 0 1 inner)

-- The outer layer: the inner payload, and the number of its hardware keys. The length is tested, so
-- no read of the inner payload is out of range.
unfoldable pub decrypt_outer : World → Bytes → Bytes → Result Bytes
unfolding crypto_result read read_count
decrypt_outer w slot passphrase_key = do
  inner ← crypto_result (
      w.unseal passphrase_key (read 0 nonce_len slot) slot_aad
        (read nonce_len inner_ciphertext_len slot))
  require (length inner == inner_plaintext_len) (manifest inner_length_mismatch)
  require (leb (read_count inner) max_hw_keys_per_level)
      (manifest (invalid_hw_key_count (read_count inner)))
  ok inner

-- The credential of hardware key `i`.
unfoldable pub read_credential : Bytes → ℕ → Result Bytes
unfolding read from_le
read_credential inner i =
    let cred_len = from_le (read (entry_offset i) 2 inner) in
    if cred_len == 0 || ltb max_cred_id_len cred_len
    then err (manifest (invalid_credential_length i cred_len))
    else ok (read (entry_offset i + 2) cred_len inner)

-- `aead::decrypt` of the KWK in the entry of hardware key `i`, under a combined key.
unfoldable pub unseal_kwk : World → Bytes → Bytes → ℕ → Option Bytes
unfolding read
unseal_kwk w combined inner i =
    w.unseal combined (read (entry_offset i + 2 + max_cred_id_len) nonce_len inner) hw_slot_aad
      (read (entry_offset i + 2 + max_cred_id_len + nonce_len) (kwk_len + tag_len) inner)
