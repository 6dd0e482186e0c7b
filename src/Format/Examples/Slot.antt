-- ===== src/Format/Examples/Slot.antt =====
-- A slot with two keys, in a world that tells keys apart, and a metadata blob.
use farewell.Prelude.{
  ℕ, ◌+◌, ◌-◌, ◌≡◌, refl, sym, ap, ◌∙◌, Bool, true, false, Option, none, some, [], ◌∷◌, ◌++◌, Bytes,
  codes, replicate, arith, take, drop, length, bytes_eq, bytes_eq_refl, length-append, length-take,
  length-replicate, take-append, drop-append,
}
use mathlib.Core.Path.{subst}
use farewell.Format.World.{World, IsLawful, nonce_len, tag_len}
use farewell.Format.Buffer.{read}
use farewell.Bytes.{to_le, from_le}
use farewell.Format.Error.{Result, ok, err, crypto, hardware_key_required}
use farewell.Format.Slot.{Entry, slot_aad, inner_ciphertext_len}
use farewell.Format.Slot.Wrap.{wrap}
use farewell.Format.Slot.Unwrap.{try_unwrap_all}
use farewell.Format.Slot.Contents.{Contents, IsSlot}
use farewell.Format.Slot.Wrapped.{wrap-IsSlot}
use farewell.Format.Slot.Observed.{try_unwrap-no-key}
use farewell.Format.Metadata.{Metadata, open_blob}
use farewell.Format.Metadata.Seal.{seal}
use farewell.Format.Metadata.RoundTrip.{open_blob-seal}
use farewell.Format.Metadata.Attested.{IsAttested, open_blob-IsAttested}
use farewell.Format.Examples.{calm, world-IsLawful}

abbrev bytes_of : Result Bytes → Bytes
bytes_of (ok b) = b
bytes_of _ = []

abbrev key_a : Entry
key_a = record { credential_id = 9 ∷ []; hmac_output = replicate 32 5; label = codes "blue" }

abbrev key_b : Entry
key_b = record { credential_id = 8 ∷ 8 ∷ []; hmac_output = replicate 32 6; label = codes "red" }

abbrev pp_key : Bytes
pp_key = replicate 32 1

abbrev master_key : Bytes
master_key = replicate 32 2

abbrev md_key : Bytes
md_key = replicate 32 3

abbrev contents : Bytes → Contents
contents kwk = record {
  entries = key_a ∷ key_b ∷ [];
  kwk = kwk;
  master_key = master_key;
  metadata_key = md_key;
}

-- The wrong passphrase is refused: a world whose tag is the key's first bytes, which are checked.
abbrev key_tag : Bytes → Bytes
key_tag key = take tag_len (key ++ replicate tag_len 0)

abbrev if_tagged : Bool → Bytes → Option Bytes
if_tagged true message = some message
if_tagged false message = none

abbrev strict : World
strict = record calm {
  seal = λ key nonce aad message. some (message ++ key_tag key);
  unseal = λ key nonce aad sealed.
      if_tagged (bytes_eq (drop (length sealed - tag_len) sealed) (key_tag key))
        (take (length sealed - tag_len) sealed);
}

length-key_tag : (key : Bytes) → length (key_tag key) ≡ tag_len
length-key_tag key =
    length-take tag_len (key ++ replicate tag_len 0)
    ∙ omega (arith, length-append key (replicate tag_len 0), length-replicate {A = ℕ} tag_len 0)

length-tagged : (k m c : Bytes) → m ++ key_tag k ≡ c → length c ≡ length m + tag_len
length-tagged k m c h =
    ap length (sym h) ∙ omega (arith, length-append m (key_tag k), length-key_tag k)

strict-unseals :
    (k m : Bytes) (n : ℕ)
    → n ≡ length m
    → if_tagged (bytes_eq (drop n (m ++ key_tag k)) (key_tag k)) (take n (m ++ key_tag k)) ≡ some m
strict-unseals k m n h =
    rw (drop-append n m (key_tag k) h, take-append n m (key_tag k) h, bytes_eq_refl (key_tag k))

calm-IsLawful : IsLawful calm
calm-IsLawful = world-IsLawful (λ t. none) true

strict-IsLawful : IsLawful strict
strict-IsLawful = record {
  unseal-seal = λ k n a m c h.
      let same : m ++ key_tag k ≡ c = cc h in
      let long = length-tagged k m c same in
      subst (λ c. length c ≡ length m + tag_len → strict.unseal k n a c ≡ some m) same
        (λ e. strict-unseals k m (length (m ++ key_tag k) - tag_len) (omega (arith, e))) long;
  length-seal = λ k n a m c h. length-tagged k m c (cc h);
  length-derive_key_in = calm-IsLawful.length-derive_key_in;
  mldsa_is_key-generate = calm-IsLawful.mldsa_is_key-generate;
  mldsa_verify-sign = calm-IsLawful.mldsa_verify-sign;
  length-mldsa_generate = calm-IsLawful.length-mldsa_generate;
  length-mldsa_sign = calm-IsLawful.length-mldsa_sign;
  length-fill = calm-IsLawful.length-fill;
  choose_multiple-from = calm-IsLawful.choose_multiple-from;
  choose_multiple-IsDistinct = calm-IsLawful.choose_multiple-IsDistinct;
  length-choose_multiple = calm-IsLawful.length-choose_multiple;
}

abbrev strict_slot : Bytes
strict_slot = bytes_of (wrap strict pp_key master_key md_key (key_a ∷ key_b ∷ []) 0).0

strict-wrapped : (wrap strict pp_key master_key md_key (key_a ∷ key_b ∷ []) 0).0 ≡ ok strict_slot
unfolding wrap replicate take drop to_le
strict-wrapped = refl

strict_slot-IsSlot : (kwk : Bytes) × IsSlot strict pp_key (contents kwk) strict_slot
unfolding replicate
strict_slot-IsSlot =
    wrap-IsSlot strict strict-IsLawful pp_key master_key md_key (key_a ∷ key_b ∷ []) 0 strict_slot
      refl refl (omega arith)
      (
        record { not_empty = omega arith; fits = omega arith },
        (record { not_empty = omega arith; fits = omega arith }, tt),
      )
      strict-wrapped

abbrev wrong_key : Bytes
wrong_key = replicate 32 8

wrong :
    strict.unseal wrong_key
      (read 0 nonce_len strict_slot)
      slot_aad
      (read nonce_len inner_ciphertext_len strict_slot)
    ≡ none
unfolding wrap replicate take drop to_le bytes_eq read
wrong = refl

try_unwrap-no-key_example :
    (try_unwrap_all strict (strict_slot ∷ []) pp_key (replicate 32 4) none
      ≡ err hardware_key_required)
    × (try_unwrap_all strict (strict_slot ∷ []) wrong_key (replicate 32 4) none ≡ err crypto)
try_unwrap-no-key_example =
    try_unwrap-no-key strict strict-IsLawful pp_key (contents strict_slot-IsSlot.0) strict_slot
      (replicate 32 4) strict_slot-IsSlot.1 (λ h. cc h) wrong_key none wrong

abbrev metadata : Metadata
metadata = record {
  version = 6;
  total_chunks = 8;
  mldsa_vk = replicate 2592 1;
  mldsa_sig = replicate 4627 2;
}

abbrev blob : Bytes
blob = bytes_of (seal calm metadata md_key 0).0

sealed : (seal calm metadata md_key 0).0 ≡ ok blob
unfolding seal wrap replicate take drop to_le from_le
sealed = refl

blob-opens : open_blob calm blob md_key (replicate 32 4) ≡ ok metadata
unfolding replicate
blob-opens =
    open_blob-seal calm (world-IsLawful (λ t. none) true) metadata md_key (replicate 32 4) blob 0
      (record {
        version = omega arith;
        total_chunks = omega arith;
        length_vk = refl;
        length_sig = refl;
      })
      refl refl refl sealed

open_blob-IsAttested_example : IsAttested calm (replicate 32 4) metadata
open_blob-IsAttested_example =
    open_blob-IsAttested calm blob md_key (replicate 32 4) metadata blob-opens
