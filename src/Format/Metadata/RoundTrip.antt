-- ===== src/Format/Metadata/RoundTrip.antt =====
-- Metadata that was sealed opens again (metadata.rs).
use farewell.Prelude.{
  ℕ, ◌+◌, ◌^◌, ◌<◌, ◌≡◌, refl, sym, ap, ◌∙◌, true, false, Bytes, length, replicate, arith, some,
  ltb, ◌==◌, bytes_eq, bytes_eq_refl, length-replicate,
}
use farewell.Bytes.{from_le, write_u16, write_u64, length-to_le, from_le-to_le}
use farewell.Format.Error.{ok, >>=-eq-ok}
use farewell.Format.World.{World, IsLawful, nonce_len, tag_len}
use farewell.Format.Chunk.{crypto_result}
use farewell.Format.Chunk.RoundTrip.{crypto_result-eq-ok}
use farewell.Format.Buffer.{read, write}
use farewell.Format.Buffer.Laws.{IsWritten, write-eq-ok, read-here}
use farewell.Format.Draws.{lift, fill}
use farewell.Format.Draws.Laws.{bind-eq-ok, length-fill}
use farewell.Format.Metadata.{
  Metadata, format_version, metadata_magic, algorithm_ids, metadata_aad, off_version, off_ids,
  off_total_chunks, off_vk, off_sig, mldsa_vk_len, mldsa_sig_len, metadata_plaintext_len,
  metadata_blob_len, write_metadata, read_metadata, verify_attestation, open_blob,
  signed_metadata_message,
}
use farewell.Format.Metadata.Seal.{seal}

-- Metadata of Rust's types.
pub record IsMetadata (m : Metadata) : Type 0 where
  pub version : m.version < 2 ^ 16
  pub total_chunks : m.total_chunks < 2 ^ 64
  pub length_vk : length m.mldsa_vk ≡ mldsa_vk_len
  pub length_sig : length m.mldsa_sig ≡ mldsa_sig_len

-- The plaintext of metadata.
record IsPlain (m : Metadata) (plain : Bytes) : Type 0 where
  whole : length plain ≡ metadata_plaintext_len
  magic : read 0 4 plain ≡ metadata_magic
  fields : read_metadata plain ≡ m

write_metadata-IsPlain :
    (m : Metadata) (plain : Bytes) → IsMetadata m → write_metadata m ≡ ok plain → IsPlain m plain
unfolding write_metadata read_metadata
write_metadata-IsPlain m plain t h =
    let zeros : Bytes = replicate metadata_plaintext_len 0 in
    let (p1, put1, h1) = >>=-eq-ok (write 0 metadata_magic zeros) _ h in
    let (p2, put2, h2) = >>=-eq-ok (write off_version (write_u16 m.version) p1) _ h1 in
    let (p3, put3, h3) = >>=-eq-ok (write off_ids algorithm_ids p2) _ h2 in
    let (p4, put4, h4) = >>=-eq-ok (write off_total_chunks (write_u64 m.total_chunks) p3) _ h3 in
    let (p5, put5, put6) = >>=-eq-ok (write off_vk m.mldsa_vk p4) _ h4 in
    let w1 = write-eq-ok 0 metadata_magic zeros put1 in
    let w2 = write-eq-ok off_version (write_u16 m.version) p1 put2 in
    let w3 = write-eq-ok off_ids algorithm_ids p2 put3 in
    let w4 = write-eq-ok off_total_chunks (write_u64 m.total_chunks) p3 put4 in
    let w5 = write-eq-ok off_vk m.mldsa_vk p4 put5 in
    let w6 = write-eq-ok off_sig m.mldsa_sig p5 put6 in
    let l2 = length-to_le 2 m.version in
    let l8 = length-to_le 8 m.total_chunks in
    let vk = t.length_vk in
    let magic : read 0 4 plain ≡ metadata_magic =
      w6.before 0 4 (omega arith)
      ∙ w5.before 0 4 (omega arith)
      ∙ w4.before 0 4 (omega arith)
      ∙ w3.before 0 4 (omega arith)
      ∙ w2.before 0 4 (omega arith)
      ∙ read-here 0 4 w1 refl in
    let version : read off_version 2 plain ≡ write_u16 m.version =
      w6.before off_version 2 (omega arith)
      ∙ w5.before off_version 2 (omega arith)
      ∙ w4.before off_version 2 (omega arith)
      ∙ w3.before off_version 2 (omega arith)
      ∙ read-here off_version 2 w2 (sym l2) in
    let total : read off_total_chunks 8 plain ≡ write_u64 m.total_chunks =
      w6.before off_total_chunks 8 (omega arith)
      ∙ w5.before off_total_chunks 8 (omega arith)
      ∙ read-here off_total_chunks 8 w4 (sym l8) in
    let key : read off_vk mldsa_vk_len plain ≡ m.mldsa_vk =
      w6.before off_vk mldsa_vk_len (omega arith) ∙ read-here off_vk mldsa_vk_len w5 (sym vk) in
    let sig : read off_sig mldsa_sig_len plain ≡ m.mldsa_sig =
      read-here off_sig mldsa_sig_len w6 (sym t.length_sig) in
    record {
      whole =
          w6.same_length
          ∙ w5.same_length
          ∙ w4.same_length
          ∙ w3.same_length
          ∙ w2.same_length
          ∙ w1.same_length
          ∙ length-replicate metadata_plaintext_len 0;
      magic = magic;
      fields = λ j. record {
        version = (ap from_le version ∙ from_le-to_le 2 m.version t.version) j;
        total_chunks = (ap from_le total ∙ from_le-to_le 8 m.total_chunks t.total_chunks) j;
        mldsa_vk = key j;
        mldsa_sig = sig j;
      };
    }

module _ (w : World) (lawful : IsLawful w) where
  opened :
      (m : Metadata) (metadata_key salt plain nonce ct b1 blob : Bytes)
      → m.version ≡ format_version
      → w.mldsa_is_key m.mldsa_vk ≡ true
      → w.mldsa_verify m.mldsa_vk
          (signed_metadata_message m.version m.total_chunks salt m.mldsa_vk)
          m.mldsa_sig
        ≡ true
      → IsPlain m plain
      → length nonce ≡ nonce_len
      → w.seal metadata_key nonce metadata_aad plain ≡ some ct
      → IsWritten 0 nonce (replicate metadata_blob_len 0) b1
      → IsWritten nonce_len ct b1 blob
      → open_blob w blob metadata_key salt ≡ ok m
  unfolding open_blob crypto_result verify_attestation
  opened m metadata_key salt plain nonce ct b1 blob version is_key signed p ln sealed w1 w2 =
      let whole = p.whole in
      let long = lawful.length-seal metadata_key nonce metadata_aad plain ct sealed in
      let size : length blob ≡ metadata_blob_len =
        w2.same_length ∙ w1.same_length ∙ length-replicate metadata_blob_len 0 in
      let big : ltb (length blob) metadata_blob_len ≡ false = ground arith in
      let front : read 0 nonce_len blob ≡ nonce =
        w2.before 0 nonce_len (omega arith) ∙ read-here 0 nonce_len w1 (sym ln) in
      let back : read nonce_len (metadata_plaintext_len + tag_len) blob ≡ ct =
        read-here nonce_len (metadata_plaintext_len + tag_len) w2 (omega (arith, long, whole)) in
      let opens = lawful.unseal-seal metadata_key nonce metadata_aad plain ct sealed in
      let right : (length plain == metadata_plaintext_len) ≡ true = ground arith in
      let magic : bytes_eq (read 0 4 plain) metadata_magic ≡ true =
        ap (λ b. bytes_eq b metadata_magic) p.magic ∙ bytes_eq_refl metadata_magic in
      let current : (m.version == format_version) ≡ true = ground arith in
      rw (big, front, back, opens, right, magic, p.fields, current, is_key, signed)

  -- Metadata of this version that was sealed, and whose signature verifies under its own key for the
  -- salt, is what the blob opens to under the same key and salt.
  pub open_blob-seal :
      (m : Metadata) (metadata_key salt blob : Bytes) (t : ℕ)
      → IsMetadata m
      → m.version ≡ format_version
      → w.mldsa_is_key m.mldsa_vk ≡ true
      → w.mldsa_verify m.mldsa_vk
          (signed_metadata_message m.version m.total_chunks salt m.mldsa_vk)
          m.mldsa_sig
        ≡ true
      → (seal w m metadata_key t).0 ≡ ok blob
      → open_blob w blob metadata_key salt ≡ ok m
  unfolding seal
  open_blob-seal m metadata_key salt blob t typed version is_key signed h =
      let (plain, t1, put, h1) = bind-eq-ok (lift (write_metadata m)) _ t h in
      let (nonce, t2, draw, h2) = bind-eq-ok (fill w nonce_len) _ t1 h1 in
      let (ct, t3, enc, h3) =
        bind-eq-ok (lift (crypto_result (w.seal metadata_key nonce metadata_aad plain))) _ t2 h2 in
      let (b1, t4, put1, put2) =
        bind-eq-ok (lift (write 0 nonce (replicate metadata_blob_len 0))) _ t3 h3 in
      let sealed = crypto_result-eq-ok (w.seal metadata_key nonce metadata_aad plain) enc in
      opened m metadata_key salt plain nonce ct b1 blob version is_key signed
        (write_metadata-IsPlain m plain typed put) (length-fill w lawful nonce_len t1 draw) sealed
        (write-eq-ok 0 nonce (replicate metadata_blob_len 0) put1)
        (write-eq-ok nonce_len ct b1 put2)
