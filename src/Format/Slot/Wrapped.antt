-- ===== src/Format/Slot/Wrapped.antt =====
-- `WrappedSlot::wrap` of slot.rs builds a slot that holds what it was given.
use farewell.Prelude.{
  ℕ, ◌+◌, ◌%◌, ◌^◌, ◌≤◌, ◌≡◌, refl, sym, ap, ◌∙◌, List, [], ◌∷◌, Bytes, length, replicate, arith,
  All, length-replicate,
}
use farewell.Bytes.{from_le}
use farewell.Format.Error.{ok}
use farewell.Format.World.{World, IsLawful, nonce_len}
use farewell.Format.Buffer.{read, write}
use farewell.Format.Buffer.Laws.{read-here, IsWritten, write-eq-ok}
use farewell.Format.Draws.{lift}
use farewell.Format.Draws.Laws.{bind-eq-ok, length-fill}
use farewell.Format.Slot.{
  Entry, kwk_len, entry_offset, label_offset, metadata_key_len, inner_plaintext_len, no_hw_kwk,
  read_count, max_hw_keys_per_level, master_wrap_offset, labels_offset, master_aad,
}
use farewell.Format.Slot.Wrap.{write_entries, write_labels, write_master, choose_kwk, wrap}
use farewell.Format.Slot.Contents.{Contents, IsKey, Indexed, HasEntry, IsInner, IsSlot}
use farewell.Format.Slot.Written.{Touched}
use farewell.Format.Slot.Layers.{IsLabelled, write_labels-IsLabelled, assemble-opens}
use farewell.Format.Slot.Payload.{
  HasEntry-before, IsEnrolled, write_entries-IsEnrolled, IsMasterWritten,
  write_master-IsMasterWritten,
}

-- The entries stand where only what lies behind them has changed.
pub keys-before :
    (w : World) (passphrase_key kwk : Bytes) (lo hi i : ℕ) (es : List Entry) (a b : Bytes)
    → entry_offset (i + length es) ≤ lo
    → All IsKey es
    → Touched lo hi a b
    → Indexed (HasEntry w passphrase_key kwk a) i es
    → Indexed (HasEntry w passphrase_key kwk b) i es
keys-before w passphrase_key kwk lo hi i [] a b below usable t h = tt
keys-before w passphrase_key kwk lo hi i (e ∷ es) a b below (usable, rest) t (first, later) = (
  let fits = usable.fits in
      HasEntry-before w passphrase_key kwk lo hi i e a b fits (omega arith) t first,
  keys-before w passphrase_key kwk lo hi (i + 1) es a b (omega arith) rest t later,
)

module _ (w : World) (lawful : IsLawful w) where
  choose_kwk-eq-ok :
      (passphrase_key : Bytes) (es : List Entry) (t : ℕ) {kwk : Bytes}
      → (choose_kwk w passphrase_key es t).0 ≡ ok kwk
      → (length kwk ≡ kwk_len) × (es ≡ [] → kwk ≡ no_hw_kwk w passphrase_key)
  unfolding choose_kwk no_hw_kwk
  choose_kwk-eq-ok passphrase_key [] t {kwk} h =
      let same : no_hw_kwk w passphrase_key ≡ kwk = cc in
      (ap length (sym same) ∙ lawful.length-derive_key_in _ passphrase_key, λ e. sym same)
  choose_kwk-eq-ok passphrase_key (e ∷ es) t h =
      (length-fill w lawful kwk_len t h, λ none'. absurd (cc))

  pub count_written :
      (n : ℕ) (a b : Bytes)
      → n ≤ max_hw_keys_per_level
      → IsWritten 0 (n % 2 ^ 8 ∷ []) a b
      → read_count b ≡ n
  unfolding read_count from_le
  count_written n a b few put = ap from_le (read-here 0 1 put refl) ∙ omega arith

  -- The steps of `wrap`, put together.
  IsInner-wrapped :
      (passphrase_key : Bytes) (c : Contents) (a0 a1 a2 a3 : Bytes)
      → length c.kwk ≡ kwk_len
      → (c.entries ≡ [] → c.kwk ≡ no_hw_kwk w passphrase_key)
      → length c.entries ≤ max_hw_keys_per_level
      → All IsKey c.entries
      → length c.master_key ≡ 32
      → length a0 ≡ inner_plaintext_len
      → read_count a0 ≡ length c.entries
      → IsEnrolled w lawful passphrase_key c.kwk 0 3 c.entries a0 a1
      → IsMasterWritten w lawful c.kwk c.master_key c.metadata_key a1 a2
      → IsLabelled w lawful 0 3 c.entries a2 a3
      → IsInner w passphrase_key c a3
  unfolding read_count
  IsInner-wrapped passphrase_key c a0 a1 a2 a3 lk without few usable lm whole count en ma la =
      record {
        whole = la.touched.same_length ∙ ma.touched.same_length ∙ en.touched.same_length ∙ whole;
        count =
            ap from_le (
              la.touched.before 0 1 (omega arith)
              ∙ ma.touched.before 0 1 (omega arith)
              ∙ en.touched.before 0 1 (omega arith))
            ∙ count;
        few = few;
        usable = usable;
        keys =
            keys-before w passphrase_key c.kwk labels_offset (label_offset 3) 0 c.entries a2 a3
              (omega arith) usable la.touched
              (keys-before w passphrase_key c.kwk master_wrap_offset labels_offset 0 c.entries a1 a2
                (omega arith) usable ma.touched en.keys);
        labels = la.labels;
        master =
            ap (λ n. w.unseal c.kwk n master_aad (read 967 52 a3))
              (la.touched.before master_wrap_offset nonce_len (omega arith))
            ∙ ap (w.unseal c.kwk (read master_wrap_offset nonce_len a2) master_aad)
                (la.touched.before 967 52 (omega arith))
            ∙ ma.master;
        metadata = la.touched.before 1019 metadata_key_len (omega arith) ∙ ma.metadata;
        length_kwk = lk;
        length_master = lm;
        without_keys = without;
      }

  -- A slot that `wrap` has built, for at most three keys with usable credentials, holds the keys, the
  -- master key and the metadata key it was given, under a key-wrapping key of its own.
  pub wrap-IsSlot :
      (passphrase_key master_key metadata_key : Bytes) (es : List Entry) (t : ℕ) (slot : Bytes)
      → length master_key ≡ 32
      → length metadata_key ≡ metadata_key_len
      → length es ≤ max_hw_keys_per_level
      → All IsKey es
      → (wrap w passphrase_key master_key metadata_key es t).0 ≡ ok slot
      → (kwk : Bytes) × IsSlot w passphrase_key
          (record { entries = es; kwk = kwk; master_key = master_key; metadata_key = metadata_key })
          slot
  unfolding wrap
  wrap-IsSlot passphrase_key master_key metadata_key es t slot lm lmeta few usable h =
      let (kwk, t1, chosen, h1) = bind-eq-ok (choose_kwk w passphrase_key es) _ t h in
      let zeros : Bytes = replicate inner_plaintext_len 0 in
      let (a0, t2, put, h2) = bind-eq-ok (lift (write 0 (length es % 2 ^ 8 ∷ []) zeros)) _ t1 h1 in
      let (a1, t3, enrolled, h3) =
        bind-eq-ok (write_entries w passphrase_key kwk max_hw_keys_per_level 0 es a0) _ t2 h2 in
      let (a2, t4, mastered, h4) =
        bind-eq-ok (write_master w kwk master_key metadata_key a1) _ t3 h3 in
      let (a3, t5, labelled, h5) =
        bind-eq-ok (write_labels w max_hw_keys_per_level 0 es a2) _ t4 h4 in
      let c : Contents = record {
        entries = es;
        kwk = kwk;
        master_key = master_key;
        metadata_key = metadata_key;
      } in
      let (lk, without) = choose_kwk-eq-ok passphrase_key es t chosen in
      let first = write-eq-ok 0 (length es % 2 ^ 8 ∷ []) zeros put in
      let inner =
        IsInner-wrapped passphrase_key c a0 a1 a2 a3 lk without few usable lm
          (first.same_length ∙ length-replicate inner_plaintext_len 0)
          (count_written (length es) zeros a0 few first)
          (write_entries-IsEnrolled w lawful passphrase_key kwk 3 0 t2 es a0 lk few enrolled)
          (write_master-IsMasterWritten w lawful kwk master_key metadata_key t3 a1 lm lmeta
            mastered)
          (write_labels-IsLabelled w lawful 3 0 t4 es a2 few labelled) in
      (
        kwk,
        record {
          inner = a3;
          opens = assemble-opens w lawful passphrase_key a3 t5 inner.whole h5;
          is_inner = inner;
        },
      )
