-- ===== src/Format/Slot/Removed.antt =====
-- `WrappedSlot::remove_credential` of slot.rs drops one key and keeps the others.
use farewell.Prelude.{
  ℕ, zero, suc, ◌+◌, ◌-◌, ◌%◌, ◌^◌, ◌≤◌, ◌<◌, ◌≡◌, sym, ap, ◌∙◌, true, not, List, [], ◌∷◌, Bytes,
  length, arith, All, leb,
}
use mathlib.Core.Path.{subst}
use farewell.Format.Error.{ok, manifest, require, require-eq-ok}
use farewell.Format.Error.{key_index_out_of_range, last_hw_key}
use farewell.Format.World.{World, IsLawful, nonce_len}
use farewell.Format.Buffer.{read, write}
use farewell.Format.Buffer.Laws.{IsWritten, write-eq-ok}
use farewell.Format.Draws.{lift, fill}
use farewell.Format.Draws.Laws.{bind-eq-ok, length-fill}
use farewell.Format.Slot.{
  Entry, entry_offset, label_offset, label_len, metadata_key_len, master_aad, decrypt_outer,
  read_count, hw_slot_len, master_wrap_offset,
}
use farewell.Format.Slot.Wrap.{assemble}
use farewell.Format.Slot.Enroll.{shift_down, remove_credential}
use farewell.Format.Slot.Contents.{Contents, IsKey, Indexed, HasEntry, HasLabel, IsInner, IsSlot}
use farewell.Format.Slot.Layers.{assemble-opens}
use farewell.Format.Slot.Wrapped.{count_written}
use farewell.Format.Slot.Opened.{decrypt_outer-IsInner}
use farewell.Format.Slot.Kept.{keys_keep, labels_keep}
use farewell.Format.Slot.Shifted.{IsShifted, shift_down-IsShifted}

-- The list without the item at an index.
abbrev pub without : ℕ → List Entry → List Entry
without index [] = []
without zero (e ∷ es) = es
without (suc index) (e ∷ es) = e ∷ without index es

length-without :
    (index : ℕ) (es : List Entry) → index < length es → length (without index es) + 1 ≡ length es
length-without index [] h = absurd (omega arith)
length-without zero (e ∷ es) h = omega arith
length-without (suc index) (e ∷ es) h = omega (arith, length-without index es (omega arith))

All-without :
    (P : Entry → Type 0) (index : ℕ) (es : List Entry) → All P es → All P (without index es)
All-without P index [] h = tt
All-without P zero (e ∷ es) (p, h) = h
All-without P (suc index) (e ∷ es) (p, h) = (p, All-without P index es h)

-- The items in front of place `s` stay, the items behind it move down by one place.
Indexed-without :
    (P Q : ℕ → Entry → Type 0) (index i s n : ℕ) (es : List Entry)
    → s ≡ i + index
    → length es ≡ index + suc n
    → All IsKey es
    → ((j : ℕ) (e : Entry) → j < s → IsKey e → P j e → Q j e)
    → ((tail : List Entry)
        → length tail ≡ n
        → All IsKey tail
        → Indexed P (s + 1) tail
        → Indexed Q s tail)
    → Indexed P i es
    → Indexed Q i (without index es)
Indexed-without P Q index i s n [] e q usable keep shift h = tt
Indexed-without P Q zero i s n (x ∷ es) e q (key, keys) keep shift (here, there) =
    let at_s : s ≡ i = omega arith in
    subst (λ (j : ℕ). Indexed Q j es) at_s
      (shift es (omega arith) keys (subst (λ (j : ℕ). Indexed P (j + 1) es) (sym at_s) there))
Indexed-without P Q (suc index) i s n (x ∷ es) e q (key, keys) keep shift (here, there) = (
  keep i x (omega arith) key here,
  Indexed-without P Q index (i + 1) s n es (omega arith) (omega arith) keys keep shift there,
)

module _ (w : World) (lawful : IsLawful w) (passphrase_key : Bytes) where
  -- The writes of `remove_credential` into the inner payload, put together: `n` entries stand behind
  -- the one that goes.
  IsInner-removed :
      (c : Contents) (index n k : ℕ) (entry label a0 a1 a2 a3 a4 : Bytes)
      → IsInner w passphrase_key c a0
      → k ≡ length c.entries
      → k ≡ index + suc n
      → 1 < k
      → length entry ≡ hw_slot_len
      → length label ≡ label_len
      → IsShifted w passphrase_key c.kwk index n a0 a1
      → IsWritten (entry_offset (k - 1)) entry a1 a2
      → IsWritten (label_offset (k - 1)) label a2 a3
      → IsWritten 0 ((k - 1) % 2 ^ 8 ∷ []) a3 a4
      → IsInner w passphrase_key (record c { entries = without index c.entries }) a4
  IsInner-removed c index n k entry label a0 a1 a2 a3 a4 i all' split many le ll sh w1 w2 w3 =
      let few = i.few in
      let fewer = length-without index c.entries (omega (arith, all', split)) in
      let left = without index c.entries in
      let usable = All-without IsKey index c.entries i.usable in
      let later = λ (o q : ℕ) (above : 1 ≤ o) (below : o + q ≤ label_offset (k - 1)).
        w3.after o q above ∙ w2.before o q below in
      let behind =
        λ (o q : ℕ) (above : master_wrap_offset ≤ o) (below : o + q ≤ label_offset index).
          later o q (omega arith) (omega arith)
          ∙ w1.after o q (omega (arith, le))
          ∙ sh.middle o q (omega arith) below in
      let keys =
        Indexed-without (HasEntry w passphrase_key c.kwk a0) (HasEntry w passphrase_key c.kwk a1)
          index 0 index n c.entries (omega arith) (omega arith) i.usable
          (λ j e below key h.
            let one =
              keys_keep w passphrase_key c.kwk j (e ∷ []) a0 a1 (key, tt)
                (λ o q lo hi. sh.front o q (omega arith)) (h, tt) in
            one.0)
          sh.keys i.keys in
      let labels =
        Indexed-without (HasLabel a0) (HasLabel a1) index 0 index n c.entries (omega arith)
          (omega arith) i.usable
          (λ j e below key h. sh.middle (label_offset j) label_len (omega arith) (omega arith) ∙ h)
          (λ tail q r h. sh.labels tail q h) i.labels in
      record {
        whole = w3.same_length ∙ w2.same_length ∙ w1.same_length ∙ sh.same_length ∙ i.whole;
        count =
            count_written w lawful (k - 1) a3 a4 (omega (arith, all', few)) w3
            ∙ omega (arith, fewer, all');
        few = omega (arith, fewer, few);
        usable = usable;
        keys =
            keys_keep w passphrase_key c.kwk 0 left a1 a4 usable
              (λ o q lo hi.
                later o q (omega arith) (omega (arith, fewer, all', few))
                ∙ w1.before o q (omega (arith, fewer, all')))
              keys;
        labels =
            labels_keep 0 left a1 a4
              (λ o q lo hi.
                later o q (omega arith) (omega (arith, fewer, all'))
                ∙ w1.after o q (omega (arith, le, all', few)))
              labels;
        master =
            ap (λ n. w.unseal c.kwk n master_aad (read 967 52 a4))
              (behind master_wrap_offset nonce_len (omega arith) (omega arith))
            ∙ ap (w.unseal c.kwk (read master_wrap_offset nonce_len a0) master_aad)
                (behind 967 52 (omega arith) (omega arith))
            ∙ i.master;
        metadata = behind 1019 metadata_key_len (omega arith) (omega arith) ∙ i.metadata;
        length_kwk = i.length_kwk;
        length_master = i.length_master;
        without_keys = λ empty. absurd (omega (arith, fewer, ap length empty));
      }

  IsSlot-removed :
      (c : Contents) (index n k t : ℕ) (entry label a0 a1 a2 a3 a4 slot' : Bytes)
      → IsInner w passphrase_key c a0
      → k ≡ length c.entries
      → k ≡ index + suc n
      → 1 < k
      → length entry ≡ hw_slot_len
      → length label ≡ label_len
      → IsShifted w passphrase_key c.kwk index n a0 a1
      → IsWritten (entry_offset (k - 1)) entry a1 a2
      → IsWritten (label_offset (k - 1)) label a2 a3
      → IsWritten 0 ((k - 1) % 2 ^ 8 ∷ []) a3 a4
      → (assemble w passphrase_key a4 t).0 ≡ ok slot'
      → IsSlot w passphrase_key (record c { entries = without index c.entries }) slot'
  IsSlot-removed c index n k t entry label a0 a1 a2 a3 a4 slot' i all' split many le ll sh w1 w2 w3
        h =
      let inner =
        IsInner-removed c index n k entry label a0 a1 a2 a3 a4 i all' split many le ll sh w1 w2
          w3 in
      record {
        inner = a4;
        opens = assemble-opens w lawful passphrase_key a4 t inner.whole h;
        is_inner = inner;
      }

  finish :
      (c : Contents) (index k t t' : ℕ) (entry label a0 a1 a2 a3 a4 slot' : Bytes)
      → IsInner w passphrase_key c a0
      → k ≡ length c.entries
      → index < k
      → 1 < k
      → length entry ≡ hw_slot_len
      → length label ≡ label_len
      → (shift_down (k - 1 - index) index a0 t).0 ≡ ok a1
      → IsWritten (entry_offset (k - 1)) entry a1 a2
      → IsWritten (label_offset (k - 1)) label a2 a3
      → IsWritten 0 ((k - 1) % 2 ^ 8 ∷ []) a3 a4
      → (assemble w passphrase_key a4 t').0 ≡ ok slot'
      → (index < length c.entries)
        × (1 < length c.entries)
        × IsSlot w passphrase_key (record c { entries = without index c.entries }) slot'
  finish c index k t t' entry label a0 a1 a2 a3 a4 slot' i all' lt two le ll shifted w1 w2 w3 h =
      let few = i.few in
      let sh =
        shift_down-IsShifted w passphrase_key c.kwk (k - 1 - index) index t a0 a1 i.whole
          (omega arith) shifted in
      (
        omega arith,
        omega arith,
        IsSlot-removed c index (k - 1 - index) k t' entry label a0 a1 a2 a3 a4 slot' i all'
            (omega arith) two le ll sh w1 w2 w3 h,
      )

  above : (k index : ℕ) → not (leb k index) ≡ true → index < k
  above k index h = ground arith

  -- A removal that succeeds, under the passphrase alone, was of one of at least two keys. The slot
  -- holds the other keys in order, and the master key, the metadata key and the key-wrapping key as
  -- before.
  pub remove_credential-IsSlot :
      (c : Contents) (slot slot' : Bytes) (index t : ℕ)
      → IsSlot w passphrase_key c slot
      → (remove_credential w slot passphrase_key index t).0 ≡ ok slot'
      → (index < length c.entries)
        × (1 < length c.entries)
        × IsSlot w passphrase_key (record c { entries = without index c.entries }) slot'
  unfolding remove_credential
  remove_credential-IsSlot c slot slot' index t s h =
      let (a0, t1, opened, h1) = bind-eq-ok (lift (decrypt_outer w slot passphrase_key)) _ t h in
      let k = read_count a0 in
      let (u, t2, inside, h2) =
        bind-eq-ok (lift (require (not (leb k index)) (manifest (key_index_out_of_range index k))))
          _ t1 h1 in
      let (u', t3, many, h3) =
        bind-eq-ok (lift (require (not (leb k 1)) (manifest last_hw_key))) _ t2 h2 in
      let (a1, t4, shifted, h4) = bind-eq-ok (shift_down (k - 1 - index) index a0) _ t3 h3 in
      let (entry, t5, draw1, h5) = bind-eq-ok (fill w hw_slot_len) _ t4 h4 in
      let (a2, t6, put1, h6) = bind-eq-ok (lift (write (entry_offset (k - 1)) entry a1)) _ t5 h5 in
      let (label, t7, draw2, h7) = bind-eq-ok (fill w label_len) _ t6 h6 in
      let (a3, t8, put2, h8) = bind-eq-ok (lift (write (label_offset (k - 1)) label a2)) _ t7 h7 in
      let (a4, t9, put3, h9) = bind-eq-ok (lift (write 0 ((k - 1) % 2 ^ 8 ∷ []) a3)) _ t8 h8 in
      let i = decrypt_outer-IsInner w lawful passphrase_key c slot a0 s opened in
      finish c index k t3 t9 entry label a0 a1 a2 a3 a4 slot' i i.count
        (above k index (require-eq-ok _ _ inside)) (above k 1 (require-eq-ok _ _ many))
        (length-fill w lawful hw_slot_len t4 draw1) (length-fill w lawful label_len t6 draw2)
        shifted (write-eq-ok (entry_offset (k - 1)) entry a1 put1)
        (write-eq-ok (label_offset (k - 1)) label a2 put2)
        (write-eq-ok 0 ((k - 1) % 2 ^ 8 ∷ []) a3 put3) h9
