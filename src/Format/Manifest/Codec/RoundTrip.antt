-- ===== src/Format/Manifest/Codec/RoundTrip.antt =====
-- `parse` reads back what `serialize` wrote, whatever pads the chunk behind it.
use farewell.Prelude.{
  ℕ, ◌+◌, ◌*◌, ◌%◌, ◌^◌, ◌≤◌, ◌<◌, ◌≡◌, refl, ap, List, [], ◌∷◌, ◌++◌, Bytes, length, length-append,
  arith, ltb, ◌==◌, true, false, Option, none, some, All, bytes_eq, not,
}
use farewell.Bytes.{write_u16, write_u32, write_u64, IsByte}
use farewell.Bytes.Utf8.{is_utf8}
use farewell.Format.Error.{Message, ok, >>=-eq-ok}
use farewell.Format.Manifest.{FileEntry, Manifest, ChunkIndex, validate_name}
use farewell.Format.Manifest.{chunk_plaintext_len, max_owner_len, manifest_magic}
use farewell.Format.Manifest.Codec.{
  write_chunks, write_entry, serialize_entries, serialize_folders, serialize, layout, owner_bytes,
  from_utf8, parse_chunks, parse_entry, parse_entries, parse_child_slots, parse_folders,
  parse_owner, read_owner, parse_body, parse_manifest, parse,
}
use farewell.Format.Manifest.Codec.Parser.{read_le, take, new}
use farewell.Format.Manifest.Codec.Reads.{
  Reads, Reads-pure, Reads-bind, Reads-bind_last, Reads-map, Reads-if_false, Reads-take,
  Reads-read_le, Reads-count, Reads-byte, At-new,
}
use farewell.Format.Manifest.Codec.Lengths.{
  length-write_entry, length-serialize_entries, length-serialize_folders, validate_name-length,
  validate_folder_path-length, serialize_entries-cons, serialize_folders-cons,
}

-- What Rust's types say of an entry: a `String` is UTF-8, a size is a u64, an index is a u32.
abbrev pub IsEntry : FileEntry → Type 0
IsEntry e = (is_utf8 e.name ≡ true) × (e.size < 2 ^ 64) × All (λ c. c < 2 ^ 32) e.chunks

pub record IsManifest (m : Manifest) : Type 0 where
  pub counter_u64 : m.counter < 2 ^ 64
  pub entries_typed : All IsEntry m.entries
  pub child_slots_u8 : All IsByte m.child_slots
  pub folders_utf8 : All (λ f. is_utf8 f ≡ true) m.folders
  pub owner_utf8 : is_utf8 (owner_bytes m.owner) ≡ true

-- An empty owner is stored as no owner.
abbrev pub stored_owner : Option Bytes → Option Bytes
stored_owner none = none
stored_owner (some []) = none
stored_owner (some (b ∷ bs)) = some (b ∷ bs)

Reads-from_utf8 : (bs : Bytes) (m : Message) → is_utf8 bs ≡ true → Reads (from_utf8 bs m) [] bs
unfolding from_utf8
Reads-from_utf8 bs m h = rw h (Reads-pure bs)

Reads-parse_chunks :
    (cs : List ChunkIndex)
    → All (λ c. c < 2 ^ 32) cs
    → Reads (parse_chunks (length cs)) (write_chunks cs) cs
unfolding parse_chunks write_chunks
Reads-parse_chunks [] h = Reads-pure []
Reads-parse_chunks (c ∷ cs) (hc, hcs) =
    Reads-bind (read_le 4) _ (Reads-read_le 4 c hc)
      (Reads-map (parse_chunks (length cs)) (λ t. c ∷ t) (Reads-parse_chunks cs hcs))

Reads-parse_entry :
    (e : FileEntry)
    → IsEntry e
    → validate_name e.name ≡ ok tt
    → length e.chunks < 2 ^ 32
    → Reads parse_entry (write_entry e) e
unfolding parse_entry write_entry
Reads-parse_entry e (utf8, size, chunks) valid short =
    Reads-bind (read_le 1) _
      (Reads-byte _ (length e.name) (ground (arith, validate_name-length e.name valid)))
      (Reads-if_false _ _ _ (validate_name-length e.name valid) (
        Reads-bind (take (length e.name)) _ (Reads-take e.name _ refl) (
          Reads-bind (from_utf8 e.name _) _ (Reads-from_utf8 e.name _ utf8) (
            Reads-bind (read_le 8) _ (Reads-read_le 8 e.size size) (
              Reads-bind (read_le 4) _ (Reads-count 4 (length e.chunks) (2 ^ 32) refl short) (
                Reads-map (parse_chunks (length e.chunks)) _
                  (Reads-parse_chunks e.chunks chunks)))))))

Reads-parse_entries :
    (es : List FileEntry) (bytes : Bytes)
    → All IsEntry es
    → serialize_entries es ≡ ok bytes
    → length bytes < 2 ^ 32
    → Reads (parse_entries (length es)) bytes es
unfolding parse_entries
Reads-parse_entries [] bytes h s short =
    let nothing : bytes ≡ [] = unfold serialize_entries in cc in rw nothing (Reads-pure [])
Reads-parse_entries (e ∷ es) bytes (he, hes) s short =
    let (rest, valid, more, eq) = serialize_entries-cons e es bytes s in
    let parts : length bytes ≡ 13 + length e.name + 4 * length e.chunks + length rest =
      omega
        (arith, ap (length {A = ℕ}) eq, length-append (write_entry e) rest, length-write_entry e) in
    rw eq (
      Reads-bind parse_entry _ (Reads-parse_entry e he valid (omega arith)) (
        Reads-map (parse_entries (length es)) _
          (Reads-parse_entries es rest hes more (omega arith))))

Reads-parse_child_slots : (cs : List ℕ) → Reads (parse_child_slots (length cs)) cs cs
unfolding parse_child_slots
Reads-parse_child_slots [] = Reads-pure []
Reads-parse_child_slots (c ∷ cs) =
    Reads-bind (read_le 1) _ {xs = c ∷ []} (Reads-byte c c refl)
      (Reads-map (parse_child_slots (length cs)) _ (Reads-parse_child_slots cs))

Reads-parse_folders :
    (fs : List Bytes) (bytes : Bytes)
    → All (λ f. is_utf8 f ≡ true) fs
    → serialize_folders fs ≡ ok bytes
    → Reads (parse_folders (length fs)) bytes fs
unfolding parse_folders
Reads-parse_folders [] bytes h s =
    let nothing : bytes ≡ [] = unfold serialize_folders in cc in rw nothing (Reads-pure [])
Reads-parse_folders (f ∷ fs) bytes (hf, hfs) s =
    let (rest, valid, more, eq) = serialize_folders-cons f fs bytes s in
    rw eq (
      Reads-bind (read_le 2) _
        (Reads-count 2 (length f) (2 ^ 16) refl
          (ground (arith, validate_folder_path-length f valid)))
        (Reads-if_false _ _ _ (validate_folder_path-length f valid) (
          Reads-bind (take (length f)) _ (Reads-take f _ refl) (
            Reads-bind (from_utf8 f _) _ (Reads-from_utf8 f _ hf)
              (Reads-map (parse_folders (length fs)) _ (Reads-parse_folders fs rest hfs more))))))

Reads-read_owner :
    (o : Option Bytes)
    → is_utf8 (owner_bytes o) ≡ true
    → length (owner_bytes o) ≤ max_owner_len
    → Reads read_owner
        (write_u16 (length (owner_bytes o) % 2 ^ 16) ++ owner_bytes o)
        (stored_owner o)
unfolding read_owner
Reads-read_owner none h short =
    Reads-bind (read_le 2) _ (Reads-count 2 0 (2 ^ 16) refl (omega arith)) (Reads-pure none)
Reads-read_owner (some []) h short =
    Reads-bind (read_le 2) _ (Reads-count 2 0 (2 ^ 16) refl (omega arith)) (Reads-pure none)
Reads-read_owner (some (b ∷ bs)) h short =
    Reads-bind (read_le 2) _ (Reads-count 2 (length (b ∷ bs)) (2 ^ 16) refl (omega arith)) (
      Reads-if_false (length (b ∷ bs) == 0) _ _ (ground arith) (
        Reads-if_false (ltb max_owner_len (length (b ∷ bs))) _ _ (ground arith) (
          Reads-bind_last (take (length (b ∷ bs))) _ (Reads-take (b ∷ bs) _ refl)
            (Reads-map (from_utf8 (b ∷ bs) _) _ (Reads-from_utf8 (b ∷ bs) _ h)))))

-- What `serialize` returns, taken apart.
serialize-eq-ok :
    (m : Manifest) (bytes : Bytes)
    → serialize m ≡ ok bytes
    → (es : Bytes) × (fs : Bytes) × (serialize_entries m.entries ≡ ok es)
      × (serialize_folders m.folders ≡ ok fs)
      × (length (owner_bytes m.owner) ≤ max_owner_len)
      × (bytes ≡ layout m es fs)
      × (length bytes ≤ chunk_plaintext_len)
unfolding serialize
serialize-eq-ok m bytes h =
    let (es, entries, h') = >>=-eq-ok (serialize_entries m.entries) _ h in
    let (fs, folders, h'') = >>=-eq-ok (serialize_folders m.folders) _ h' in
    (es, fs, entries, folders, ground arith, ground arith, ground arith)

-- The manifest that is read back.
abbrev pub stored : Manifest → Manifest
stored m = record m { owner = stored_owner m.owner }

Reads-parse_body :
    (m : Manifest) (es fs : Bytes)
    → IsManifest m
    → length m.child_slots < 256
    → serialize_entries m.entries ≡ ok es
    → serialize_folders m.folders ≡ ok fs
    → length (owner_bytes m.owner) ≤ max_owner_len
    → length es < 2 ^ 32
    → length fs < 2 ^ 16
    → Reads
        (parse_body 4)
        (0
          ∷ 0
          ∷ (write_u64 m.counter
              ++ (write_u32 (length m.entries % 2 ^ 32)
                  ++ (es
                      ++ ((length m.child_slots % 2 ^ 8)
                          ∷ (m.child_slots
                              ++ (write_u16 (length m.folders % 2 ^ 16)
                                  ++ (fs
                                      ++ (write_u16 (length (owner_bytes m.owner) % 2 ^ 16)
                                          ++ owner_bytes m.owner)))))))))
        (stored m)
unfolding parse_body parse_owner
Reads-parse_body m es fs typed slots entries folders owner short_es short_fs =
    Reads-bind (take 2) _ {xs = 0 ∷ 0 ∷ []} (Reads-take (0 ∷ 0 ∷ []) 2 refl) (
      Reads-bind (read_le 8) _ (Reads-read_le 8 m.counter typed.counter_u64) (
        Reads-bind (read_le 4) _
          (Reads-count 4 (length m.entries) (2 ^ 32) refl
            (omega (arith, length-serialize_entries m.entries es entries)))
          (Reads-bind (parse_entries (length m.entries)) _
            (Reads-parse_entries m.entries es typed.entries_typed entries short_es)
            (Reads-bind (read_le 1) _ {xs = (length m.child_slots % 2 ^ 8) ∷ []}
              (Reads-byte _ (length m.child_slots) (omega arith))
              (Reads-bind (parse_child_slots (length m.child_slots)) _
                (Reads-parse_child_slots m.child_slots)
                (Reads-bind (read_le 2) _
                  (Reads-count 2 (length m.folders) (2 ^ 16) refl
                    (omega (arith, length-serialize_folders m.folders fs folders)))
                  (Reads-bind (parse_folders (length m.folders)) _
                    (Reads-parse_folders m.folders fs typed.folders_utf8 folders)
                    (Reads-map read_owner _
                      (Reads-read_owner m.owner typed.owner_utf8 owner)))))))))

magic_matches : not (bytes_eq manifest_magic manifest_magic) ≡ false
unfolding bytes_eq
magic_matches = refl

-- The two parts of variable length fit their counts, since the whole fits one chunk.
length-layout : (m : Manifest) (es fs : Bytes) → length es + length fs < length (layout m es fs)
length-layout m es fs = simp length-append (omega arith)

Reads-parse_manifest :
    (m : Manifest) (bytes : Bytes)
    → IsManifest m
    → length m.child_slots < 256
    → serialize m ≡ ok bytes
    → Reads parse_manifest bytes (stored m)
unfolding parse_manifest
Reads-parse_manifest m bytes typed slots h =
    let (es, fs, entries, folders, owner, eq, short) = serialize-eq-ok m bytes h in
    rw eq (
      Reads-bind (take 4) _ {xs = manifest_magic} (Reads-take manifest_magic 4 refl) (
        Reads-if_false _ _ _ magic_matches (
          Reads-bind (read_le 2) _ (Reads-read_le 2 4 (omega arith)) (
            Reads-parse_body m es fs typed slots entries folders owner
              (omega (arith, length-layout m es fs, ap (length {A = ℕ}) eq))
              (omega (arith, length-layout m es fs, ap (length {A = ℕ}) eq))))))

-- A manifest that serializes is read back from a chunk that begins with its bytes, whatever follows
-- them. The manifest is one of Rust's types (`IsManifest`), its list of child slots fits the length
-- byte, and an owner that is the empty string comes back as none.
pub parse-serialize :
    (m : Manifest) (bytes padding : Bytes)
    → IsManifest m
    → length m.child_slots < 256
    → serialize m ≡ ok bytes
    → parse (bytes ++ padding) ≡ ok (stored m)
unfolding parse new
parse-serialize m bytes padding typed slots h =
    rw ((Reads-parse_manifest m bytes typed slots h).at (new (bytes ++ padding)) padding (At-new _))
