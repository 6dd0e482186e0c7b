-- ===== src/Format/Vault/Commits/View.antt =====
-- The content of a vault as a map from names to entries, and the mutations of files in vault.rs as
-- operations on that map.
use farewell.Prelude.{
  ◌≡◌, refl, sym, ap, ◌∙◌, Bool, true, false, Option, none, some, [], Bytes, if◌then◌else◌,
  bytes_eq,
}
use farewell.Format.Error.{ok}
use farewell.Format.Manifest.{FileEntry, find, upsert, remove}
use farewell.Format.Manifest.Laws.{HasUniqueNames, find-upsert, find-remove, upsert-HasUniqueNames}
use farewell.Format.World.{World, IsLawful}
use farewell.Format.Vault.State.{Vault, MountedLevel}
use farewell.Format.Vault.Files.{create_file_exclusive, rename_file, delete_file}
use farewell.Format.Vault.Commits.{
  delete_file-IsCommitted, create_file_exclusive-IsCommitted, rename_file-IsCommitted,
}

-- The vault's tree has unique names and is the map.
pub record HasView (v : Vault) (view : Bytes → Option FileEntry) : Type 0 where
  pub level : MountedLevel
  pub mounted : v.mounted ≡ some level
  pub unique : HasUniqueNames level.manifest.entries
  pub finds : (name : Bytes) → find level.manifest name ≡ view name

-- The map changed at one name.
abbrev pub update : (Bytes → Option FileEntry) → Bytes → Option FileEntry → Bytes → Option FileEntry
update view name o other = if bytes_eq name other then o else view other

-- An entry put where the others were taken off.
overwrite :
    (is_new is_old : Bool) (put after first before was : Option FileEntry)
    → after ≡ (if is_new then none else first)
    → first ≡ (if is_old then none else before)
    → before ≡ was
    → (if is_new then put else after) ≡ (if is_new then put else if is_old then none else was)
overwrite true is_old put after first before was b c d = refl
overwrite false is_old put after first before was b c d =
    b ∙ c ∙ ap (λ o. if is_old then none else o) d

module _ (w : World) (lawful : IsLawful w) (view : Bytes → Option FileEntry) (v v' : Vault)
    (viewed : HasView v view) where
  -- A deletion that succeeds was of a name on the map, and has taken it off.
  pub delete_file-HasView :
      (name : Bytes)
      → delete_file w name v ≡ (ok tt, v')
      → (e : FileEntry) × (view name ≡ some e) × HasView v' (update view name none)
  delete_file-HasView name h =
      let m = viewed.level in
      let (e, found, done) = delete_file-IsCommitted w lawful v v' m viewed.mounted name h in
      let (same, left) = find-remove m.manifest name name viewed.unique in
      (
        e,
        sym (viewed.finds name) ∙ sym same ∙ found,
        record {
          level = record m { manifest = (remove m.manifest name).0 };
          mounted = done.installed;
          unique =
              (upsert-HasUniqueNames m.manifest (record { name = []; size = 0; chunks = [] }) name
                viewed.unique).1;
          finds = λ other.
              (find-remove m.manifest name other viewed.unique).1
              ∙ ap (λ o. if bytes_eq name other then none else o) (viewed.finds other);
        },
      )

  -- An exclusive creation that succeeds was of a name that was not on the map, and has put an empty
  -- file there.
  pub create_file_exclusive-HasView :
      (name : Bytes)
      → create_file_exclusive w name v ≡ (ok tt, v')
      → (view name ≡ none)
        × HasView v' (update view name (some (record { name = name; size = 0; chunks = [] })))
  create_file_exclusive-HasView name h =
      let m = viewed.level in
      let e : FileEntry = record { name = name; size = 0; chunks = [] } in
      let (valid, absent, done) =
        create_file_exclusive-IsCommitted w lawful v v' m viewed.mounted name h in
      (
        sym (viewed.finds name) ∙ absent,
        record {
          level = record m { manifest = upsert m.manifest e };
          mounted = done.installed;
          unique = (upsert-HasUniqueNames m.manifest e name viewed.unique).0;
          finds = λ other.
              find-upsert m.manifest e other
              ∙ ap (λ o. if bytes_eq name other then some e else o) (viewed.finds other);
        },
      )

  -- A rename that succeeds, to another name, was of a name on the map; its entry now stands under
  -- the new name, in place of what stood there, and nothing under the old one.
  pub rename_file-HasView :
      (old_name new_name : Bytes)
      → bytes_eq old_name new_name ≡ false
      → rename_file w old_name new_name v ≡ (ok tt, v')
      → (e : FileEntry) × (view old_name ≡ some e)
        × HasView v'
            (update (update view old_name none) new_name (some (record e { name = new_name })))
  rename_file-HasView old_name new_name ne h =
      let m = viewed.level in
      let (e, valid, found, done) =
        rename_file-IsCommitted w lawful v v' m viewed.mounted old_name new_name ne h in
      let m1 = (remove m.manifest old_name).0 in
      let m2 = (remove m1 new_name).0 in
      let renamed : FileEntry = record e { name = new_name } in
      let u1 = (upsert-HasUniqueNames m.manifest renamed old_name viewed.unique).1 in
      let u2 = (upsert-HasUniqueNames m1 renamed new_name u1).1 in
      (
        e,
        sym (viewed.finds old_name) ∙ found,
        record {
          level = record m { manifest = upsert m2 renamed };
          mounted = done.installed;
          unique = (upsert-HasUniqueNames m2 renamed new_name u2).0;
          finds = λ other.
              let a = find-upsert m2 renamed other in
              let b = (find-remove m1 new_name other u1).1 in
              let c = (find-remove m.manifest old_name other viewed.unique).1 in
              let d = viewed.finds other in
              a ∙ overwrite (bytes_eq new_name other) (bytes_eq old_name other) _ _ _ _ _ b c d;
        },
      )
