-- ===== src/Format/Examples.antt =====
-- A lawful world and small vaults, for runs of the modelled code.
mod Codec
mod Tree
mod Data
mod Slot
mod Disk
mod Fido2
use farewell.Prelude.{
  ℕ, zero, suc, ◌+◌, ◌-◌, ◌≡◌, refl, sym, ap, ◌∙◌, Bool, true, false, Option, none, some, List, [],
  ◌∷◌, ◌++◌, Bytes, length, take, replicate, length-append, length-take, length-replicate,
  take-append, contains, ◌==◌, ◌||◌, All, IsDistinct, arith,
}
use farewell.Format.Error.{Result, ok}
use farewell.Format.Manifest.{Manifest, FileEntry}
use farewell.Format.World.{World, IsLawful, tag_len}
use farewell.Format.Vault.State.{Vault, MountedLevel}

-- A cipher that appends a tag of zeros, random bytes that are zeros, a choice that takes the first
-- items, and given outcomes of the file system.
abbrev pub world : (ℕ → Option Bytes) → Bool → World
world write_all readable = record {
  seal = λ key nonce aad message. some (message ++ replicate tag_len 0);
  unseal = λ key nonce aad sealed. some (take (length sealed - tag_len) sealed);
  derive_key = λ material. material;
  derive_key_in = λ context material. take 32 (material ++ replicate 32 0);
  keyed_hash = λ key message. take 32 (key ++ replicate 32 0);
  argon2id = λ memory iterations lanes passphrase salt.
      some (take 32 (iterations ∷ passphrase ++ replicate 32 0));
  mldsa_generate = λ time. ([], replicate 2592 1);
  mldsa_sign = λ key message. replicate 4627 2;
  mldsa_is_key = λ key. true;
  mldsa_verify = λ key message signature. true;
  fill = λ time n. some (replicate n 0);
  choose_multiple = λ time items n. take n items;
  write_all = write_all;
  read_exact = λ time. readable;
  sync_all = λ time. true;
}

contains-take : (cs : List ℕ) (n c : ℕ) → contains cs c ≡ false → contains (take n cs) c ≡ false
unfolding contains take
contains-take cs zero c h = refl
contains-take [] (suc n) c h = refl
contains-take (x ∷ xs) (suc n) c h = let ih = contains-take xs n c in ground arith

take-IsDistinct : (cs : List ℕ) (n : ℕ) → IsDistinct cs → IsDistinct (take n cs)
unfolding take
take-IsDistinct cs zero h = tt
take-IsDistinct [] (suc n) h = tt
take-IsDistinct (x ∷ xs) (suc n) (fresh, h) = (contains-take xs n x fresh, take-IsDistinct xs n h)

contains-cons :
    (x : ℕ) (all ys : List ℕ)
    → All (λ c. contains all c ≡ true) ys
    → All (λ c. contains (x ∷ all) c ≡ true) ys
unfolding contains
contains-cons x all [] h = tt
contains-cons x all (y ∷ ys) (here, there) = (ground (arith, here), contains-cons x all ys there)

take-from : (cs : List ℕ) (n : ℕ) → All (λ c. contains cs c ≡ true) (take n cs)
unfolding take contains
take-from cs zero = tt
take-from [] (suc n) = tt
take-from (x ∷ xs) (suc n) = (ground arith, contains-cons x xs (take n xs) (take-from xs n))

tagged : (m c : Bytes) → m ++ replicate tag_len 0 ≡ c → length c ≡ length m + tag_len
tagged m c h =
    let tag : length (replicate {A = ℕ} tag_len 0) ≡ tag_len = length-replicate tag_len 0 in
    ap length (sym h) ∙ omega (arith, length-append m (replicate tag_len 0), tag)

untag : (m c : Bytes) → m ++ replicate tag_len 0 ≡ c → take (length c - tag_len) c ≡ m
untag m c h =
    let tag : Bytes = replicate tag_len 0 in
    let long = tagged m c h in
    ap (take (length c - tag_len)) (sym h)
    ∙ take-append (length c - tag_len) m tag (omega (arith, long))

pub world-IsLawful :
    (write_all : ℕ → Option Bytes) (readable : Bool) → IsLawful (world write_all readable)
world-IsLawful write_all readable = record {
  unseal-seal = λ k n a m c h. ap some (untag m c cc);
  length-seal = λ k n a m c h. tagged m c cc;
  length-derive_key_in = λ c m.
      length-take 32 (m ++ replicate 32 0)
      ∙ omega (arith, length-append m (replicate 32 0), length-replicate {A = ℕ} 32 0);
  mldsa_is_key-generate = λ t. refl;
  mldsa_verify-sign = λ t m. refl;
  length-mldsa_generate = λ t. length-replicate {A = ℕ} 2592 1;
  length-mldsa_sign = λ k m. length-replicate {A = ℕ} 4627 2;
  length-fill =
      λ t n b h. let e : replicate n 0 ≡ b = cc in ap length (sym e) ∙ length-replicate n 0;
  choose_multiple-from = λ t cs n. take-from cs n;
  choose_multiple-IsDistinct = λ t cs n h. take-IsDistinct cs n h;
  length-choose_multiple = λ t cs n. length-take n cs;
}

-- Files of one chunk, a file under a folder and a file of no chunk.
abbrev pub tree : Manifest
tree = record {
  counter = 4;
  entries =
      record { name = b'a' ∷ []; size = 3; chunks = 1 ∷ [] }
      ∷ record { name = b'b' ∷ []; size = 2; chunks = 2 ∷ [] }
      ∷ record { name = b'd' ∷ b'/' ∷ b'x' ∷ []; size = 2; chunks = 3 ∷ [] }
      ∷ record { name = b'e' ∷ []; size = 0; chunks = [] }
      ∷ [];
  child_slots = [];
  folders = (b'd' ∷ []) ∷ [];
  owner = none;
}

abbrev pub level : MountedLevel
level = record {
  master = 7 ∷ [];
  slot = 0;
  manifest_chunk = 0;
  manifest = tree;
  off_limits = 5 ∷ [];
}

abbrev pub vault : Bool → Vault
vault poisoned = record {
  file = λ i. [];
  clock = 0;
  total_chunks = 8;
  mounted = some level;
  poisoned = poisoned;
}

-- Worlds where every write succeeds, and where every write leaves an empty block.
abbrev pub calm : World
calm = world (λ t. none) true

abbrev pub faulty : World
faulty = world (λ t. some []) false

-- What an action returned beside the state that it left.
pub returned {ℓ} : {A : Type ℓ} (p : Result A × Vault) {r : Result A} → p.0 ≡ r → p ≡ (r, p.1)
returned p h = λ i. (h i, p.1)
