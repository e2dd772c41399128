-- ===== src/Fingerprint.antt =====
-- internal/snapshot/snapshot.go: the key of a cached template database and the stream of bytes that
-- its fingerprint hashes. blake3 is a parameter; the map of the lockfile hashes is an association
-- list.
pub mod Stream
pub mod Canonical
pub mod Tests
use treeman.Prelude.{
  ℕ, zero, suc, ◌/◌, ◌%◌, ◌^◌, Bool, true, false, List, [], ◌∷◌, ◌++◌, if◌then◌else◌, length, take,
}
use treeman.Prelude.Text.{Bytes, codes, before}
use treeman.Slug.{hex_encode}

-- `FormatVersion`.
abbrev pub format_version : ℕ
format_version = 7

abbrev pub Hashes : Type 0
Hashes = List (Bytes × Bytes)

-- `Key`.
pub record Key : Type 0 where
  pub version : ℕ
  pub engine : Bytes
  pub engine_version : Bytes
  pub connection : Bytes
  pub hash_mode : Bytes
  pub migrations_hash : Bytes
  pub dump_hash : Bytes
  pub lockfile_hashes : Hashes

-- `New`.
pub new : Bytes → Bytes → Bytes → Bytes → Bytes → Bytes → Hashes → Key
new engine engine_version connection hash_mode migrations_hash dump_hash lockfile_hashes = record {
  version = format_version;
  engine = engine;
  engine_version = engine_version;
  connection = connection;
  hash_mode = hash_mode;
  migrations_hash = migrations_hash;
  dump_hash = dump_hash;
  lockfile_hashes = lockfile_hashes;
}

-- `binary.LittleEndian.PutUint32`.
unfoldable pub put_uint32 : ℕ → Bytes
put_uint32 n = n % 256 ∷ n / 256 % 256 ∷ n / 65536 % 256 ∷ n / 16777216 % 256 ∷ []

-- The names in the order of `sort.Strings`, each with its hash.
unfoldable pub insert_name : Bytes → Bytes → Hashes → Hashes
insert_name k v [] = (k, v) ∷ []
insert_name k v ((j, w) ∷ m) =
    if before j k then (j, w) ∷ insert_name k v m else (k, v) ∷ (j, w) ∷ m

unfoldable pub sorted_hashes : Hashes → Hashes
unfolding insert_name
sorted_hashes [] = []
sorted_hashes ((k, v) ∷ m) = insert_name k v (sorted_hashes m)

unfoldable pub write_hashes : Hashes → Bytes
write_hashes [] = []
write_hashes ((k, v) ∷ m) = k ++ 0 ∷ (v ++ 0 ∷ write_hashes m)

unfoldable pub write_strings : List Bytes → Bytes
write_strings [] = []
write_strings (s ∷ ss) = s ++ 0 ∷ write_strings ss

abbrev pub strings_of : Key → List Bytes
strings_of k =
    k.engine ∷ k.engine_version ∷ k.connection ∷ k.hash_mode ∷ k.migrations_hash ∷ k.dump_hash ∷ []

-- What `Fingerprint` writes to the hash.
unfoldable pub stream : Key → Bytes
unfolding put_uint32 write_strings sorted_hashes write_hashes
stream k =
    let hashes = sorted_hashes k.lockfile_hashes in
    put_uint32 k.version
    ++ 0 ∷ (write_strings (strings_of k) ++ (put_uint32 (length hashes) ++ 0 ∷ write_hashes hashes))

module _ (sum : Bytes → Bytes) where
  -- `Fingerprint`.
  unfoldable pub fingerprint : Key → Bytes
  unfolding stream hex_encode
  fingerprint k = hex_encode (sum (stream k))

  -- `TemplateName` and `IndexPrefix`.
  unfoldable pub template_name : Key → Bytes
  unfolding fingerprint
  template_name k = codes "_tm_" ++ take 16 (fingerprint k)

  unfoldable pub index_prefix : Key → Bytes
  unfolding fingerprint
  index_prefix k = codes "tm_" ++ take 16 (fingerprint k)
