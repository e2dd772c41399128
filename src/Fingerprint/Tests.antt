-- ===== src/Fingerprint/Tests.antt =====
-- Fingerprints of a concrete key.
use treeman.Prelude.{false, [], ◌∷◌, some, ◌≡◌, refl, ap, arith, Bool-cases, inl, inr}
use treeman.Prelude.Text.{Bytes, codes, bytes_eq, bytes_eq_iff}
use treeman.Prelude.Map.{lookup, bytes_key}
use treeman.Fingerprint.{Key, stream, sorted_hashes, fingerprint, template_name, index_prefix}
use treeman.Fingerprint.Stream.{Plain, read_key, read_key-stream}
use treeman.Fingerprint.Canonical.{fingerprint-canonical}

abbrev key : Key
key = record {
  version = 7;
  engine = codes "pg";
  engine_version = codes "16";
  connection = [];
  hash_mode = codes "c";
  migrations_hash = codes "ab";
  dump_hash = [];
  lockfile_hashes = (codes "b", codes "1") ∷ (codes "a", codes "2") ∷ [];
}

key-Plain : Plain key
key-Plain = record {
  version_fits = omega arith;
  count_fits = omega arith;
  strings_plain = (
    (refl, (refl, tt)),
    ((refl, (refl, tt)), (tt, ((refl, tt), ((refl, (refl, tt)), (tt, tt))))),
  );
  hashes_plain = (((refl, tt), (refl, tt)), (((refl, tt), (refl, tt)), tt));
}

read_key-stream_example :
    read_key (stream key)
    ≡ some (record key { lockfile_hashes = sorted_hashes key.lockfile_hashes })
read_key-stream_example = read_key-stream key key-Plain

-- The other order of the same map.
other_order :
    (name : Bytes)
    → lookup name key.lockfile_hashes
      ≡ lookup name ((codes "a", codes "2") ∷ (codes "b", codes "1") ∷ [])
unfolding lookup bytes_eq
other_order name = elim (Bool-cases (bytes_eq name (codes "b"))) [
  | inl h ↦
      (let n : bytes_eq name (codes "a") ≡ false =
          ap (λ s. bytes_eq s (codes "a")) ((bytes_eq_iff name (codes "b")).0 h) in
        rw (h, n) refl)
  | inr h ↦ rw h refl
]

fingerprint-canonical_example :
    (let j = record key {
      lockfile_hashes = (codes "a", codes "2") ∷ (codes "b", codes "1") ∷ [];
    } in
      (fingerprint (λ s. s) key ≡ fingerprint (λ s. s) j)
      × (template_name (λ s. s) key ≡ template_name (λ s. s) j)
      × (index_prefix (λ s. s) key ≡ index_prefix (λ s. s) j))
unfolding lookup bytes_eq
fingerprint-canonical_example =
    fingerprint-canonical (λ s. s) key ((codes "a", codes "2") ∷ (codes "b", codes "1") ∷ [])
      (refl, (refl, tt)) (refl, (refl, tt)) other_order
