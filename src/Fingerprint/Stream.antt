-- ===== src/Fingerprint/Stream.antt =====
-- The stream of a key is read back.
use treeman.Prelude.{
  ℕ, zero, suc, ◌+◌, ◌*◌, ◌^◌, ◌<◌, false, List, [], ◌∷◌, ◌++◌, append_assoc, Option, none, some,
  ◌==◌, if◌then◌else◌, length, All, ◌≡◌, refl, ap, ◌∙◌, arith, Bool-cases, inl, inr,
}
use treeman.Prelude.Text.{Bytes, before}
use treeman.Fingerprint.{
  Hashes, Key, put_uint32, insert_name, sorted_hashes, write_hashes, write_strings, strings_of,
  stream,
}

-- No byte is the separator.
abbrev pub NoNul : Bytes → Type 0
NoNul s = All (λ c. (c == 0) ≡ false) s

abbrev prepend : ℕ → Option (Bytes × Bytes) → Option (Bytes × Bytes)
prepend c none = none
prepend c (some (s, t)) = some (c ∷ s, t)

-- A string up to the separator, and what follows.
unfoldable pub read_string : Bytes → Option (Bytes × Bytes)
read_string [] = none
read_string (c ∷ s) = let rest = read_string s in if c == 0 then some ([], s) else prepend c rest

-- The next string and what a reader makes of what follows.
abbrev pub then_read {ℓ} :
    {A : Type ℓ} → (Bytes → Bytes → Option A) → Option (Bytes × Bytes) → Option A
then_read f none = none
then_read f (some (s, t)) = f s t

abbrev cons_string : Bytes → Option (List Bytes × Bytes) → Option (List Bytes × Bytes)
cons_string s none = none
cons_string s (some (ss, t)) = some (s ∷ ss, t)

unfoldable pub read_strings : ℕ → Bytes → Option (List Bytes × Bytes)
unfolding read_string
read_strings zero t = some ([], t)
read_strings (suc n) t = then_read (λ s u. cons_string s (read_strings n u)) (read_string t)

abbrev cons_hash : Bytes → Bytes → Option (Hashes × Bytes) → Option (Hashes × Bytes)
cons_hash k v none = none
cons_hash k v (some (m, t)) = some ((k, v) ∷ m, t)

unfoldable pub read_hashes : ℕ → Bytes → Option (Hashes × Bytes)
unfolding read_string
read_hashes zero t = some ([], t)
read_hashes (suc n) t =
    then_read (λ k u. then_read (λ v w. cons_hash k v (read_hashes n w)) (read_string u))
      (read_string t)

-- Four bytes, little-endian, and the separator.
unfoldable pub read_uint32 : Bytes → Option (ℕ × Bytes)
read_uint32 (a ∷ b ∷ c ∷ d ∷ e ∷ t) =
    if e == 0 then some (a + 256 * b + 65536 * c + 16777216 * d, t) else none
read_uint32 _ = none

read_string-write : (s t : Bytes) → NoNul s → read_string (s ++ 0 ∷ t) ≡ some (s, t)
unfolding read_string
read_string-write [] t n = refl
read_string-write (c ∷ s) t (h, n) = rw h (ap (prepend c) (read_string-write s t n))

read_uint32-put :
    (n : ℕ) (t : Bytes) → n < 2 ^ 32 → read_uint32 (put_uint32 n ++ 0 ∷ t) ≡ some (n, t)
unfolding read_uint32 put_uint32
read_uint32-put n t h = ap (λ m. some (m, t)) (omega arith)

read_strings-write :
    (ss : List Bytes) (t : Bytes)
    → All NoNul ss
    → read_strings (length ss) (write_strings ss ++ t) ≡ some (ss, t)
unfolding read_strings write_strings
read_strings-write [] t n = refl
read_strings-write (s ∷ ss) t (h, n) =
    ap (λ u. then_read (λ s u. cons_string s (read_strings (length ss) u)) (read_string u))
      (append_assoc s (0 ∷ write_strings ss) t)
    ∙ ap (then_read (λ s u. cons_string s (read_strings (length ss) u)))
        (read_string-write s (write_strings ss ++ t) h)
    ∙ ap (cons_string s) (read_strings-write ss t n)

read_hashes-write :
    (m : Hashes)
    → All (λ x. NoNul x.0 × NoNul x.1) m
    → read_hashes (length m) (write_hashes m) ≡ some (m, [])
unfolding read_hashes write_hashes
read_hashes-write [] n = refl
read_hashes-write ((k, v) ∷ m) ((a, b), n) =
    ap
      (then_read
        (λ k u. then_read (λ v w. cons_hash k v (read_hashes (length m) w)) (read_string u)))
      (read_string-write k (v ++ 0 ∷ write_hashes m) a)
    ∙ ap (then_read (λ v w. cons_hash k v (read_hashes (length m) w)))
        (read_string-write v (write_hashes m) b)
    ∙ ap (cons_hash k v) (read_hashes-write m n)

-- The key that the fields make.
abbrev key_of : ℕ → List Bytes → Hashes → Option Key
key_of version (engine ∷ engine_version ∷ connection ∷ hash_mode ∷ migrations_hash ∷ dump_hash ∷ [])
      m =
    some (record {
      version = version;
      engine = engine;
      engine_version = engine_version;
      connection = connection;
      hash_mode = hash_mode;
      migrations_hash = migrations_hash;
      dump_hash = dump_hash;
      lockfile_hashes = m;
    })
key_of _ _ _ = none

abbrev close_hashes : ℕ → List Bytes → Option (Hashes × Bytes) → Option Key
close_hashes version ss (some (m, [])) = key_of version ss m
close_hashes _ _ _ = none

abbrev then_hashes : ℕ → List Bytes → Option (ℕ × Bytes) → Option Key
then_hashes version ss none = none
then_hashes version ss (some (n, t)) = close_hashes version ss (read_hashes n t)

abbrev then_count : ℕ → Option (List Bytes × Bytes) → Option Key
then_count version none = none
then_count version (some (ss, t)) = then_hashes version ss (read_uint32 t)

abbrev then_strings : Option (ℕ × Bytes) → Option Key
then_strings none = none
then_strings (some (version, t)) = then_count version (read_strings 6 t)

-- The whole stream is one key.
unfoldable pub read_key : Bytes → Option Key
unfolding read_uint32 read_strings read_hashes
read_key t = then_strings (read_uint32 t)

insert_name-NoNul :
    (k v : Bytes) (m : Hashes)
    → NoNul k × NoNul v
    → All (λ x. NoNul x.0 × NoNul x.1) m
    → All (λ x. NoNul x.0 × NoNul x.1) (insert_name k v m)
unfolding insert_name
insert_name-NoNul k v [] h n = (h, tt)
insert_name-NoNul k v ((j, w) ∷ m) h (g, n) = elim (Bool-cases (before j k)) [
  | inl b ↦ rw b (g, insert_name-NoNul k v m h n)
  | inr b ↦ rw b (h, (g, n))
]

sorted_hashes-NoNul :
    (m : Hashes)
    → All (λ x. NoNul x.0 × NoNul x.1) m
    → All (λ x. NoNul x.0 × NoNul x.1) (sorted_hashes m)
unfolding sorted_hashes
sorted_hashes-NoNul [] n = tt
sorted_hashes-NoNul ((k, v) ∷ m) (h, n) =
    insert_name-NoNul k v (sorted_hashes m) h (sorted_hashes-NoNul m n)

insert_name-length : (k v : Bytes) (m : Hashes) → length (insert_name k v m) ≡ suc (length m)
unfolding insert_name
insert_name-length k v [] = refl
insert_name-length k v ((j, w) ∷ m) = elim (Bool-cases (before j k)) [
  | inl b ↦ rw b (ap suc (insert_name-length k v m))
  | inr b ↦ rw b refl
]

sorted_hashes-length : (m : Hashes) → length (sorted_hashes m) ≡ length m
unfolding sorted_hashes
sorted_hashes-length [] = refl
sorted_hashes-length ((k, v) ∷ m) =
    insert_name-length k v (sorted_hashes m) ∙ ap suc (sorted_hashes-length m)

-- A key whose strings have no separator in them, and whose numbers fit.
pub record Plain (k : Key) : Type 0 where
  pub version_fits : k.version < 2 ^ 32
  pub count_fits : length k.lockfile_hashes < 2 ^ 32
  pub strings_plain : All NoNul (strings_of k)
  pub hashes_plain : All (λ x. NoNul x.0 × NoNul x.1) k.lockfile_hashes

-- The stream of a key whose strings hold no NUL, and whose version and number of lockfiles fit in 32
-- bits, is read back as the key, its lockfiles in order.
pub read_key-stream :
    (k : Key)
    → Plain k
    → read_key (stream k) ≡ some (record k { lockfile_hashes = sorted_hashes k.lockfile_hashes })
unfolding read_key stream
read_key-stream k h =
    let m = sorted_hashes k.lockfile_hashes in
    let count : length m < 2 ^ 32 =
      omega (arith, sorted_hashes-length k.lockfile_hashes, h.count_fits) in
    let counted = put_uint32 (length m) ++ 0 ∷ write_hashes m in
    ap then_strings
      (read_uint32-put k.version (write_strings (strings_of k) ++ counted) h.version_fits)
    ∙ ap (then_count k.version) (read_strings-write (strings_of k) counted h.strings_plain)
    ∙ ap (then_hashes k.version (strings_of k)) (read_uint32-put (length m) (write_hashes m) count)
    ∙ ap (close_hashes k.version (strings_of k))
        (read_hashes-write m (sorted_hashes-NoNul k.lockfile_hashes h.hashes_plain))
