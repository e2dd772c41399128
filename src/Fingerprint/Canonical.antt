-- ===== src/Fingerprint/Canonical.antt =====
-- The fingerprint does not depend on the order in which the lockfiles are listed.
use treeman.Prelude.{
  true, false, [], ◌∷◌, ◌++◌, none, some, if◌then◌else◌, length, take, ◌≡◌, refl, sym, ap, ◌∙◌,
  arith, Bool-cases, Option-cases, inl, inr,
}
use treeman.Prelude.Text.{
  Bytes, codes, bytes_eq, bytes_eq_iff, before, before_irrefl, before_total, before_trans,
}
use treeman.Prelude.Map.{lookup, bytes_key, beq_refl, Distinct}
use treeman.Slug.{hex_encode}
use treeman.Fingerprint.{
  Hashes, Key, insert_name, sorted_hashes, strings_of, put_uint32, write_strings, write_hashes,
  stream, fingerprint, template_name, index_prefix,
}

abbrev From : Bytes → Hashes → Type 0
From k [] = Unit
From k ((j, w) ∷ m) = before k j ≡ true

-- Ordered by name, and no name twice.
abbrev Ordered : Hashes → Type 0
Ordered [] = Unit
Ordered ((k, v) ∷ m) = From k m × Ordered m

bools_differ : false ≡ true → ⊥
bools_differ e = ground arith

lookup-insert_name :
    (x k v : Bytes) (m : Hashes)
    → lookup x (insert_name k v m) ≡ (if bytes_eq x k then some v else lookup x m)
unfolding lookup insert_name
lookup-insert_name x k v [] = refl
lookup-insert_name x k v ((j, w) ∷ m) = elim (Bool-cases (before j k)) [
  | inl b ↦
      rw b (ap (λ o. if bytes_eq x j then some w else o) (lookup-insert_name x k v m) ∙ swap b)
  | inr b ↦ rw b refl
]
  where
    clash : bytes_eq x j ≡ true → bytes_eq x k ≡ true → before j k ≡ true → ⊥
    clash h i b =
        let q : j ≡ k = sym ((bytes_eq_iff x j).0 h) ∙ (bytes_eq_iff x k).0 i in
        bools_differ (sym (ap (λ s. before s k) q ∙ before_irrefl k) ∙ b)

    swap :
        before j k ≡ true
        → (if bytes_eq x j then some w else if bytes_eq x k then some v else lookup x m)
          ≡ (if bytes_eq x k then some v else if bytes_eq x j then some w else lookup x m)
    swap b = elim (Bool-cases (bytes_eq x j)) [
      | inl h ↦ elim (Bool-cases (bytes_eq x k)) [
        | inl i ↦ absurd (clash h i b)
        | inr i ↦ rw (h, i) refl
      ]
      | inr h ↦ rw h refl
    ]

sorted_hashes-lookup : (x : Bytes) (m : Hashes) → lookup x (sorted_hashes m) ≡ lookup x m
unfolding sorted_hashes lookup
sorted_hashes-lookup x [] = refl
sorted_hashes-lookup x ((k, v) ∷ m) =
    lookup-insert_name x k v (sorted_hashes m)
    ∙ ap (λ o. if bytes_eq x k then some v else o) (sorted_hashes-lookup x m)

From-insert :
    (a k v : Bytes) (m : Hashes) → before a k ≡ true → From a m → From a (insert_name k v m)
unfolding insert_name
From-insert a k v [] h f = h
From-insert a k v ((j, w) ∷ m) h f = elim (Bool-cases (before j k)) [
  | inl b ↦ rw b f
  | inr b ↦ rw b h
]

insert_name-Ordered :
    (k v : Bytes) (m : Hashes) → lookup k m ≡ none → Ordered m → Ordered (insert_name k v m)
unfolding insert_name lookup
insert_name-Ordered k v [] n o = (tt, tt)
insert_name-Ordered k v ((j, w) ∷ m) n (f, o) = elim (Bool-cases (before j k)) [
  | inl b ↦ rw b (From-insert j k v m b f, insert_name-Ordered k v m (ground (arith, n)) o)
  | inr b ↦ rw b (before_total j k b (ground (arith, n)), (f, o))
]

sorted_hashes-Ordered : (m : Hashes) → Distinct m → Ordered (sorted_hashes m)
unfolding sorted_hashes
sorted_hashes-Ordered [] d = tt
sorted_hashes-Ordered ((k, v) ∷ m) (n, d) =
    insert_name-Ordered k v (sorted_hashes m) (sorted_hashes-lookup k m ∙ n)
      (sorted_hashes-Ordered m d)

-- The names of the tail come later.
later :
    (k x w : Bytes) (m : Hashes) → From k m → Ordered m → lookup x m ≡ some w → before k x ≡ true
unfolding lookup
later k x w [] f o h = absurd (ground arith)
later k x w ((j, v) ∷ m) f (g, o) h = elim (Bool-cases (bytes_eq x j)) [
  | inl e ↦ ap (before k) ((bytes_eq_iff x j).0 e) ∙ f
  | inr e ↦ before_trans k j x f (later j x w m g o (ground (arith, h, e)))
]

-- The head's name is not in the tail.
head-none : (k : Bytes) (m : Hashes) → From k m → Ordered m → lookup k m ≡ none
head-none k m f o = elim (Option-cases (lookup k m)) [
  | inl n ↦ n
  | inr (w, h) ↦ absurd (bools_differ (sym (before_irrefl k) ∙ later k k w m f o h))
]

-- Ordered lists with the same entries are equal.
same-Ordered :
    (a b : Hashes) → Ordered a → Ordered b → ((x : Bytes) → lookup x a ≡ lookup x b) → a ≡ b
unfolding lookup
same-Ordered [] [] o p h = refl
same-Ordered [] ((k, v) ∷ b) o p h = absurd (ground (arith, h k, beq_refl k))
same-Ordered ((j, w) ∷ a) [] o p h = absurd (ground (arith, h j, beq_refl j))
same-Ordered ((j, w) ∷ a) ((k, v) ∷ b) (f, o) (g, p) h = elim (Bool-cases (bytes_eq j k)) [
  | inl e ↦
      (let q : j ≡ k = (bytes_eq_iff j k).0 e in
        let y : w ≡ v = value e in
        ap (λ s. (s, w) ∷ a) q
        ∙ ap (λ s. (k, s) ∷ a) y
        ∙ ap (λ m. (k, v) ∷ m) (same-Ordered a b o p (tails q)))
  | inr e ↦ absurd (apart e)
]
  where
    apart : bytes_eq j k ≡ false → ⊥
    apart e =
        let l : lookup j b ≡ some w = ground (arith, h j, beq_refl j, e) in
        let m : lookup k a ≡ some v =
          ground (arith, h k, beq_refl k, e, bytes_eq_iff k j, bytes_eq_iff j k) in
        bools_differ
          (sym (before_irrefl k) ∙ before_trans k j k (later k j w b g p l) (later j k v a f o m))

    value : bytes_eq j k ≡ true → w ≡ v
    value e = ground (arith, h j, beq_refl j, e)

    tails : j ≡ k → (x : Bytes) → lookup x a ≡ lookup x b
    tails q x = elim (Bool-cases (bytes_eq x j)) [
      | inl e ↦
          (let r : x ≡ j = (bytes_eq_iff x j).0 e in
            ap (λ s. lookup s a) r
            ∙ head-none j a f o
            ∙ sym (head-none k b g p)
            ∙ ap (λ s. lookup s b) (sym (r ∙ q)))
      | inr e ↦
          (let n : bytes_eq x k ≡ false = ap (bytes_eq x) (sym q) ∙ e in ground (arith, h x, e, n))
    ]

-- Two keys that agree in every field, and in the hash of every lockfile name, whatever the order in
-- which the map yields the names, have one fingerprint, and so one template name and index prefix.
pub fingerprint-canonical :
    (sum : Bytes → Bytes) (k : Key) (m : Hashes)
    → Distinct k.lockfile_hashes
    → Distinct m
    → ((name : Bytes) → lookup name k.lockfile_hashes ≡ lookup name m)
    → (let j = record k { lockfile_hashes = m } in
        (fingerprint sum k ≡ fingerprint sum j)
        × (template_name sum k ≡ template_name sum j)
        × (index_prefix sum k ≡ index_prefix sum j))
unfolding fingerprint template_name index_prefix stream
fingerprint-canonical sum k m d e h =
    let s : sorted_hashes k.lockfile_hashes ≡ sorted_hashes m =
      same-Ordered (sorted_hashes k.lockfile_hashes) (sorted_hashes m)
        (sorted_hashes-Ordered k.lockfile_hashes d) (sorted_hashes-Ordered m e)
        (λ x. sorted_hashes-lookup x k.lockfile_hashes ∙ h x ∙ sym (sorted_hashes-lookup x m)) in
    let f : fingerprint sum k ≡ fingerprint sum (record k { lockfile_hashes = m }) =
      ap (λ l. hex_encode (sum (written k l))) s in
    (f, ap (λ p. codes "_tm_" ++ take 16 p) f, ap (λ p. codes "tm_" ++ take 16 p) f)
  where
    written : Key → Hashes → Bytes
    written k l =
        put_uint32 k.version
        ++ 0 ∷ (write_strings (strings_of k) ++ (put_uint32 (length l) ++ 0 ∷ write_hashes l))
