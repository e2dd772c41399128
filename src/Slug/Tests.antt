-- ===== src/Slug/Tests.antt =====
-- Runs of the slug derivation over a concrete host, and the theorems at it.
use treeman.Prelude.{
  ℕ, zero, suc, ◌+◌, ◌*◌, ◌%◌, ◌≤◌, ◌<◌, [], ◌∷◌, ◌++◌, map, some, length, All, ◌≡◌, refl, arith,
  reverse,
}
use treeman.Prelude.Text.{Bytes, codes}
use treeman.Ident
use treeman.Slug.{
  Host, source_ticket, lower_byte, tag, compose_ticket, for_path, for_main, sanitise_branch,
  canonical, dashed,
}
use treeman.Slug.Shape.{IsDigest, linked, main_tree, slug_of}
use treeman.Slug.Distinct.{slug_of_valid, slug_of-tag}
use treeman.Slug.Sanitise.{letters, HeadOk, NoDouble, sanitise_branch_lem}
use treeman.Slug.Prefix.{shadow, for_main_prefix}

abbrev mix : ℕ → Bytes → ℕ
mix acc [] = acc % 256
mix acc (c ∷ s) = mix (acc * 31 + c) s

abbrev copies : ℕ → ℕ → Bytes
copies zero c = []
copies (suc n) c = c ∷ copies n c

-- A digest of 32 equal bytes.
abbrev host : Host
host = record {
  sum256 = λ s. copies 32 (mix 0 s);
  slug_suffix = [];
  abs = λ p. some p;
  to_lower = map lower_byte;
}

mix-lt : (acc : ℕ) (s : Bytes) → mix acc s < 256
mix-lt acc [] = omega arith
mix-lt acc (c ∷ s) = mix-lt (acc * 31 + c) s

length-copies : (n c : ℕ) → length (copies n c) ≡ n
length-copies zero c = refl
length-copies (suc n) c = omega (arith, length-copies n c)

copies-lt : (n c : ℕ) → c < 256 → All (λ x. x < 256) (copies n c)
copies-lt zero c h = tt
copies-lt (suc n) c h = (h, copies-lt n c h)

host-IsDigest : IsDigest host
host-IsDigest = record {
  size = λ s. length-copies 32 (mix 0 s);
  bytes = λ s. copies-lt 32 (mix 0 s) (mix-lt 0 s);
}

ticket_slug : for_path host (codes "/src/PROJ-1234-login") [] ≡ record {
  value = codes "proj_1234_" ++ tag host (codes "/src/PROJ-1234-login");
  source = source_ticket;
}
unfolding for_path canonical tag compose_ticket
ticket_slug = refl

long_branch :
    (for_main host (codes "/src") (codes "Feature/ABC_login  page__of_the_customers")).value
    ≡ codes "main_feature_abc_login_"
      ++ tag host (codes "Feature/ABC_login  page__of_the_customers")
unfolding for_main tag compose_ticket
long_branch = refl

dashes : dashed (record { value = codes "proj_12_ab"; source = source_ticket }) ≡ codes "proj-12-ab"
unfolding dashed
dashes = refl

slug_of_valid_example :
    let v = (slug_of host (main_tree (codes "/src") (codes "Fix/Crash"))).value in
    (length v ≤ 32) × (Ident.validate_mysql v ≡ Ident.ok v)
slug_of_valid_example =
    slug_of_valid host (main_tree (codes "/src") (codes "Fix/Crash")) host-IsDigest

slug_of-tag_example : tag host (codes "/a/X-1") ≡ tag host (codes "/a/X-1")
unfolding for_path
slug_of-tag_example =
    slug_of-tag host (linked (codes "/a/X-1") (codes "one")) (linked (codes "/a/X-1") (codes "two"))
      host-IsDigest refl

sanitise_branch_lem_example :
    let s = sanitise_branch host (codes "Fix/The--Crash_") in
    (letters s ≡ letters (host.to_lower (codes "Fix/The--Crash_")))
    × HeadOk s
    × HeadOk (reverse s)
    × NoDouble s
sanitise_branch_lem_example = sanitise_branch_lem host (codes "Fix/The--Crash_")

for_main_prefix_example :
    (for_main host (codes "/b") (shadow host (codes "/a"))).value
    ≡ (for_main host (codes "/a") []).value ++ b'_' ∷ tag host (shadow host (codes "/a"))
unfolding tag
for_main_prefix_example = for_main_prefix host (codes "/a") (codes "/b") host-IsDigest refl
