-- ===== src/Engine.antt =====
-- internal/engine/engine.go: the names of the database engines and their families.
use treeman.Prelude.{ℕ, Bool, false, ◌||◌, List, [], ◌∷◌, Option, none, some, if◌then◌else◌}
use treeman.Prelude.Text.{Bytes, codes, bytes_eq}

-- `Family`.
pub data Family : Type 0 where
  mysql postgres mongo redis es s3 file : Family

abbrev pub family_number : Family → ℕ
family_number mysql = 0
family_number postgres = 1
family_number mongo = 2
family_number redis = 3
family_number es = 4
family_number s3 = 5
family_number file = 6

unfoldable pub one_of : Bytes → List Bytes → Bool
unfolding bytes_eq
one_of s [] = false
one_of s (w ∷ words) = bytes_eq s w || one_of s words

-- `Canonical`.
unfoldable pub canonical : Bytes → Option Family
unfolding one_of
canonical eng =
    if one_of eng (codes "mysql" ∷ codes "mariadb" ∷ codes "tidb" ∷ [])
    then some mysql
    else if one_of eng (codes "postgres" ∷ codes "postgresql" ∷ [])
    then some postgres
    else if one_of eng (codes "mongodb" ∷ [])
    then some mongo
    else if one_of eng (codes "redis" ∷ codes "valkey" ∷ codes "dragonfly" ∷ [])
    then some redis
    else if one_of eng (codes "elasticsearch" ∷ codes "opensearch" ∷ [])
    then some es
    else if one_of eng (codes "s3" ∷ [])
    then some s3
    else if one_of eng (codes "sqlite" ∷ codes "duckdb" ∷ [])
    then some file
    else none
