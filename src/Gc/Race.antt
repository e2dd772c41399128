-- ===== src/Gc/Race.antt =====
-- A pin that is released between the drops and the deletions of `evictCandidates`.
use treeman.Prelude.Map.{bytes_key}
