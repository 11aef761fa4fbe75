-- ===== src/QueryKeys/Tests.antt =====
-- The theorems about the keys at concrete ones.
use tropek.Prelude.{ℕ, ◌≡◌, refl}
use tropek.QueryKeys.{Family}
use tropek.QueryKeys.Reading.{Query, query_key_injective}

query_key_injective_example : Query.versions "web" ≡ Query.versions "web"
query_key_injective_example =
    query_key_injective {F = ℕ} Family.slis (Query.versions "web") (Query.versions "web") refl refl
      refl
