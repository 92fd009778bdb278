-- ===== src/Authz/Checks.antt =====
-- Deletions of gmrag_api/src/auth/authz.rs from a list of tuples.
use hrm_grag.Authz.{TupleKey}
use hrm_grag.Prelude.Text.{codes}

abbrev ann : TupleKey
ann = record { user = codes "a"; relation = codes "r"; object = codes "o" }

abbrev bob : TupleKey
bob = record { user = codes "b"; relation = codes "r"; object = codes "o" }

-- The tuple of eve is missing before.
abbrev eve : TupleKey
eve = record { user = codes "e"; relation = codes "r"; object = codes "o" }
