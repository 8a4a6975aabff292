-- ===== src/Identity/Tests.antt =====
-- The round trips of the identities at concrete inputs.
use zmem_cache.Identity.View.{from_view_identity-view_identity, IsUsage}
use zmem_cache.Identity.Key.{key-injective, IsIdentity}
use zmem_cache.Common.{pos, negsuc, codes, ◌≡◌, some, true, refl, ◌∷◌, [], arith, inr}
use zmem_cache.Identity.{from_view_identity, TrailIdentity, view_identity}
use zmem_cache.Attention.{AttentionUsage, default_policy, commit_bound, node_bound}

abbrev usage : AttentionUsage
usage = record {
  commit_limit = pos 500;
  node_limit = negsuc 0;
  selected_commits = 12;
  selected_nodes = 40;
  truncated = true;
  reached = commit_bound ∷ node_bound ∷ [];
}

abbrev trail : TrailIdentity
trail = record {
  repository_id = pos 3;
  head_oid = codes "a1";
  attention = default_policy;
  extension_identity = codes "ext";
  protocol_version = 5;
  schema_version = 6;
}

usage-IsUsage : IsUsage usage
usage-IsUsage = record {
  commit = omega arith;
  node = omega arith;
  commits = omega arith;
  nodes = omega arith;
}

trail-IsIdentity : IsIdentity trail
trail-IsIdentity = record {
  repository = omega arith;
  head = (omega arith, (omega arith, tt));
  extension = (omega arith, (omega arith, (omega arith, tt)));
  commit = inr (omega arith, omega arith);
  node = inr (omega arith, omega arith);
}

from_view_identity-view_identity_example :
    from_view_identity (view_identity usage (some (codes "a0"))) ≡ some usage
from_view_identity-view_identity_example =
    from_view_identity-view_identity usage (some (codes "a0")) usage-IsUsage
      (omega arith, (omega arith, tt))

key-injective_example : trail ≡ trail
key-injective_example = key-injective trail trail trail-IsIdentity trail-IsIdentity refl
