-- ===== src/Cluster/Member.antt =====
-- A configuration that is read from the environment has the node itself among its members.
use pelican_q.Base.{
  ℕ, ◌≡◌, refl, if◌then◌else◌, Bool, false, subst, true, [], ◌∷◌, List, Option, none, some,
}
use pelican_q.Cluster.{
  Text, NodeConfig, ClusterConfig, Parsed, parsed, invalid, has_member, parse_u64, parse_members,
  split, comma, self_not_member, from_env, checked, with_members, with_self,
}

checked-HasSelf :
    (self_id : ℕ) (read : Parsed (List NodeConfig)) (cfg : ClusterConfig)
    → checked self_id read ≡ parsed (some cfg)
    → has_member cfg.self_id cfg.members ≡ true
checked-HasSelf self_id (invalid e) cfg h = cc
checked-HasSelf self_id (parsed []) cfg h = cc
checked-HasSelf self_id (parsed (m ∷ ms)) cfg h = go (has_member self_id (m ∷ ms)) refl h
  where
    go :
        (b : Bool)
        → has_member self_id (m ∷ ms) ≡ b
        → (if b
            then parsed (some (record { self_id = self_id; members = m ∷ ms }))
            else invalid (self_not_member self_id))
          ≡ parsed (some cfg)
        → has_member cfg.self_id cfg.members ≡ true
    go true e g =
        let same : record { self_id = self_id; members = m ∷ ms } ≡ cfg = cc in
        subst (λ (c : ClusterConfig). has_member c.self_id c.members ≡ true) same e
    go false e g = cc

with_members-HasSelf :
    (self_id : ℕ) (members : Option Text) (cfg : ClusterConfig)
    → with_members self_id members ≡ parsed (some cfg)
    → has_member cfg.self_id cfg.members ≡ true
with_members-HasSelf self_id none cfg h = cc
with_members-HasSelf self_id (some str) cfg h =
    checked-HasSelf self_id (parse_members (split comma str)) cfg h

with_self-HasSelf :
    (v : Text) (members : Option Text) (id : Option ℕ) (cfg : ClusterConfig)
    → with_self v members id ≡ parsed (some cfg)
    → has_member cfg.self_id cfg.members ≡ true
with_self-HasSelf v members none cfg h = cc
with_self-HasSelf v members (some id) cfg h = with_members-HasSelf id members cfg h

-- The test of the source on the configuration it returns.
pub from_env-has_member :
    (node_id members : Option Text) (cfg : ClusterConfig)
    → from_env node_id members ≡ parsed (some cfg)
    → has_member cfg.self_id cfg.members ≡ true
unfolding from_env
from_env-has_member none members cfg h = cc
from_env-has_member (some v) members cfg h = with_self-HasSelf v members (parse_u64 v) cfg h
