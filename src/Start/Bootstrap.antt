-- ===== src/Start/Bootstrap.antt =====
-- How the nodes of a cluster start.
use pelican_q.Base.{
  ℕ, ◌≤◌, ◌≡◌, ◌≢◌, refl, Bool, Bool-cases, inl, inr, true, false, ◌==◌, List, [], ◌∷◌, Option,
  none, some, arith, All, Option-cases, ap, sym, subst, ◌∙◌,
}
use pelican_q.Cluster.{NodeConfig, ClusterConfig, Parsed, parsed, invalid, has_member, from_env}
use pelican_q.Cluster.Member.{from_env-has_member}
use pelican_q.Server.{Node}
use pelican_q.Start.{
  Environment, Config, config_with, config_from_env, find_member, lower, lowest_id, if_lowest,
  collect_members, initial_members, not_a_member, start, start_solo, start_flock,
}

find_member-has_member :
    (id : ℕ) (members : List NodeConfig)
    → has_member id members ≡ true
    → find_member id members ≢ none
unfolding find_member has_member
find_member-has_member id [] h e = cc
find_member-has_member id (m ∷ members) h e = elim (Bool-cases (m.id == id)) [
  | inl g ↦ absurd (ground arith)
  | inr g ↦ find_member-has_member id members (ground arith) (ground arith)
]

abbrev cluster_of : Parsed Config → Option ClusterConfig
cluster_of (parsed cfg) = cfg.cluster
cluster_of (invalid e) = none

member_found :
    (is_fresh : Bool) (cfg : Config) (cluster : ClusterConfig)
    → cfg.cluster ≡ some cluster
    → has_member cluster.self_id cluster.members ≡ true
    → start is_fresh cfg ≢ not_a_member
unfolding start
member_found is_fresh cfg cluster is_cluster h e =
    elim (Option-cases (find_member cluster.self_id cluster.members)) [
      | inl none_found ↦ find_member-has_member cluster.self_id cluster.members h none_found
      | inr found ↦
          let runs : start is_fresh cfg
              ≡ start_flock cluster.self_id found.0.raft_addr cfg.data_dir
                  (initial_members is_fresh cluster) =
            rw is_cluster (rw found.1 refl) in
          cc
    ]

configured :
    (env : Environment) (cfg : Config) (read : Parsed (Option ClusterConfig)) (is_fresh : Bool)
    → from_env env.node_id env.cluster_members ≡ read
    → config_with env read ≡ parsed cfg
    → start is_fresh cfg ≢ not_a_member
unfolding config_with start
configured env cfg (invalid e) is_fresh h g k = cc
configured env cfg (parsed none) is_fresh h g k =
    let alone : none ≡ cfg.cluster = ap cluster_of g in
    let runs : start is_fresh cfg ≡ start_solo cfg.data_dir cfg.max_bytes = rw (sym alone) refl in
    cc
configured env cfg (parsed (some cluster)) is_fresh h g k =
    let clustered : some cluster ≡ cfg.cluster = ap cluster_of g in
    member_found is_fresh cfg cluster (sym clustered)
      (from_env-has_member env.node_id env.cluster_members cluster h) k

-- A configuration that is read from the environment never starts a node that is not among the
-- members of its cluster, so that the server does not stop at the search for its own address.
pub start-config_from_env :
    (env : Environment) (cfg : Config) (is_fresh : Bool)
    → config_from_env env ≡ parsed cfg
    → start is_fresh cfg ≢ not_a_member
unfolding config_from_env
start-config_from_env env cfg is_fresh h =
    configured env cfg (from_env env.node_id env.cluster_members) is_fresh refl h

-- At most the number, if there is one.
abbrev AtMost : ℕ → Option ℕ → Type 0
AtMost n none = Unit
AtMost n (some id) = n ≤ id

AtMost-lower : (n id : ℕ) (o : Option ℕ) → AtMost n (lower id o) → (n ≤ id) × AtMost n o
AtMost-lower n id none h = (h, tt)
AtMost-lower n id (some other) h = (omega arith, omega arith)

lowest_id-le :
    (n : ℕ) (members : List NodeConfig)
    → AtMost n (lowest_id members)
    → All (λ (m : NodeConfig). n ≤ m.id) members
unfolding lowest_id
lowest_id-le n [] h = tt
lowest_id-le n (m ∷ members) h =
    let both = AtMost-lower n m.id (lowest_id members) h in (both.0, lowest_id-le n members both.1)

if_lowest-some :
    (is_fresh : Bool) (cfg : ClusterConfig) (o : Option ℕ) (ms : List (ℕ × Node))
    → if_lowest is_fresh cfg o ≡ some ms
    → (o ≡ some cfg.self_id) × (ms ≡ collect_members cfg.members []) × (is_fresh ≡ true)
if_lowest-some is_fresh cfg none ms h = cc
if_lowest-some false cfg (some lowest) ms h = cc
if_lowest-some true cfg (some lowest) ms h = elim (Bool-cases (cfg.self_id == lowest)) [
  | inl e ↦ (ground arith, ground arith, refl)
  | inr e ↦ absurd (ground arith)
]

-- Of two nodes with the same list of members that both initialize the cluster, each has the lowest id
-- of a member, so they are the same node, and they do it with the same members. Only a node without
-- a state of the cluster initializes it.
pub initial_members_unique :
    (fresh others : Bool) (a b : ClusterConfig) (ms ns : List (ℕ × Node))
    → a.members ≡ b.members
    → initial_members fresh a ≡ some ms
    → initial_members others b ≡ some ns
    → (a.self_id ≡ b.self_id)
      × (ms ≡ ns)
      × All (λ (m : NodeConfig). a.self_id ≤ m.id) a.members
      × (fresh ≡ true)
unfolding initial_members
initial_members_unique fresh others a b ms ns e h g =
    let first = if_lowest-some fresh a (lowest_id a.members) ms h in
    let second = if_lowest-some others b (lowest_id b.members) ns g in
    let both = ap lowest_id e in
    (
      cc,
      first.1 ∙ ap (λ members. collect_members members []) e ∙ sym second.1,
      lowest_id-le a.self_id a.members (subst (AtMost a.self_id) (sym first.0) (omega arith)),
      first.2,
    )
