-- ===== src/Start.antt =====
-- pelicanqd/src/main.rs and config.rs: the configuration of the daemon, and how it starts.
-- An unset variable is `none`; the names of the variables are the names of the arguments' fields.
pub mod Bootstrap
use pelican_q.Base.{
  ℕ, Bool, true, false, ◌&&◌, ◌==◌, List, [], ◌∷◌, Option, none, some, ltb, min, map, if◌then◌else◌,
}
use pelican_q.Bytes.{codes}
use pelican_q.Cluster.{
  Text, NodeConfig, ClusterConfig, ConfigError, Parsed, parsed, invalid, parse_u64, from_env,
}
use pelican_q.Server.{Node}

-- The environment variables `PELICANQ_..`.
pub record Environment : Type 0 where
  pub data_dir : Option Text
  pub listen_addr : Option Text
  pub grpc_addr : Option Text
  pub max_bytes : Option Text
  pub mqtt_addr : Option Text
  pub node_id : Option Text
  pub cluster_members : Option Text

pub record Config : Type 0 where
  pub data_dir : Text
  pub listen_addr : Text
  pub grpc_addr : Text
  pub max_bytes : Option ℕ
  pub mqtt_addr : Option Text
  pub cluster : Option ClusterConfig

unfoldable pub value_or : Text → Option Text → Text
value_or text none = text
value_or text (some value) = value

-- A limit that is no u64 counts as none.
unfoldable pub limit_of : Option Text → Option ℕ
unfolding parse_u64
limit_of none = none
limit_of (some v) = parse_u64 v

-- An empty address turns MQTT off.
unfoldable pub mqtt_addr_of : Option Text → Option Text
mqtt_addr_of none = some (codes "127.0.0.1:1883")
mqtt_addr_of (some []) = none
mqtt_addr_of (some (c ∷ v)) = some (c ∷ v)

unfoldable pub config_with : Environment → Parsed (Option ClusterConfig) → Parsed Config
unfolding value_or limit_of mqtt_addr_of
config_with env (invalid e) = invalid e
config_with env (parsed cluster) = parsed (record {
  data_dir = value_or (codes "./data") env.data_dir;
  listen_addr = value_or (codes "127.0.0.1:7070") env.listen_addr;
  grpc_addr = value_or (codes "127.0.0.1:7072") env.grpc_addr;
  max_bytes = limit_of env.max_bytes;
  mqtt_addr = mqtt_addr_of env.mqtt_addr;
  cluster = cluster;
})

-- `invalid` stands for the exit of the process.
unfoldable pub config_from_env : Environment → Parsed Config
unfolding config_with from_env
config_from_env env = config_with env (from_env env.node_id env.cluster_members)

unfoldable pub find_member : ℕ → List NodeConfig → Option NodeConfig
find_member id [] = none
find_member id (m ∷ members) =
    let rest = find_member id members in if m.id == id then some m else rest

abbrev pub lower : ℕ → Option ℕ → Option ℕ
lower id none = some id
lower id (some other) = some (min id other)

-- `min` of the ids.
unfoldable pub lowest_id : List NodeConfig → Option ℕ
lowest_id [] = none
lowest_id (m ∷ members) = lower m.id (lowest_id members)

-- Insertion into the ordered map of the initial members; a later member replaces one of the same id.
unfoldable pub insert_member : ℕ → Node → List (ℕ × Node) → List (ℕ × Node)
insert_member id node [] = (id, node) ∷ []
insert_member id node ((k, other) ∷ members) =
    let rest = insert_member id node members in
    if k == id
    then (id, node) ∷ members
    else if ltb id k
    then (id, node) ∷ (k, other) ∷ members
    else (k, other) ∷ rest

unfoldable pub collect_members : List NodeConfig → List (ℕ × Node) → List (ℕ × Node)
unfolding insert_member
collect_members [] collected = collected
collect_members (m ∷ members) collected =
    collect_members members (
      insert_member m.id (record { raft_addr = m.raft_addr; client_addr = m.client_addr })
        collected)

abbrev pub if_lowest : Bool → ClusterConfig → Option ℕ → Option (List (ℕ × Node))
if_lowest is_fresh cfg none = none
if_lowest is_fresh cfg (some lowest) =
    if is_fresh && (cfg.self_id == lowest) then some (collect_members cfg.members []) else none

-- The call of `initialize` that the node makes, if any. `is_fresh` says whether the node has no state
-- of a raft cluster.
unfoldable pub initial_members : Bool → ClusterConfig → Option (List (ℕ × Node))
unfolding lowest_id collect_members
initial_members is_fresh cfg = if_lowest is_fresh cfg (lowest_id cfg.members)

-- What the daemon runs on: one manager with a limit, or a raft node with its address and the members
-- that it initializes the cluster with, if it does.
pub data Startup : Type 0 where
  start_solo : Text → Option ℕ → Startup
  start_flock : ℕ → Text → Text → Option (List (ℕ × Node)) → Startup
  not_a_member : Startup

unfoldable pub start : Bool → Config → Startup
unfolding find_member initial_members
start is_fresh cfg = on_cluster cfg.cluster
  where
    as_member : ClusterConfig → Option NodeConfig → Startup
    as_member cluster_cfg none = not_a_member
    as_member cluster_cfg (some m) =
        start_flock cluster_cfg.self_id m.raft_addr cfg.data_dir
          (initial_members is_fresh cluster_cfg)

    on_cluster : Option ClusterConfig → Startup
    on_cluster none = start_solo cfg.data_dir cfg.max_bytes
    on_cluster (some cluster_cfg) =
        as_member cluster_cfg (find_member cluster_cfg.self_id cluster_cfg.members)
