-- ===== src/Tests/Start.antt =====
-- Witnesses of the theorems on how the daemon starts.
use pelican_q.Base.{ℕ, ◌≤◌, ◌≡◌, ◌≢◌, refl, true, List, [], ◌∷◌, none, some, All}
use pelican_q.Bytes.{codes}
use pelican_q.Cluster.{NodeConfig, ClusterConfig, is_whitespace}
use pelican_q.Server.{Node}
use pelican_q.Start.{Environment, Config, config_from_env, initial_members, not_a_member, start}
use pelican_q.Start.Bootstrap.{start-config_from_env, initial_members_unique}

abbrev environment : Environment
environment = record {
  data_dir = none;
  listen_addr = none;
  grpc_addr = none;
  max_bytes = some (codes "4096");
  mqtt_addr = some [];
  node_id = some (codes "1");
  cluster_members = some (codes "1@a=b,2@c=d");
}

abbrev member_one : NodeConfig
member_one = record { id = 1; raft_addr = codes "a"; client_addr = codes "b" }

abbrev member_two : NodeConfig
member_two = record { id = 2; raft_addr = codes "c"; client_addr = codes "d" }

abbrev pair : ClusterConfig
pair = record { self_id = 1; members = member_one ∷ member_two ∷ [] }

abbrev configuration : Config
configuration = record {
  data_dir = codes "./data";
  listen_addr = codes "127.0.0.1:7070";
  grpc_addr = codes "127.0.0.1:7072";
  max_bytes = some 4096;
  mqtt_addr = none;
  cluster = some pair;
}

start-config_from_env_example : start true configuration ≢ not_a_member
unfolding config_from_env is_whitespace
start-config_from_env_example = start-config_from_env environment configuration true refl

abbrev nodes : List (ℕ × Node)
nodes =
    (1, record { raft_addr = codes "a"; client_addr = codes "b" })
    ∷ (2, record { raft_addr = codes "c"; client_addr = codes "d" })
    ∷ []

initial_members_unique_example :
    (pair.self_id ≡ pair.self_id)
    × (nodes ≡ nodes)
    × All (λ (m : NodeConfig). pair.self_id ≤ m.id) (member_one ∷ member_two ∷ [])
    × (true ≡ true)
unfolding initial_members
initial_members_unique_example =
    initial_members_unique true true pair pair nodes nodes refl refl refl
