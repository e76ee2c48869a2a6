-- ===== src/Cluster.antt =====
-- pelicanqd/src/cluster_config.rs: the members of a cluster, read from two environment variables.
-- Texts are lists of code points. An unset variable is `none`. An error keeps the text it is about.
pub mod RoundTrip
pub mod Member
use pelican_q.Base.{
  ℕ, ◌+◌, ◌-◌, ◌*◌, Bool, true, false, not, ◌&&◌, ◌||◌, ◌==◌, List, [], ◌∷◌, ◌++◌, Option, none,
  some, ltb, leb, if◌then◌else◌,
}
use pelican_q.Bytes.RoundTrip.{u64_mod}

abbrev pub Text : Type 0
Text = List ℕ

pub record NodeConfig : Type 0 where
  pub id : ℕ
  pub raft_addr : Text
  pub client_addr : Text

pub record ClusterConfig : Type 0 where
  pub self_id : ℕ
  pub members : List NodeConfig

pub data ConfigError : Type 0 where
  invalid_node_id : Text → ConfigError
  members_missing : ConfigError
  missing_equals : Text → ConfigError
  missing_at : Text → ConfigError
  invalid_member_id : Text → ConfigError
  members_empty : ConfigError
  self_not_member : ℕ → ConfigError

pub data Parsed {ℓ} (A : Type ℓ) : Type ℓ where
  parsed : A → Parsed A
  invalid : ConfigError → Parsed A

-- `char::is_whitespace`
unfoldable pub is_whitespace : ℕ → Bool
is_whitespace c =
    (leb 9 c && leb c 13)
    || (c == 32)
    || (c == 133)
    || (c == 160)
    || (c == 5760)
    || (leb 8192 c && leb c 8202)
    || (c == 8232)
    || (c == 8233)
    || (c == 8239)
    || (c == 8287)
    || (c == 12288)

unfoldable pub trim_start : Text → Text
trim_start [] = []
trim_start (c ∷ t) = if is_whitespace c then trim_start t else c ∷ t

abbrev is_empty : Text → Bool
is_empty [] = true
is_empty (c ∷ t) = false

unfoldable pub trim_end : Text → Text
trim_end [] = []
trim_end (c ∷ t) =
    let rest = trim_end t in if is_whitespace c && is_empty rest then [] else c ∷ rest

unfoldable pub trim : Text → Text
unfolding trim_start trim_end
trim t = trim_end (trim_start t)

abbrev cons_first : ℕ → List Text → List Text
cons_first c [] = (c ∷ []) ∷ []
cons_first c (t ∷ ts) = (c ∷ t) ∷ ts

-- `split` at a character
unfoldable pub split : ℕ → Text → List Text
split c [] = [] ∷ []
split c (x ∷ t) = let rest = split c t in if x == c then [] ∷ rest else cons_first x rest

abbrev cons_left : ℕ → Option (Text × Text) → Option (Text × Text)
cons_left x none = none
cons_left x (some (a, b)) = some (x ∷ a, b)

-- `split_once` at a character
unfoldable pub split_once : ℕ → Text → Option (Text × Text)
split_once c [] = none
split_once c (x ∷ t) =
    let rest = split_once c t in if x == c then some ([], t) else cons_left x rest

-- The digits of a u64, after those read so far.
unfoldable pub parse_digits : ℕ → Text → Option ℕ
parse_digits acc [] = some acc
parse_digits acc (c ∷ t) =
    let value = acc * 10 + (c - 48) in
    let rest = parse_digits value t in
    if leb 48 c && leb c 57 && ltb value u64_mod then rest else none

-- `str::parse::<u64>`: a leading plus is allowed, and an empty text is an error.
unfoldable pub parse_u64 : Text → Option ℕ
unfolding parse_digits
parse_u64 [] = none
parse_u64 (c ∷ t) =
    if c == 43 then (if is_empty t then none else parse_digits 0 t) else parse_digits 0 (c ∷ t)

abbrev comma : ℕ
comma = 44

abbrev equals : ℕ
equals = 61

abbrev at_sign : ℕ
at_sign = 64

abbrev with_id : Text → Text → Text → Option ℕ → Parsed NodeConfig
with_id entry raft_addr client_addr none = invalid (invalid_member_id entry)
with_id entry raft_addr client_addr (some id) =
    parsed (record { id = id; raft_addr = raft_addr; client_addr = client_addr })

abbrev with_address : Text → Text → Option (Text × Text) → Parsed NodeConfig
with_address entry client_addr none = invalid (missing_at entry)
with_address entry client_addr (some (id_part, raft_addr)) =
    with_id entry raft_addr client_addr (parse_u64 id_part)

abbrev with_parts : Text → Option (Text × Text) → Parsed NodeConfig
with_parts entry none = invalid (missing_equals entry)
with_parts entry (some (id_addr_part, client_addr)) =
    with_address entry client_addr (split_once at_sign id_addr_part)

-- One entry `id@raft_addr=client_addr`.
unfoldable pub parse_member : Text → Parsed NodeConfig
unfolding split_once parse_u64
parse_member entry = with_parts entry (split_once equals entry)

abbrev push : Parsed NodeConfig → Parsed (List NodeConfig) → Parsed (List NodeConfig)
push (invalid e) rest = invalid e
push (parsed m) (invalid e) = invalid e
push (parsed m) (parsed ms) = parsed (m ∷ ms)

-- The loop over the entries: empty ones are skipped, and the first error ends it.
unfoldable pub parse_members : List Text → Parsed (List NodeConfig)
unfolding trim parse_member
parse_members [] = parsed []
parse_members (entry ∷ entries) =
    let rest = parse_members entries in
    if is_empty (trim entry) then rest else push (parse_member (trim entry)) rest

unfoldable pub has_member : ℕ → List NodeConfig → Bool
has_member id [] = false
has_member id (m ∷ ms) = (m.id == id) || has_member id ms

abbrev checked : ℕ → Parsed (List NodeConfig) → Parsed (Option ClusterConfig)
checked self_id (invalid e) = invalid e
checked self_id (parsed []) = invalid members_empty
checked self_id (parsed (m ∷ ms)) =
    if has_member self_id (m ∷ ms)
    then parsed (some (record { self_id = self_id; members = m ∷ ms }))
    else invalid (self_not_member self_id)

abbrev with_members : ℕ → Option Text → Parsed (Option ClusterConfig)
with_members self_id none = invalid members_missing
with_members self_id (some members_str) = checked self_id (parse_members (split comma members_str))

abbrev with_self : Text → Option Text → Option ℕ → Parsed (Option ClusterConfig)
with_self v members none = invalid (invalid_node_id v)
with_self v members (some self_id) = with_members self_id members

-- `from_env`, of `PELICANQ_NODE_ID` and `PELICANQ_CLUSTER_MEMBERS`.
unfoldable pub from_env : Option Text → Option Text → Parsed (Option ClusterConfig)
unfolding split parse_u64 parse_members has_member
from_env none members = parsed none
from_env (some v) members = with_self v members (parse_u64 v)
