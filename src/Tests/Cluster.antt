-- ===== src/Tests/Cluster.antt =====
-- Witnesses of the theorems on the cluster configuration.
use pelican_q.Base.{◌≡◌, refl, [], ◌∷◌, some}
use pelican_q.Bytes.{codes}
use pelican_q.Cluster.{
  parsed, invalid, self_not_member, is_whitespace, trim_start, trim_end, trim, parse_digits,
  parse_u64, has_member, from_env,
}
use pelican_q.Cluster.RoundTrip.{Written, IsReadable, from_env-joined, from_env-stranger}

abbrev first_member : Written
first_member = record {
  id_text = codes "1";
  member = record { id = 1; raft_addr = codes "a:71"; client_addr = codes "a:70" };
}

abbrev second_member : Written
second_member = record {
  id_text = codes "2";
  member = record { id = 2; raft_addr = codes "b:71"; client_addr = codes "b:70" };
}

first_member-IsReadable : IsReadable first_member
unfolding parse_u64 parse_digits trim trim_start trim_end is_whitespace
first_member-IsReadable = record {
  numbered = refl;
  id_ends = refl;
  left_ends = refl;
  entry_ends = refl;
  trimmed = refl;
}

second_member-IsReadable : IsReadable second_member
unfolding parse_u64 parse_digits trim trim_start trim_end is_whitespace
second_member-IsReadable = record {
  numbered = refl;
  id_ends = refl;
  left_ends = refl;
  entry_ends = refl;
  trimmed = refl;
}

from_env-joined_example :
    from_env (some (codes "2")) (some (codes "1@a:71=a:70,2@b:71=b:70"))
    ≡ parsed
        (some (record { self_id = 2; members = first_member.member ∷ second_member.member ∷ [] }))
unfolding parse_u64 parse_digits has_member
from_env-joined_example =
    from_env-joined (codes "2") 2 first_member (second_member ∷ []) refl first_member-IsReadable
      (second_member-IsReadable, tt) refl

from_env-stranger_example :
    from_env (some (codes "3")) (some (codes "1@a:71=a:70,2@b:71=b:70"))
    ≡ invalid (self_not_member 3)
unfolding parse_u64 parse_digits has_member
from_env-stranger_example =
    from_env-stranger (codes "3") 3 first_member (second_member ∷ []) refl first_member-IsReadable
      (second_member-IsReadable, tt) refl
