-- ===== src/Cluster/RoundTrip.antt =====
-- A member list that is written out is read back.
use pelican_q.Base.{
  ℕ, ◌≡◌, refl, sym, ap, ◌∙◌, Bool, Bool-cases, inl, inr, true, false, ◌||◌, ◌==◌, List, [], ◌∷◌,
  ◌++◌, some, arith, map, All,
}
use mathlib.Core.List.{append_assoc}
use pelican_q.Cluster.{
  Text, NodeConfig, parsed, invalid, self_not_member, trim, split, split_once, parse_u64, comma,
  equals, at_sign, parse_member, parse_members, has_member, from_env, is_empty,
}

abbrev pub holds : ℕ → Text → Bool
holds c [] = false
holds c (x ∷ t) = (x == c) || holds c t

split_once-append :
    (c : ℕ) (a b : Text) → holds c a ≡ false → split_once c (a ++ (c ∷ b)) ≡ some (a, b)
unfolding split_once
split_once-append c [] b h = let itself : (c == c) ≡ true = ground arith in rw itself refl
split_once-append c (x ∷ a) b h = elim (Bool-cases (x == c)) [
  | inl e ↦ absurd (ground arith)
  | inr e ↦ rw e (rw (split_once-append c a b (ground arith)) refl)
]

split-alone : (c : ℕ) (a : Text) → holds c a ≡ false → split c a ≡ a ∷ []
unfolding split
split-alone c [] h = refl
split-alone c (x ∷ a) h = elim (Bool-cases (x == c)) [
  | inl e ↦ absurd (ground arith)
  | inr e ↦ rw e (rw (split-alone c a (ground arith)) refl)
]

split-append : (c : ℕ) (a b : Text) → holds c a ≡ false → split c (a ++ (c ∷ b)) ≡ a ∷ split c b
unfolding split
split-append c [] b h = let itself : (c == c) ≡ true = ground arith in rw itself refl
split-append c (x ∷ a) b h = elim (Bool-cases (x == c)) [
  | inl e ↦ absurd (ground arith)
  | inr e ↦ rw e (rw (split-append c a b (ground arith)) refl)
]

-- A member with the text of its id.
pub record Written : Type 0 where
  pub id_text : Text
  pub member : NodeConfig

abbrev pub written : Written → Text
written e = e.id_text ++ (at_sign ∷ (e.member.raft_addr ++ (equals ∷ e.member.client_addr)))

abbrev pub joined : Written → List Written → Text
joined e [] = written e
joined e (f ∷ fs) = written e ++ (comma ∷ joined f fs)

-- The text of the id is one, the separators do not stand where they would be read, and the entry
-- has no space around it.
pub record IsReadable (e : Written) : Type 0 where
  pub numbered : parse_u64 e.id_text ≡ some e.member.id
  pub id_ends : holds at_sign e.id_text ≡ false
  pub left_ends : holds equals (e.id_text ++ (at_sign ∷ e.member.raft_addr)) ≡ false
  pub entry_ends : holds comma (written e) ≡ false
  pub trimmed : trim (written e) ≡ written e

is_empty-append : (a : Text) (c : ℕ) (b : Text) → is_empty (a ++ (c ∷ b)) ≡ false
is_empty-append [] c b = refl
is_empty-append (x ∷ a) c b = refl

parse_member-written : (e : Written) → IsReadable e → parse_member (written e) ≡ parsed e.member
unfolding parse_member
parse_member-written e h =
    let left = e.id_text ++ (at_sign ∷ e.member.raft_addr) in
    let parts : split_once equals (written e) ≡ some (left, e.member.client_addr) =
      ap (split_once equals) (
        sym (append_assoc e.id_text (at_sign ∷ e.member.raft_addr) (equals ∷ e.member.client_addr)))
      ∙ split_once-append equals left e.member.client_addr h.left_ends in
    rw parts
      (rw (split_once-append at_sign e.id_text e.member.raft_addr h.id_ends) (rw h.numbered refl))

parse_first :
    (e : Written) (entries : List Text) (ms : List NodeConfig)
    → IsReadable e
    → parse_members entries ≡ parsed ms
    → parse_members (written e ∷ entries) ≡ parsed (e.member ∷ ms)
unfolding parse_members
parse_first e entries ms h k =
    rw
      (
        h.trimmed,
        is_empty-append e.id_text at_sign (e.member.raft_addr ++ (equals ∷ e.member.client_addr)),
      )
      (rw (parse_member-written e h, k) refl)

parse_members-empty : parse_members [] ≡ parsed []
unfolding parse_members
parse_members-empty = refl

parse_members-joined :
    (e : Written) (es : List Written)
    → IsReadable e
    → All IsReadable es
    → parse_members (split comma (joined e es)) ≡ parsed (e.member ∷ map (λ f. f.member) es)
parse_members-joined e [] h k =
    rw (split-alone comma (written e) h.entry_ends) (parse_first e [] [] h parse_members-empty)
parse_members-joined e (f ∷ fs) h k =
    rw (split-append comma (written e) (joined f fs) h.entry_ends) (
      parse_first e (split comma (joined f fs)) (f.member ∷ map (λ g. g.member) fs) h
        (parse_members-joined f fs k.0 k.1))

-- A member list that is written out, with numbers as ids, separators only where they are read, and
-- no space around an entry, is read back as it is, in its order, when the node id is a number and
-- that of a member.
pub from_env-joined :
    (v : Text) (self_id : ℕ) (e : Written) (es : List Written)
    → parse_u64 v ≡ some self_id
    → IsReadable e
    → All IsReadable es
    → has_member self_id (e.member ∷ map (λ f. f.member) es) ≡ true
    → from_env (some v) (some (joined e es))
      ≡ parsed (some (record { self_id = self_id; members = e.member ∷ map (λ f. f.member) es }))
unfolding from_env
from_env-joined v self_id e es numbered h k known =
    rw numbered (rw (parse_members-joined e es h k) (rw known refl))

-- If the node id is a number but not that of a member of a list so written, `from_env` reports
-- that the node is not present.
pub from_env-stranger :
    (v : Text) (self_id : ℕ) (e : Written) (es : List Written)
    → parse_u64 v ≡ some self_id
    → IsReadable e
    → All IsReadable es
    → has_member self_id (e.member ∷ map (λ f. f.member) es) ≡ false
    → from_env (some v) (some (joined e es)) ≡ invalid (self_not_member self_id)
unfolding from_env
from_env-stranger v self_id e es numbered h k unknown =
    rw numbered (rw (parse_members-joined e es h k) (rw unknown refl))
