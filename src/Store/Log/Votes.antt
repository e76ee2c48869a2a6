-- ===== src/Store/Log/Votes.antt =====
-- A vote that is saved is the vote that is read.
use pelican_q.Base.{◌≡◌, refl, ap, some}
use pelican_q.Bytes.{Bytes}
use pelican_q.Bytes.Order.{same_refl}
use pelican_q.Tree.{put}
use pelican_q.Tree.Lookup.{lookup-put}
use pelican_q.Failure.{done}
use pelican_q.Store.{Raft, RaftStore, returns, ◌>>=◌}
use pelican_q.Store.Log.{vote_key, meta_set, meta_get_single, decode_meta, save_vote, read_vote}
use pelican_q.Store.Log.Truncate.{calm}

module _ {Db : Type 0} ⦃r : Raft⦄ where
  open r use {Members, Vote, vote_json}

  -- When no call of sled fails and the vote encodes, `read_vote` after `save_vote` returns that
  -- vote. The log and the engine are as they were.
  pub read_vote-save_vote :
      (vote : Vote) (b : Bytes) (s : RaftStore Db Members)
      → vote_json.to_vec vote ≡ done b
      → let saved = save_vote vote (calm s) in
        (saved.0 ≡ returns tt)
        × (read_vote saved.1 ≡ (returns (some vote), saved.1))
        × (saved.1.log ≡ s.log)
        × (saved.1.state_machine ≡ s.state_machine)
  unfolding save_vote read_vote meta_set meta_get_single decode_meta ◌>>=◌
  read_vote-save_vote vote b s encodes =
      let e : save_vote vote (calm s)
          ≡ (returns tt, record (calm s) { info = put vote_key b s.info }) =
        rw encodes refl in
      (
        ap (λ x. x.0) e,
        rw e (
            rw
              (
                lookup-put vote_key vote_key b s.info,
                same_refl vote_key,
                vote_json.json_round_trip vote b encodes,
              )
              refl),
        ap (λ x. x.1.log) e,
        ap (λ x. x.1.state_machine) e,
      )
