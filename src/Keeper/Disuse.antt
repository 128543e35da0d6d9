-- ===== src/Keeper/Disuse.antt =====
-- disuseWorkSpace, and the indexes behind Delete, keep the keeper's invariant.
use mass_net_miner.Common.{◌≡◌, ◌≢◌, none, some, arith, ◌==◌, if◌then◌else◌}
use mass_net_miner.Engine.{WorkSpaceState, plotting}
use mass_net_miner.Keeper.Index.{Sid, Ref, get, drop_key, get-drop_key}
use mass_net_miner.Keeper.State.{SpaceKeeper, update_state, same_state, sid_of}
use mass_net_miner.Keeper.Actions.{disuse_work_space}
use mass_net_miner.Keeper.Coherent.{Coherent, same_state→eq, eq→same_state}
use mass_net_miner.Keeper.Invariant.{Inv}

module _ (k : SpaceKeeper) (r : Ref) where
  pub disuse-id : (p : Ref) → ((disuse_work_space k r).heap p).id ≡ (k.heap p).id
  unfolding disuse_work_space
  disuse-id p = ground arith

  pub disuse-state : (p : Ref) → ((disuse_work_space k r).heap p).state ≡ (k.heap p).state
  unfolding disuse_work_space
  disuse-state p = ground arith

  disuse-Coherent : Coherent k → Coherent (disuse_work_space k r)
  unfolding disuse_work_space
  disuse-Coherent c = record {
    indexed = λ j p h. rw (disuse-id p, disuse-state p) (c.indexed j p h);
    stated = λ s j p h. rw (disuse-state p) (c.stated s j p h);
  }

  pub disuse-Inv : Inv k → Inv (disuse_work_space k r)
  unfolding disuse_work_space
  disuse-Inv v = record {
    coherent = disuse-Coherent v.coherent;
    requests = λ q h p e. v.requests q h p (rw (disuse-id (k.queued q).ws) at e);
    queue_made = v.queue_made;
    channel_made = v.channel_made;
    popped_made = v.popped_made;
    taken_popped = v.taken_popped;
    busy_popped = v.busy_popped;
    busy_plotting = λ q e. rw (disuse-id (k.queued q).ws) (v.busy_plotting q e);
    one_plotting = λ j p e.
        let (q, serves, at) = v.one_plotting j p e in
        (q, serves, rw (disuse-id (k.queued q).ws) at);
  }

-- The indexes without a space that stands in the index of the state s.
abbrev pub unindexed : SpaceKeeper → WorkSpaceState → Sid → SpaceKeeper
unindexed k s sid = record k {
  by_state = update_state k.by_state s (drop_key (k.by_state s) sid);
  all = drop_key k.all sid;
}

module _ (k : SpaceKeeper) (s : WorkSpaceState) (sid : Sid) (r : Ref)
    (there : get (k.by_state s) sid ≡ some r) where
  get-unindexed :
      (t : WorkSpaceState) (j : Sid)
      → get ((unindexed k s sid).by_state t) j ≡ (
          if sid == j
          then if same_state s t then none else get (k.by_state t) j
          else get (k.by_state t) j)
  get-unindexed t j = ground (arith, get-drop_key (k.by_state s) sid j, same_state→eq s t)

  unindexed-Coherent : Coherent k → Coherent (unindexed k s sid)
  unindexed-Coherent c = record {
    indexed = λ j p h.
        ground (arith, c.indexed j p, get-drop_key k.all sid j, get-unindexed (k.heap p).state j);
    stated = λ t j p h. ground (
      arith,
      c.stated t j p,
      c.stated s sid r there,
      get-drop_key k.all sid j,
      get-unindexed t j,
      eq→same_state s t,
    );
  }

  unindexed-plotting :
      s ≢ plotting
      → (j : Sid) → get ((unindexed k s sid).by_state plotting) j ≡ get (k.by_state plotting) j
  unindexed-plotting differ j = ground (arith, get-unindexed plotting j, same_state→eq s plotting)

  unindexed-all : (j : Sid) (p : Ref) → get (drop_key k.all sid) j ≡ some p → get k.all j ≡ some p
  unindexed-all j p h = ground (arith, get-drop_key k.all sid j)

  pub unindexed-Inv : s ≢ plotting → Inv k → Inv (unindexed k s sid)
  unindexed-Inv differ v = record {
    coherent = unindexed-Coherent v.coherent;
    requests = λ q h p e. v.requests q h p (unindexed-all (sid_of k q) p e);
    queue_made = v.queue_made;
    channel_made = v.channel_made;
    popped_made = v.popped_made;
    taken_popped = v.taken_popped;
    busy_popped = v.busy_popped;
    busy_plotting = λ q e. rw (unindexed-plotting differ (sid_of k q)) (v.busy_plotting q e);
    one_plotting = λ j p e. v.one_plotting j p (rw (unindexed-plotting differ j) at e);
  }
