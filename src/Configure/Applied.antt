-- ===== src/Configure/Applied.antt =====
-- Applying a configuration keeps the keeper's invariant, and puts the configured spaces to use.
use mass_net_miner.Common.{
  suc, ◌≡◌, refl, sym, ◌∙◌, Bool, true, false, List, [], ◌∷◌, ◌++◌, some, inl, inr, Bool-cases,
  arith,
}
use mass_net_miner.Keeper.Index.{Sid, Ref, get}
use mass_net_miner.Keeper.State.{WorkSpace, idle, SpaceKeeper, put_at}
use mass_net_miner.Keeper.Invariant.{Inv, Made-mono, Made-append}
use mass_net_miner.Keeper.Replies.{sent_requests, sent-busy}
use mass_net_miner.Keeper.Served.{none≢some, idle≢taken, idle≢busy}
use mass_net_miner.Configure.Apply.{
  lists_id, use_work_space, disuse_each, reset_queue, push_request,
}

-- Two heaps whose spaces differ in `using` only.
pub record Alike (h g : Ref → WorkSpace) : Type 0 where
  pub ids : (p : Ref) → (g p).id ≡ (h p).id
  pub states : (p : Ref) → (g p).state ≡ (h p).state

pub with_heap-Inv :
    (k : SpaceKeeper) (g : Ref → WorkSpace) (l : List Ref)
    → Alike k.heap g
    → Inv k
    → Inv (record k { heap = g; list = l })
with_heap-Inv k g l s v = record {
  coherent = record {
    indexed = λ j p h. rw (s.ids p, s.states p) (v.coherent.indexed j p h);
    stated = λ t j p h. rw (s.states p) (v.coherent.stated t j p h);
  };
  requests = λ q h p e. v.requests q h p (rw (s.ids (k.queued q).ws) at e);
  queue_made = v.queue_made;
  channel_made = v.channel_made;
  popped_made = v.popped_made;
  taken_popped = v.taken_popped;
  busy_popped = v.busy_popped;
  busy_plotting = λ q e. rw (s.ids (k.queued q).ws) (v.busy_plotting q e);
  one_plotting = λ j p e.
      let (q, serves, here) = v.one_plotting j p e in (q, serves, rw (s.ids (k.queued q).ws) here);
}

pub put_using-Alike :
    (h : Ref → WorkSpace) (r : Ref) (b : Bool) → Alike h (put_at h r (record (h r) { using = b }))
put_using-Alike h r b = record { ids = λ p. ground arith; states = λ p. ground arith }

pub disuse_each-Alike : (h : Ref → WorkSpace) (rs : List Ref) → Alike h (disuse_each h rs)
unfolding disuse_each
disuse_each-Alike h [] = record { ids = λ p. refl; states = λ p. refl }
disuse_each-Alike h (r ∷ rs) =
    let one = put_using-Alike h r false in
    let rest = disuse_each-Alike (put_at h r (record (h r) { using = false })) rs in
    record { ids = λ p. rest.ids p ∙ one.ids p; states = λ p. rest.states p ∙ one.states p }

pub use_work_space-Inv : (k : SpaceKeeper) (r : Ref) → Inv k → Inv (use_work_space k r)
unfolding use_work_space
use_work_space-Inv k r v = elim (Bool-cases (lists_id k.heap (k.heap r).id k.list)) [
  | inl listed ↦ rw (use_work_space, listed) v
  | inr not_yet ↦
      rw (use_work_space, not_yet)
        (with_heap-Inv k (put_at k.heap r (record (k.heap r) { using = true })) (k.list ++ (r ∷ []))
          (put_using-Alike k.heap r true) v)
]

pub reset_queue-Inv : (k : SpaceKeeper) → k.plotter ≡ idle → Inv k → Inv (reset_queue k)
unfolding reset_queue
reset_queue-Inv k rests v = record {
  coherent = record { indexed = v.coherent.indexed; stated = v.coherent.stated };
  requests = v.requests;
  queue_made = tt;
  channel_made = v.channel_made;
  popped_made = λ q e. absurd (none≢some q e);
  taken_popped = λ q e. absurd (idle≢taken q (sym rests ∙ e));
  busy_popped = λ q e. absurd (idle≢busy q (sym rests ∙ e));
  busy_plotting = λ q e. absurd (idle≢busy q (sym rests ∙ e));
  one_plotting = v.one_plotting;
}

pub push_request-Inv :
    (k : SpaceKeeper) (sid : Sid) (r : Ref) (would : Bool)
    → get k.all sid ≡ some r
    → Inv k
    → Inv (push_request k r would)
unfolding push_request
push_request-Inv k sid r would there v = record {
  coherent = record { indexed = v.coherent.indexed; stated = v.coherent.stated };
  requests = sent_requests k sid r would there v;
  queue_made =
      Made-append (suc k.next_queued) k.queue (k.next_queued ∷ [])
        (Made-mono k.next_queued (suc k.next_queued) k.queue (omega arith) v.queue_made)
        (omega arith, tt);
  channel_made = Made-mono k.next_queued (suc k.next_queued) k.channel (omega arith) v.channel_made;
  popped_made = λ q e. omega (arith, v.popped_made q e);
  taken_popped = v.taken_popped;
  busy_popped = v.busy_popped;
  busy_plotting = λ q e. rw (sent-busy k sid r would v q e) (v.busy_plotting q e);
  one_plotting = λ j p e.
      let (q, serves, here) = v.one_plotting j p e in
      (q, serves, rw (sent-busy k sid r would v q serves) here);
}
