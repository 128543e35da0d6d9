-- ===== src/Keeper/State.antt =====
-- The state of the space keeper (capacity.go, space_plotter.go), and the parts that its methods share.
-- A work space and a queued request are objects that several places point to, so that both live in a
-- store. The priority queue is the bag of its requests: which one is popped is an argument.
use mass_net_miner.Common.{
  ℕ, suc, Bool, true, false, List, [], ◌∷◌, ◌++◌, Option, none, some, ◌==◌, if◌then◌else◌, length,
  leb,
}
use mass_net_miner.Engine.{WorkSpaceState, registered, plotting, ready, mining}
use mass_net_miner.Keeper.Index.{Sid, Ref, SpaceMap, get, drop_key, put}

-- `delete_failed` and `stop_failed` stand for errors that MassDB's Delete and StopPlot report.
pub data SkError : Type 0 where
  does_not_exist is_not_plotting is_not_still invalid_action unimplemented_action : SkError
  delete_failed stop_failed : SkError

pub record WorkSpace : Type 0 where
  pub id : Sid
  pub state : WorkSpaceState
  pub using : Bool

abbrev pub QueuedRef : Type 0
QueuedRef = ℕ

pub record QueuedWorkSpace : Type 0 where
  pub ws : Ref
  pub would_mining : Bool

-- Where the plotter's goroutine stands: at the top of its loop, in the loop of addSpaces, behind an
-- Empty that was false (the lock is not held between Empty and PopItem), behind PopItem, or in Step
-- 2 of plotSpace, which waits for the plot.
pub data Plotter : Type 0 where
  idle adding awake : Plotter
  taken : QueuedRef → Plotter
  busy : QueuedRef → Plotter

-- workSpaceIndex is `by_state` and, for allState, `all`; workSpaceList is `list`;
-- newQueuedWorkSpaceCh is `channel`.
pub record SpaceKeeper : Type 0 where
  pub heap : Ref → WorkSpace
  pub by_state : WorkSpaceState → SpaceMap
  pub all : SpaceMap
  pub list : List Ref
  pub queue : List QueuedRef
  pub popped : Option QueuedRef
  pub queued : QueuedRef → QueuedWorkSpace
  pub next_queued : QueuedRef
  pub channel : List QueuedRef
  pub plotter : Plotter

-- plotterMaxChanSize
abbrev pub plotter_max_chan_size : ℕ
plotter_max_chan_size = 1024

-- How a call of MassDB's StopPlot ends. MassDBV1 reports nil, or closes a channel that is nil or
-- closed, which panics: nil between the CompareAndSwap and the make of its Plot, and closed when the
-- monitor of the plotter, or another StopWS, has stopped the same plot.
pub data StopReply : Type 0 where
  stop_reports : Option SkError → StopReply
  stop_breaks : StopReply

-- What the calls of MassDB come to that an action makes: at most one of them.
pub record DbReplies : Type 0 where
  pub delete_reply : Option SkError
  pub stop_reply : StopReply

-- A method returns, waits for room in the channel while it holds the lock, or panics.
pub data Reply : Type 0 where
  done : SpaceKeeper → Option SkError → Reply
  blocks panics : Reply

abbrev pub put_at {ℓ} : {A : Type ℓ} → (ℕ → A) → ℕ → A → ℕ → A
put_at f p v i = if p == i then v else f i

abbrev pub same_state : WorkSpaceState → WorkSpaceState → Bool
same_state registered registered = true
same_state plotting plotting = true
same_state ready ready = true
same_state mining mining = true
same_state _ _ = false

abbrev pub update_state :
    (WorkSpaceState → SpaceMap) → WorkSpaceState → SpaceMap → WorkSpaceState → SpaceMap
update_state f s m t = if same_state s t then m else f t

-- The id of the space that a request is for.
abbrev pub sid_of : SpaceKeeper → QueuedRef → Sid
sid_of k q = (k.heap (k.queued q).ws).id

-- workSpaceIndex[old].Delete(sid); workSpaceIndex[new].Set(sid, ws); ws.state = new
unfoldable pub move : SpaceKeeper → WorkSpaceState → WorkSpaceState → Sid → Ref → SpaceKeeper
move k old new sid r =
    let without = update_state k.by_state old (drop_key (k.by_state old) sid) in
    record k {
      by_state = update_state without new (put (without new) sid r);
      heap = put_at k.heap r (record (k.heap r) { state = new });
    }

-- plotterQueue.Delete: all requests are popped, and those of other spaces pushed back.
unfoldable pub keep_others : SpaceKeeper → Sid → List QueuedRef → List QueuedRef
keep_others k sid [] = []
keep_others k sid (q ∷ qs) =
    let rest = keep_others k sid qs in if sid_of k q == sid then rest else q ∷ rest

unfoldable pub queue_delete : SpaceKeeper → Sid → SpaceKeeper
unfolding keep_others
queue_delete k sid = record k { queue = keep_others k sid k.queue }

-- newQueuedWorkSpace, sent to the channel.
unfoldable pub send : SpaceKeeper → Ref → Bool → Reply
send k r would_mining =
    if leb plotter_max_chan_size (length k.channel)
    then blocks
    else done
        (record k {
          queued = put_at k.queued k.next_queued (record { ws = r; would_mining = would_mining });
          next_queued = suc k.next_queued;
          channel = k.channel ++ (k.next_queued ∷ []);
        })
        none

-- The space is plotting: what shall become of it is noted in the request that the plotter holds.
unfoldable pub redirect : SpaceKeeper → Sid → Bool → Reply
redirect k sid would_mining = elim (k.popped) [
  | none ↦ panics
  | some q ↦
      if sid_of k q == sid
      then done
          (record k {
            queued = put_at k.queued q (record (k.queued q) { would_mining = would_mining });
          })
          none
      else done k (some is_not_plotting)
]

-- NewSpaceKeeperV1: the indexes and the queue are empty.
unfoldable pub new_space_keeper : (Ref → WorkSpace) → SpaceKeeper
new_space_keeper heap = record {
  heap = heap;
  by_state = λ s. [];
  all = [];
  list = [];
  queue = [];
  popped = none;
  queued = λ q. record { ws = 0; would_mining = false };
  next_queued = 0;
  channel = [];
  plotter = idle;
}

-- addWorkSpaceToIndex, without workSpacePaths
unfoldable pub add_work_space_to_index : SpaceKeeper → Ref → SpaceKeeper
add_work_space_to_index k r =
    let sid = (k.heap r).id in
    let s = (k.heap r).state in
    elim (get k.all sid) [
      | some _ ↦ k
      | none ↦ record k {
        all = put k.all sid r;
        by_state = update_state k.by_state s (put (k.by_state s) sid r);
      }
    ]

-- generateInitialIndex calls it for each space that it finds.
unfoldable pub add_work_spaces : SpaceKeeper → List Ref → SpaceKeeper
unfolding add_work_space_to_index
add_work_spaces k [] = k
add_work_spaces k (r ∷ rs) = add_work_spaces (add_work_space_to_index k r) rs
