-- ===== src/Keeper/Steps.antt =====
-- The keeper as a step relation: each method, and each critical section of the plotter, is a step, and
-- an interleaving of the API's callers with the plotter is a sequence of steps.
use mass_net_miner.Common.{◌≡◌, ◌≢◌, sym, ◌∙◌, ap, subst, Bool, List, [], ◌∷◌, ◌++◌, Option}
use mass_net_miner.Engine
use mass_net_miner.Engine.{WorkSpaceState, registered, plotting, ready, mining}
use mass_net_miner.Keeper.Index.{Sid}
use mass_net_miner.Keeper.State.{
  SkError, DbReplies, QueuedRef, idle, adding, awake, taken, busy, SpaceKeeper, Reply, done,
}
use mass_net_miner.Keeper.Actions.{act_on_work_space}
use mass_net_miner.Keeper.Plotting.{pop_item, begin_plot, end_plot, add_space, quit_plotter}
use mass_net_miner.Keeper.Invariant.{Inv}
use mass_net_miner.Keeper.Replies.{Sound, returned, waiting, broken, ReportsOthers}
use mass_net_miner.Keeper.Safe.{act_on_work_space-Sound}
use mass_net_miner.Keeper.Served.{
  at, at-Inv, pop_item-Inv, add_space-Inv, quit_plotter-Inv, adding≢busy, awake≢busy, idle≢busy,
}
use mass_net_miner.Keeper.Plotted.{begin_plot-Inv, end_plot-Inv}

-- The steps of the plotter.
pub data PlotterStep : SpaceKeeper → SpaceKeeper → Type 0 where
  -- Empty is false
  wakes : {k : SpaceKeeper} → k.plotter ≡ idle → k.queue ≢ [] → PlotterStep k (at k awake)
  pops :
      {k : SpaceKeeper} (before : List QueuedRef) (q : QueuedRef) (after : List QueuedRef)
      → k.plotter ≡ awake
      → k.queue ≡ before ++ (q ∷ after)
      → PlotterStep k (pop_item k before q after)
  begins : {k : SpaceKeeper} (q : QueuedRef) → k.plotter ≡ taken q → PlotterStep k (begin_plot k q)
  ends :
      {k : SpaceKeeper} (q : QueuedRef) (plotted : Bool)
      → k.plotter ≡ busy q
      → PlotterStep k (end_plot k q plotted)
  -- a request comes while the queue is empty
  adds :
      {k : SpaceKeeper} (q : QueuedRef) (others : List QueuedRef)
      → k.plotter ≡ idle
      → k.queue ≡ []
      → k.channel ≡ q ∷ others
      → PlotterStep k (add_space k q others)
  adds_another :
      {k : SpaceKeeper} (q : QueuedRef) (others : List QueuedRef)
      → k.plotter ≡ adding
      → k.channel ≡ q ∷ others
      → PlotterStep k (add_space k q others)
  has_added : {k : SpaceKeeper} → k.plotter ≡ adding → k.channel ≡ [] → PlotterStep k (at k idle)
  quits_idle : {k : SpaceKeeper} → k.plotter ≡ idle → PlotterStep k (quit_plotter k)
  quits_awake : {k : SpaceKeeper} → k.plotter ≡ awake → PlotterStep k (quit_plotter k)

pub data Step : SpaceKeeper → SpaceKeeper → Type 0 where
  -- a method of the keeper that returns
  acts :
      {k k' : SpaceKeeper} {e : Option SkError} (sid : Sid) (act : Engine.ActionType)
      (db : DbReplies)
      → ReportsOthers db
      → act_on_work_space k sid act db ≡ done k' e
      → Step k k'
  plots : {k k' : SpaceKeeper} → PlotterStep k k' → Step k k'

-- A sequence of steps.
pub data Many (R : SpaceKeeper → SpaceKeeper → Type 0) : SpaceKeeper → SpaceKeeper → Type 0 where
  none_yet : {k : SpaceKeeper} → Many R k k
  then_step : {k l m : SpaceKeeper} → Many R k l → R l m → Many R k m

abbrev pub Steps : SpaceKeeper → SpaceKeeper → Type 0
Steps = Many Step

abbrev next : Reply → SpaceKeeper → SpaceKeeper
next (done k e) d = k
next _ d = d

Sound-Inv :
    {B : Type 0} {r : Reply} (k : SpaceKeeper) (e : Option SkError)
    → Sound B r
    → r ≡ done k e
    → Inv k
Sound-Inv k e (returned {k = l} v other) h =
    let same : l ≡ k = ap (λ r. next r k) h in subst Inv same v
Sound-Inv k e waiting h = cc
Sound-Inv k e (broken b) h = cc

pub PlotterStep-Inv : (k l : SpaceKeeper) → PlotterStep k l → Inv k → Inv l
PlotterStep-Inv k l (wakes i h) v =
    at-Inv k awake (λ q e. idle≢busy q (sym i ∙ e)) awake≢busy (λ q e. cc) v
PlotterStep-Inv k l (pops before q after a h) v = pop_item-Inv k before q after a h v
PlotterStep-Inv k l (begins q h) v = begin_plot-Inv k q h v
PlotterStep-Inv k l (ends q plotted h) v = end_plot-Inv k q plotted h v
PlotterStep-Inv k l (adds q others i none_left c) v =
    add_space-Inv k q others (λ p e. idle≢busy p (sym i ∙ e)) c v
PlotterStep-Inv k l (adds_another q others a c) v =
    add_space-Inv k q others (λ p e. adding≢busy p (sym a ∙ e)) c v
PlotterStep-Inv k l (has_added a c) v =
    at-Inv k idle (λ q e. adding≢busy q (sym a ∙ e)) idle≢busy (λ q e. cc) v
PlotterStep-Inv k l (quits_idle i) v = quit_plotter-Inv k (λ q e. idle≢busy q (sym i ∙ e)) v
PlotterStep-Inv k l (quits_awake a) v = quit_plotter-Inv k (λ q e. awake≢busy q (sym a ∙ e)) v

pub Step-Inv : (k l : SpaceKeeper) → Step k l → Inv k → Inv l
Step-Inv k l (acts {e = e} sid act db other h) v =
    Sound-Inv l e (act_on_work_space-Sound k sid act db v other) h
Step-Inv k l (plots s) v = PlotterStep-Inv k l s v

pub Steps-Inv : (k l : SpaceKeeper) → Steps k l → Inv k → Inv l
Steps-Inv k l none_yet v = v
Steps-Inv k l (then_step {l = m} before s) v = Step-Inv m l s (Steps-Inv k m before v)
