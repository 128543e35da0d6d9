-- ===== src/Keeper/Served.antt =====
-- Every step of the plotter keeps the keeper's invariant.
use mass_net_miner.Common.{◌≡◌, ◌≢◌, sym, ◌∙◌, subst, List, [], ◌∷◌, ◌++◌, none, some, ◌<◌}
use mass_net_miner.Keeper.State.{QueuedRef, Plotter, idle, adding, awake, taken, busy, SpaceKeeper}
use mass_net_miner.Keeper.Plotting.{pop_item, add_space, quit_plotter}
use mass_net_miner.Keeper.Invariant.{Inv, Made, Made-append}

pub none≢some : (q : QueuedRef) → none ≢ some q
none≢some q e = cc

pub idle≢taken : (q : QueuedRef) → idle ≢ taken q
idle≢taken q e = cc

pub idle≢busy : (q : QueuedRef) → idle ≢ busy q
idle≢busy q e = cc

pub adding≢busy : (q : QueuedRef) → adding ≢ busy q
adding≢busy q e = cc

pub awake≢busy : (q : QueuedRef) → awake ≢ busy q
awake≢busy q e = cc

pub taken≢busy : (q p : QueuedRef) → taken q ≢ busy p
taken≢busy q p e = cc

-- While the plotter does not serve a request, its position may change.
abbrev pub at : SpaceKeeper → Plotter → SpaceKeeper
at k p = record k { plotter = p }

abbrev pub Unserved : Plotter → Type 0
Unserved p = (q : QueuedRef) → p ≢ busy q

pub at-Inv :
    (k : SpaceKeeper) (p : Plotter)
    → Unserved k.plotter
    → Unserved p
    → ((q : QueuedRef) → p ≡ taken q → k.popped ≡ some q)
    → Inv k
    → Inv (at k p)
at-Inv k p before after popped v = record {
  coherent = record { indexed = v.coherent.indexed; stated = v.coherent.stated };
  requests = v.requests;
  queue_made = v.queue_made;
  channel_made = v.channel_made;
  popped_made = v.popped_made;
  taken_popped = popped;
  busy_popped = λ q e. absurd (after q e);
  busy_plotting = λ q e. absurd (after q e);
  one_plotting = λ j p e. let (q, serves, _) = v.one_plotting j p e in absurd (before q serves);
}

Made-parts :
    (n : QueuedRef) (before : List QueuedRef) (q : QueuedRef) (after : List QueuedRef)
    → Made n (before ++ (q ∷ after))
    → (q < n) × Made n (before ++ after)
Made-parts n [] q after a = a
Made-parts n (p ∷ before) q after a =
    let rest = Made-parts n before q after a.1 in (rest.0, (a.0, rest.1))

-- The keeper without its queue and popped item keeps the invariant while nothing is served.
pub pop_item-Inv :
    (k : SpaceKeeper) (before : List QueuedRef) (q : QueuedRef) (after : List QueuedRef)
    → k.plotter ≡ awake
    → k.queue ≡ before ++ (q ∷ after)
    → Inv k
    → Inv (pop_item k before q after)
unfolding pop_item
pop_item-Inv k before q after awakened parts v =
    let (made, others) =
      Made-parts k.next_queued before q after (subst (Made k.next_queued) parts v.queue_made) in
    record {
      coherent = record { indexed = v.coherent.indexed; stated = v.coherent.stated };
      requests = v.requests;
      queue_made = others;
      channel_made = v.channel_made;
      popped_made = λ p e. let same : q ≡ p = cc in subst (λ z. z < k.next_queued) same made;
      taken_popped = λ p e. cc;
      busy_popped = λ p e. cc;
      busy_plotting = λ p e. absurd (taken≢busy q p e);
      one_plotting = λ j p e.
          let (b, serves, _) = v.one_plotting j p e in
          absurd (awake≢busy b (sym awakened ∙ serves));
    }

pub add_space-Inv :
    (k : SpaceKeeper) (q : QueuedRef) (others : List QueuedRef)
    → Unserved k.plotter
    → k.channel ≡ q ∷ others
    → Inv k
    → Inv (add_space k q others)
unfolding add_space
add_space-Inv k q others unserved head v =
    let made = subst (Made k.next_queued) head v.channel_made in
    record {
      coherent = record { indexed = v.coherent.indexed; stated = v.coherent.stated };
      requests = v.requests;
      queue_made = Made-append k.next_queued k.queue (q ∷ []) v.queue_made (made.0, tt);
      channel_made = made.1;
      popped_made = v.popped_made;
      taken_popped = λ p e. cc;
      busy_popped = λ p e. cc;
      busy_plotting = λ p e. absurd (adding≢busy p e);
      one_plotting =
          λ j p e. let (b, serves, _) = v.one_plotting j p e in absurd (unserved b serves);
    }

pub quit_plotter-Inv : (k : SpaceKeeper) → Unserved k.plotter → Inv k → Inv (quit_plotter k)
unfolding quit_plotter
quit_plotter-Inv k unserved v = record {
  coherent = record { indexed = v.coherent.indexed; stated = v.coherent.stated };
  requests = v.requests;
  queue_made = tt;
  channel_made = v.channel_made;
  popped_made = λ q e. absurd (none≢some q e);
  taken_popped = λ q e. absurd (idle≢taken q e);
  busy_popped = λ q e. absurd (idle≢busy q e);
  busy_plotting = λ q e. absurd (idle≢busy q e);
  one_plotting = λ j p e. let (b, serves, _) = v.one_plotting j p e in absurd (unserved b serves);
}
