-- ===== src/Fractal/Collector.antt =====
-- fractal/collector.go: how a local collector answers a request for qualities, slot by slot.
-- The times of the ticker, in slots, are a list, which ends when the request is cancelled; a cancel
-- that comes between two slots is a test of the slot. Slots of the clock are far below 2 ^ 64.
pub mod Slots
use mass_net_miner.Common.{
  ℕ, zero, suc, ◌+◌, ◌-◌, ◌^◌, ◌%◌, Bool, true, false, not, ◌&&◌, List, [], ◌∷◌, ◌++◌, Option, none,
  some, map, ltb, leb, if◌then◌else◌,
}
use mass_net_miner.Common.Bytes.{Bytes}
use mass_net_miner.Fractal.Base.{Text, Parts}
use mass_net_miner.Fractal.Qualities.{Quality, RequestQualities, ReportQualities}

-- engine_v2.WorkSpaceQuality; `failed` is whether there is an Error.
pub record WorkSpaceQuality (p : Parts) : Type 0 where
  pub space_id : Text
  pub public_key : p.G1
  pub pool_public_key : p.G1
  pub index : ℕ
  pub k_size : ℕ
  pub quality : Bytes
  pub failed : Bool
  pub plot_id : Bytes

-- poc.HashValChia, and poc.GetQuality of poc.Q1FactorChia of the size; the target that
-- CalcNextRequiredDifficulty gives behind a header of the parent's slot and target, at a slot.
pub record Consensus : Type 0 where
  pub hash_val_chia : Bytes → ℕ → ℕ → Bytes
  pub quality_of_size : ℕ → Bytes → ℕ
  pub next_target : ℕ → ℕ → ℕ → ℕ

abbrev pub allow_ahead : ℕ
allow_ahead = 10

unfoldable pub get_valid_chia_qualities :
    (p : Parts) → List (WorkSpaceQuality p) → List (WorkSpaceQuality p)
get_valid_chia_qualities p [] = []
get_valid_chia_qualities p (q ∷ qs) =
    let rest = get_valid_chia_qualities p qs in if q.failed then rest else q ∷ rest

unfoldable pub get_mass_qualities :
    (p : Parts) → Consensus → List (WorkSpaceQuality p) → ℕ → ℕ → List ℕ
get_mass_qualities p c qs slot height =
    map (λ q. c.quality_of_size q.k_size (c.hash_val_chia q.quality slot height)) qs

-- The loop over the qualities, which takes the chia quality at the same index.
unfoldable pub satisfied_qualities :
    (p : Parts) → List ℕ → List (WorkSpaceQuality p) → ℕ → List (WorkSpaceQuality p)
satisfied_qualities p [] qs target = []
satisfied_qualities p (m ∷ ms) [] target = []
satisfied_qualities p (m ∷ ms) (q ∷ qs) target =
    let rest = satisfied_qualities p ms qs target in if ltb target m then q ∷ rest else rest

abbrev pub with_slot : (p : Parts) → ℕ → WorkSpaceQuality p → Quality p
with_slot p slot q = record {
  space_id = q.space_id;
  public_key = q.public_key;
  pool_public_key = q.pool_public_key;
  index = q.index;
  k_size = q.k_size;
  quality = q.quality;
  failed = q.failed;
  plot_id = q.plot_id;
  slot = slot;
}

-- What goes to the superior; nothing for an empty list.
unfoldable pub report_qualities_of :
    (p : Parts) → RequestQualities p → List (WorkSpaceQuality p) → ℕ → List (ReportQualities p)
report_qualities_of p req [] slot = []
report_qualities_of p req (q ∷ qs) slot =
    record { task_id = req.task_id; qualities = map (with_slot p slot) (q ∷ qs) } ∷ []

-- One slot.
unfoldable pub try_slot :
    (p : Parts)
    → Consensus
    → RequestQualities p
    → List (WorkSpaceQuality p)
    → ℕ
    → List (ReportQualities p)
unfolding get_mass_qualities satisfied_qualities report_qualities_of
try_slot p c req qs slot =
    let target = c.next_target req.parent_slot req.parent_target slot in
    report_qualities_of p req
      (satisfied_qualities p (get_mass_qualities p c qs slot req.height) qs target) slot

-- What was reported, the slot to work on next, and whether the request was cancelled.
pub record Tried (p : Parts) : Type 0 where
  pub reports : List (ReportQualities p)
  pub work_slot : ℕ
  pub cancelled : Bool

-- The slots of one tick, `n` of them left.
pub try_ahead :
    (p : Parts)
    → Consensus
    → RequestQualities p
    → List (WorkSpaceQuality p)
    → (ℕ → Bool)
    → ℕ
    → ℕ
    → Tried p
try_ahead p c req qs done zero work = record { reports = []; work_slot = work; cancelled = false }
try_ahead p c req qs done (suc n) work =
    let rest = try_ahead p c req qs done n (work + 1) in
    if done work
    then record { reports = []; work_slot = work; cancelled = true }
    else record rest { reports = try_slot p c req qs work ++ rest.reports }

-- The ticks. A tick does nothing when the next slot is too far ahead.
pub try_slots :
    (p : Parts)
    → Consensus
    → RequestQualities p
    → List (WorkSpaceQuality p)
    → (ℕ → Bool)
    → List ℕ
    → ℕ
    → Tried p
try_slots p c req qs done [] work = record { reports = []; work_slot = work; cancelled = true }
try_slots p c req qs done (now ∷ ticks) work =
    let ahead = now + allow_ahead in
    let tried = try_ahead p c req qs done (ahead + 1 - work) work in
    let rest = try_slots p c req qs done ticks tried.work_slot in
    let idle = try_slots p c req qs done ticks work in
    if ltb ahead work
    then idle
    else if tried.cancelled
    then tried
    else record rest { reports = tried.reports ++ rest.reports }

-- `none` is a failure of the space keeper's GetQualities.
unfoldable pub on_request_qualities :
    (p : Parts)
    → Consensus
    → RequestQualities p
    → Option (List (WorkSpaceQuality p))
    → (ℕ → Bool)
    → List ℕ
    → List (ReportQualities p)
unfolding try_slots get_valid_chia_qualities
on_request_qualities p c req none done ticks = []
on_request_qualities p c req (some qs) done ticks = elim (get_valid_chia_qualities p qs) [
  | [] ↦ []
  | q ∷ valid ↦ (try_slots p c req (q ∷ valid) done ticks ((req.parent_slot + 1) % 2 ^ 64)).reports
]
