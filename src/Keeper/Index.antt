-- ===== src/Keeper/Index.antt =====
-- poc/engine/spacekeeper/capacity/workspace.go, WorkSpaceMap: from the id of a space to its pointer.
-- The concurrent map is a list of pairs; an id is its string, of which the keeper only uses equality,
-- and stands as a number. A pointer is a number too.
use mass_net_miner.Common.{ℕ, ◌≡◌, List, [], ◌∷◌, Option, none, some, arith, ◌==◌, if◌then◌else◌}

abbrev pub Sid : Type 0
Sid = ℕ

abbrev pub Ref : Type 0
Ref = ℕ

abbrev pub SpaceMap : Type 0
SpaceMap = List (Sid × Ref)

unfoldable pub get : SpaceMap → Sid → Option Ref
get [] sid = none
get ((k, r) ∷ m) sid = if k == sid then some r else get m sid

unfoldable pub drop_key : SpaceMap → Sid → SpaceMap
drop_key [] sid = []
drop_key ((k, r) ∷ m) sid = let rest = drop_key m sid in if k == sid then rest else (k, r) ∷ rest

unfoldable pub put : SpaceMap → Sid → Ref → SpaceMap
put m sid r = (sid, r) ∷ drop_key m sid

pub get-drop_key :
    (m : SpaceMap) (sid k : Sid) → get (drop_key m sid) k ≡ (if sid == k then none else get m k)
unfolding get drop_key
get-drop_key [] sid k = ground arith
get-drop_key ((j, r) ∷ m) sid k = ground (arith, get-drop_key m sid k)

pub get-put :
    (m : SpaceMap) (sid : Sid) (r : Ref) (k : Sid)
    → get (put m sid r) k ≡ (if sid == k then some r else get m k)
unfolding get put
get-put m sid r k = ground (arith, get-drop_key m sid k)
