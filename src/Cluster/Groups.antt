-- ===== src/Cluster/Groups.antt =====
-- The abstract view of the FHRP groups of NetBox, for sync_status.go: groups under their names, and
-- their allocation as steps that add a group with a new name and a number above all others.
use machinecfg.Prelude.{ℕ, ◌<◌, ◌≢◌, String, List, [], ◌∷◌, All, All-map, arith}
use machinecfg.Netbox.{FhrpGroup}

-- A group under its name.
pub record Entry : Type 0 where
  pub name : String
  pub group : FhrpGroup

abbrev pub NotNamed : String → List Entry → Type 0
NotNamed name gs = All (λ (e : Entry). e.name ≢ name) gs

abbrev pub Below : ℕ → List Entry → Type 0
Below n gs = All (λ (e : Entry). e.group.group_id < n) gs

pub data Allocates (gs : List Entry) : List Entry → Type 0 where
  kept : Allocates gs gs
  allocated :
      {hs : List Entry} (e : Entry)
      → Allocates gs hs
      → NotNamed e.name hs
      → Below e.group.group_id hs
      → Allocates gs (e ∷ hs)

pub Allocates-trans : {gs hs is : List Entry} → Allocates gs hs → Allocates hs is → Allocates gs is
Allocates-trans a kept = a
Allocates-trans a (allocated e b fresh below) = allocated e (Allocates-trans a b) fresh below

-- No two groups have the same name or the same number.
abbrev pub AreDistinct : List Entry → Type 0
AreDistinct [] = Unit
AreDistinct (e ∷ es) =
    NotNamed e.name es
    × All (λ (h : Entry). h.group.group_id ≢ e.group.group_id) es
    × AreDistinct es

below_is_other : (m n : ℕ) → m < n → m ≢ n
below_is_other m n h e = omega (arith, h, e)

pub Allocates-AreDistinct : {gs hs : List Entry} → Allocates gs hs → AreDistinct gs → AreDistinct hs
Allocates-AreDistinct kept d = d
Allocates-AreDistinct (allocated {hs} e a fresh below) d = (
  fresh,
  All-map (λ h. below_is_other h.group.group_id e.group.group_id) hs below,
  Allocates-AreDistinct a d,
)
