-- ===== src/Netbox/FindOrCreate.antt =====
-- The shape of the functions `getOrCreate…` and `ensure…`: an object is looked up, and made where
-- the list is empty.
pub mod Laws
use machinecfg.Prelude.{String, Bool, true, false, ltb, if◌then◌else◌}
use machinecfg.Effect.{Exec, Reply, pure, ask, tell, first, wrap, ◌>>=◌}
use machinecfg.Netbox.{Page}

-- The common shape of the look-ups: the first record of the page, or else a new one; and whether
-- it is new.
abbrev pub find_or_create :
    {S A : Type 0}
    → (String → String)
    → (String → String)
    → (S → Reply (Page A))
    → (S → Reply A × S)
    → Exec S (A × Bool)
find_or_create list_error create_error list create = do
  existing ← wrap list_error (ask list)
  if ltb 0 existing.count
      then (do found ← first existing.results; pure (found, false))
      else (do created ← wrap create_error (tell create); pure (created, true))
