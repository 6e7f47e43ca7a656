-- ===== src/Kube/Watches.antt =====
-- controller-runtime's events, as far as the set-up of the reconcilers decides on them: the key of
-- an object, the predicate on its name and the requests that an event puts into the queue.
use machinecfg.Prelude.{String, Bool, ◌&&◌, List, [], ◌∷◌, ◌==◌, string_eq, if◌then◌else◌}

-- `types.NamespacedName`
pub record Key : Type 0 where
  pub name : String
  pub namespace : String

-- The predicate on one object by its name and namespace.
abbrev pub is_object : String → String → Key → Bool
is_object name namespace o = o.name == name && o.namespace == namespace

-- `EnqueueRequestForObject` behind a predicate.
abbrev pub for_object : Bool → Key → List Key
for_object passes o = if passes then o ∷ [] else []
