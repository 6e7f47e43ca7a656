-- ===== src/KubernetesUpdater/Csv.antt =====
-- config.go: `splitCSV`, which reads a list of names from the ConfigMap.
pub mod Laws
use machinecfg.Prelude.{ℕ, String, Bool, List, [], ◌∷◌, ◌==◌, string_eq, if◌then◌else◌}
use machinecfg.Text.{split, trim_space, to_lower}

-- The loop: a token that is blank is left out. A nil slice is an empty one.
unfoldable pub tokens : List String → List String
tokens [] = []
tokens (p ∷ ps) =
    let t = to_lower (trim_space p) in let rest = tokens ps in if t == "" then rest else t ∷ rest

unfoldable pub split_csv : String → List String
unfolding tokens
split_csv s =
    let trimmed = trim_space s in if trimmed == "" then [] else tokens (split b',' trimmed)
