-- ===== src/Service/ApplicationSet/Conditions/Laws.antt =====
-- Whose conditions become the health status of a preview.
use alustan.Base.{List, [], ◌∷◌, ◌≤◌, All}
use alustan.Value.{Value}
use alustan.Cluster.{Application}

-- Created no later than the other.
abbrev pub NoLaterThan : Application → Application → Type 0
NoLaterThan a b = b.creation_timestamp ≤ a.creation_timestamp

-- No application behind the first is later than it.
abbrev FirstIsLatest : List Application → Type 0
FirstIsLatest [] = Unit {0}
FirstIsLatest (a ∷ rest) = All (NoLaterThan a) rest
