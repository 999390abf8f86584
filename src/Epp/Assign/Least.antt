-- ===== src/Epp/Assign/Least.antt =====
-- The group that an allocation selects.
use ai_gateway_api.Prelude.{◌≡◌, ◌<◌, ◌⊎◌, String, true, false}
use ai_gateway_api.Epp.Names.{name_lt}
use ai_gateway_api.Epp.Pool.{Group, Pool}
use ai_gateway_api.Epp.Assign.{Assignments, load, is_better}

-- A group that carries more, or as much and has no smaller name.
abbrev pub NoBetter : Assignments → String → Group → Type 0
NoBetter assignments chosen g =
    (load assignments chosen < load assignments g.name)
    ⊎ ((load assignments chosen ≡ load assignments g.name) × (name_lt g.name chosen ≡ false))

abbrev Kept : Assignments → Group → Group → Type 0
Kept assigned s g = is_better assigned g s ≡ false

abbrev Reached : Assignments → Group → Group → Type 0
Reached assigned s f = (f ≡ s) ⊎ (is_better assigned f s ≡ true)
