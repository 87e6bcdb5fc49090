-- ===== src/Fraud/Bands.antt =====
-- fraud/routing.py: Action, Band, RoutingPolicy and route. Scores are floats, which the code only
-- compares: their type `F`, `<=` (`le`) and `==` (`same`) are parameters.
use Prim.Native.String.{◌++◌ as joined}
use ailending_hub.Prelude.{
  ℕ, ◌+◌, Bool, true, false, not, ◌&&◌, List, [], ◌∷◌, String, ◌==◌, any, length, is_nil, is_empty,
  if◌then◌else◌, Result, ok, ◌>>◌, raise_if, sort_by,
}

pub data Action : Type 0 where
  pass step_up refer : Action

pub data RoutingError : Type 0 where
  no_bands bands_not_ascending shared_edge no_reference no_reason score_not_probability :
      RoutingError
  passed_application : RoutingError
  case_exists no_such_case already_closed : (case_id : String) → RoutingError
  no_analyst : RoutingError
  not_in_taxonomy : (code : String) → RoutingError
  not_ratified : RoutingError
  more_confirmed_than_closed : RoutingError
  -- the AttributeError of a closed case without a disposition
  no_disposition : (case_id : String) → RoutingError

pub record Band (F : Type 0) : Type 0 where
  pub lower : F
  pub action : Action

pub record RoutingPolicy (F : Type 0) : Type 0 where
  pub bands : List (Band F)
  pub ratified : Bool
  pub provenance : String

abbrev pub lowers : {F : Type 0} → List (Band F) → List F
lowers [] = []
lowers (b ∷ bs) = b.lower ∷ lowers bs

module _ {F : Type 0} (le same : F → F → Bool) where
  -- `==` of two lists.
  unfoldable pub same_list : List F → List F → Bool
  same_list [] [] = true
  same_list (x ∷ xs) (y ∷ ys) = same x y && same_list xs ys
  same_list _ _ = false

  -- `len({...})`: the number of elements that no later one equals.
  unfoldable pub set_size : List F → ℕ
  set_size [] = 0
  set_size (x ∷ xs) = (if any (same x) xs then 0 else 1) + set_size xs

  abbrev pub lower_le : Band F → Band F → Bool
  lower_le a b = le a.lower b.lower

  -- `RoutingPolicy.__post_init__`
  unfoldable pub routing_policy : RoutingPolicy F → Result RoutingError (RoutingPolicy F)
  unfolding same_list set_size
  routing_policy p = do
    raise_if (is_nil p.bands) no_bands
    raise_if (not (same_list (lowers (sort_by lower_le p.bands)) (lowers p.bands)))
        bands_not_ascending
    raise_if (not (set_size (lowers p.bands) == length p.bands)) shared_edge
    ok p

  -- `RoutingPolicy.from_policy`
  unfoldable pub ratified_policy : List (Band F) → String → Result RoutingError (RoutingPolicy F)
  ratified_policy bands decision_reference = do
    raise_if (is_empty decision_reference) no_reference
    routing_policy (record { bands = bands; ratified = true; provenance = decision_reference })

  -- `RoutingPolicy.for_experiment`
  unfoldable pub experiment_policy : List (Band F) → String → Result RoutingError (RoutingPolicy F)
  experiment_policy bands reason = do
    raise_if (is_empty reason) no_reason
    routing_policy
        (record { bands = bands; ratified = false; provenance = joined "unratified: " reason })

  -- The loop of `action_for`, with the action as its variable.
  unfoldable pub action_from : F → Action → List (Band F) → Action
  action_from score action [] = action
  action_from score action (b ∷ bs) =
      action_from score (if le b.lower score then b.action else action) bs

  unfoldable pub action_for : F → RoutingPolicy F → Action
  action_for score p = action_from score pass p.bands

  -- `route`, with the floats 0.0 and 1.0.
  unfoldable pub route : F → F → F → RoutingPolicy F → Result RoutingError Action
  route nought one score p = do
    raise_if (not (le nought score && le score one)) score_not_probability
    ok (action_for score p)
