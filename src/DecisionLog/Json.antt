-- ===== src/DecisionLog/Json.antt =====
-- JSON values as `json` reads and writes them; Python's None is `null`, and `N` is the type of
-- numbers. A dict at the top of a value is an association list, one below it is `Fields`.
use ailending_hub.Prelude.{
  none, some, [], ◌∷◌, String, str_eq, if◌then◌else◌, Dict, lookup, String-discrete,
}

mutual
  pub data Json (N : Type 0) : Type 0 where
    null : Json N
    str : String → Json N
    number : N → Json N
    arr : Items N → Json N
    obj : Fields N → Json N

  pub data Items (N : Type 0) : Type 0 where
    nil : Items N
    cons : Json N → Items N → Items N

  pub data Fields (N : Type 0) : Type 0 where
    end : Fields N
    field : String → Json N → Fields N → Fields N

module _ {N : Type 0} (N-discrete : Discrete N) where
  unfoldable pub Json-discrete : Discrete (Json N)
  unfolding String-discrete
  Json-discrete = hlevel (N-discrete, String-discrete)

  unfoldable pub Dict-discrete : Discrete (Dict (Json N))
  unfolding Json-discrete
  Dict-discrete = hlevel (String-discrete, Json-discrete)

module _ {N : Type 0} where
  -- `d.get(k)`: a missing key reads as None.
  unfoldable pub get : String → Dict (Json N) → Json N
  get k d = elim (lookup k d) [ none ↦ null | some v ↦ v ]

  -- `d` after `d.pop(k, None)`.
  unfoldable pub without : String → Dict (Json N) → Dict (Json N)
  without k [] = []
  without k ((j, v) ∷ d) = let rest = without k d in if str_eq j k then rest else (j, v) ∷ rest
