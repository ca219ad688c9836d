-- ===== src/Cloud/Size.antt =====
-- cloud/machine/machine.go and blueprint/blueprint.go: the cheapest size that fits. Floats are
-- abstract: a type with the tests that the code makes. The tables of sizes are an argument.
use quilt.Prelude.{Bool, ◌&&◌, ◌||◌, String, List, [], ◌∷◌, if◌then◌else◌, ◌==◌, string_eq}

-- float64, with `<=`, `<` and `==`.
pub record Float : Type 1 where
  pub Value : Type 0
  pub zero : Value
  pub leb : Value → Value → Bool
  pub ltb : Value → Value → Bool
  pub eqb : Value → Value → Bool

module _ (f : Float) where
  open f use {Value, zero, leb, ltb, eqb}

  -- blueprint.Range
  pub record Range : Type 0 where
    pub min : Value
    pub max : Value

  -- machine.Description; `cpu` is the number after its conversion to a float.
  pub record Description : Type 0 where
    pub size : String
    pub price : Value
    pub ram : Value
    pub cpu : Value
    pub disk : String
    pub region : String

  -- Range.Accepts
  unfoldable pub accepts : Range → Value → Bool
  accepts r x = leb r.min x && (eqb r.max zero || leb x r.max)

  -- The zero value of the variable `best`.
  abbrev pub no_description : Description
  no_description = record {
    size = "";
    price = zero;
    ram = zero;
    cpu = zero;
    disk = "";
    region = "";
  }

  -- One turn of the loop of chooseBestSize.
  unfoldable pub pick_cheaper : Range → Range → Description → Description → Description
  unfolding accepts
  pick_cheaper ram cpu best d =
      if accepts ram d.ram && accepts cpu d.cpu && (best.size == "" || ltb d.price best.price)
      then d
      else best

  unfoldable pub cheapest : Range → Range → Description → List Description → Description
  cheapest ram cpu best [] = best
  cheapest ram cpu best (d ∷ ds) = cheapest ram cpu (pick_cheaper ram cpu best d) ds

  unfoldable pub choose_best_size : List Description → Range → Range → Value → String
  choose_best_size descriptions ram cpu max_price =
      let best = cheapest ram cpu no_description descriptions in
      if eqb max_price zero || leb best.price max_price then best.size else ""

  -- The tables of the providers, and vagrantSize, which formats two floats.
  pub record Catalogue : Type 0 where
    pub amazon : List Description
    pub digital_ocean : List Description
    pub google : List Description
    pub vagrant_size : Range → Range → String
