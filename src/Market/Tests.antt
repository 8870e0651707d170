-- ===== src/Market/Tests.antt =====
-- The market of argentum.py from an empty store.
use argentum_core.Base.{refl, arith, true, List, [], ◌∷◌, none, String}
use argentum_core.Market.{MarketDb, TrailRegister, TrailExecution}
use argentum_core.Market.Counts.{IsKept}
use argentum_core.Market.Rated.{Call, register, execute, execute_tool, rate, run, always-IsKept}

abbrev recipe : TrailRegister
recipe = record {
  author_id = "alice";
  author_name = "Alice";
  name = "search and sum";
  description = "two calls";
  steps = record { is_dict = true; has_service = true; has_tool = true; json = "{}" } ∷ [];
  price_sats = 21;
  output_schema = none;
}

abbrev attempt : String → TrailExecution
attempt status = record {
  executor_id = "bob";
  executor_name = "Bob";
  status = status;
  output_hash = none;
  payment_hash = none;
  signature_ok = true;
}

abbrev opening : MarketDb
opening = record { recipes = []; runs = []; wisdom = [] }

opening-IsKept : IsKept opening
opening-IsKept = record { counts = tt; one_run = λ x. omega arith; known = λ x z. refl }

abbrev history : List Call
history =
    register recipe "t1" 10
    ∷ execute (attempt "success") "t1" "e1" 20
    ∷ execute_tool (attempt "fail") "t1" "e2" 30
    ∷ rate "t1" "e1" 5
    ∷ rate "t1" "e1" 4
    ∷ []

always-IsKept_example : IsKept (run history opening)
always-IsKept_example = always-IsKept history opening opening-IsKept
