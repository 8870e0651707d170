-- ===== src/Market.antt =====
-- argentum.py: the market of trails, recipes that others execute and rate: `register_trail`,
-- `record_trail_execution` and `rate_trail_execution`, and the tool `execute_trail`. The clock, the
-- identifiers of `uuid4` and the verdict of `_verify_agent_signature` are arguments. A price or
-- rating below 0 is refused as 0 is, and is not modelled.
pub mod Counts
pub mod Kept
pub mod Rated
mod Tests
use argentum_core.Base.{
  ℕ, ◌+◌, ◌*◌, Bool, true, false, List, [], ◌∷◌, ◌++◌, Option, none, some, String, ltb, leb, str_eq,
  if◌then◌else◌, ◌&&◌, ◌||◌, not, length,
}
use argentum_core.Sql.{find_where, count_where, update_where}
use argentum_core.Karma.Store.{Wisdom}
use argentum_core.Karma.Wisdom.{Award, upsert_wisdom}

-- What `register_trail` asks of a step, and its JSON text.
pub record Step : Type 0 where
  pub is_dict : Bool
  pub has_service : Bool
  pub has_tool : Bool
  pub json : String

-- A row of `trails` in argentum.db.
pub record Recipe : Type 0 where
  pub id : String
  pub author_id : String
  pub author_name : String
  pub name : String
  pub description : String
  pub steps : List Step
  pub price_sats : ℕ
  pub output_schema : Option String
  pub created_at : ℕ
  pub executions : ℕ
  pub success_count : ℕ
  pub rating_sum : ℕ
  pub rating_count : ℕ

-- A row of `trail_executions`; `succeeded` where its status is 'success'.
pub record Execution : Type 0 where
  pub id : String
  pub trail_id : String
  pub executor_id : String
  pub executor_name : String
  pub succeeded : Bool
  pub output_hash : Option String
  pub payment_hash : Option String
  pub rating : Option ℕ
  pub created_at : ℕ

pub record MarketDb : Type 0 where
  pub recipes : List Recipe
  pub runs : List Execution
  pub wisdom : List Wisdom

pub data Reply : Type 0 where
  bad_steps bad_price bad_step bad_status bad_rating not_found execution_not_found already_rated
        own_trail id_taken :
      Reply
  registered : Reply
  -- the karma awarded to the author
  executed : ℕ → Reply
  rated : Reply

abbrev pub max_trail_steps : ℕ
max_trail_steps = 12

abbrev pub min_trail_price : ℕ
min_trail_price = 1

abbrev pub trail_author_karma_reward : ℕ
trail_author_karma_reward = 3

pub record TrailRegister : Type 0 where
  pub author_id : String
  pub author_name : String
  pub name : String
  pub description : String
  pub steps : List Step
  pub price_sats : ℕ
  -- the JSON text of a schema that is not empty
  pub output_schema : Option String

abbrev pub recipe_is : String → Recipe → Bool
recipe_is id t = str_eq t.id id

abbrev pub run_is : String → Execution → Bool
run_is id e = str_eq e.id id

pub all_steps : List Step → Bool
all_steps [] = true
all_steps (s ∷ ss) = (s.is_dict && (s.has_service && s.has_tool)) && all_steps ss

pub new_recipe : TrailRegister → String → ℕ → Recipe
new_recipe q id now = record {
  id = id;
  author_id = q.author_id;
  author_name = q.author_name;
  name = q.name;
  description = q.description;
  steps = q.steps;
  price_sats = q.price_sats;
  output_schema = q.output_schema;
  created_at = now;
  executions = 0;
  success_count = 0;
  rating_sum = 0;
  rating_count = 0;
}

pub register_trail : TrailRegister → String → ℕ → MarketDb → Reply × MarketDb
register_trail q id now db =
    if not (ltb 0 (length q.steps)) || ltb max_trail_steps (length q.steps)
    then (bad_steps, db)
    else if ltb q.price_sats min_trail_price
    then (bad_price, db)
    else if not (all_steps q.steps)
    then (bad_step, db)
    else if ltb 0 (count_where (recipe_is id) db.recipes)
    then (id_taken, db)
    else (registered, record db { recipes = db.recipes ++ new_recipe q id now ∷ [] })

pub record TrailExecution : Type 0 where
  pub executor_id : String
  pub executor_name : String
  pub status : String
  pub output_hash : Option String
  pub payment_hash : Option String
  -- the verdict of `_verify_agent_signature`
  pub signature_ok : Bool

pub new_run : TrailExecution → String → String → ℕ → Execution
new_run q trail_id id now = record {
  id = id;
  trail_id = trail_id;
  executor_id = q.executor_id;
  executor_name = q.executor_name;
  succeeded = str_eq q.status "success";
  output_hash = q.output_hash;
  payment_hash = q.payment_hash;
  rating = none;
  created_at = now;
}

-- The two updates of the counts of a trail.
pub counted : Bool → Recipe → Recipe
counted succeeded t = record t {
  executions = t.executions + 1;
  success_count = t.success_count + (if succeeded then 1 else 0);
}

-- The award to the author, in tenths.
pub author_award : Recipe → ℕ → Award
author_award t now = record {
  entity_id = t.author_id;
  entity_name = t.author_name;
  entity_type = "unknown";
  karma_delta = trail_author_karma_reward * 10;
  action = false;
  attestation = false;
  last_action = some now;
}

-- What an execution of a trail that is there writes; `rewarded` where its author is paid.
pub execution_recorded : Bool → TrailExecution → Recipe → String → ℕ → MarketDb → MarketDb
execution_recorded rewarded q t id now db = record {
  recipes = update_where (recipe_is t.id) (counted (str_eq q.status "success")) db.recipes;
  runs = db.runs ++ new_run q t.id id now ∷ [];
  wisdom = if rewarded then upsert_wisdom (author_award t now) db.wisdom else db.wisdom;
}

pub execute_found : Bool → TrailExecution → Recipe → String → ℕ → MarketDb → Reply × MarketDb
execute_found rewarded q t id now db =
    if ltb 0 (count_where (run_is id) db.runs) then (id_taken, db) else (
      executed (if rewarded then trail_author_karma_reward else 0),
      execution_recorded rewarded q t id now db,
    )

pub execute_as : Bool → TrailExecution → String → String → ℕ → MarketDb → Reply × MarketDb
execute_as rewarded q trail_id id now db =
    if not (str_eq q.status "success" || str_eq q.status "fail")
    then (bad_status, db)
    else elim (find_where (recipe_is trail_id) db.recipes) [
      | none ↦ (not_found, db)
      | some t ↦ execute_found rewarded q t id now db
    ]

-- The endpoint pays the author of a trail for a success that is signed.
pub record_trail_execution : TrailExecution → String → String → ℕ → MarketDb → Reply × MarketDb
unfolding execute_as
record_trail_execution q trail_id id now db =
    execute_as (str_eq q.status "success" && q.signature_ok) q trail_id id now db

-- The tool pays for every success; an empty hash is none, as `q` has it.
pub execute_trail : TrailExecution → String → String → ℕ → MarketDb → Reply × MarketDb
unfolding execute_as
execute_trail q trail_id id now db = execute_as (str_eq q.status "success") q trail_id id now db

abbrev pub run_of : String → String → Execution → Bool
run_of id trail_id e = str_eq e.id id && str_eq e.trail_id trail_id

abbrev pub is_rated : Option ℕ → Bool
is_rated none = false
is_rated (some r) = true

pub with_rating : ℕ → Execution → Execution
with_rating r e = record e { rating = some r }

pub rated_once : ℕ → Recipe → Recipe
rated_once r t = record t { rating_sum = t.rating_sum + r; rating_count = t.rating_count + 1 }

-- Whether the trail, where there is one, is the executor's own.
pub is_author : Option Recipe → String → Bool
is_author none id = false
is_author (some t) id = str_eq t.author_id id

pub rate_found : String → String → ℕ → MarketDb → Execution → Reply × MarketDb
rate_found trail_id id r db e =
    if is_rated e.rating
    then (already_rated, db)
    else if is_author (find_where (recipe_is trail_id) db.recipes) e.executor_id
    then (own_trail, db)
    else (
      rated,
      record db {
        runs = update_where (run_is id) (with_rating r) db.runs;
        recipes = update_where (recipe_is trail_id) (rated_once r) db.recipes;
      },
    )

pub rate_trail_execution : String → String → ℕ → MarketDb → Reply × MarketDb
rate_trail_execution trail_id id r db =
    if not (leb 1 r && leb r 5)
    then (bad_rating, db)
    else elim (find_where (run_of id trail_id) db.runs) [
      | none ↦ (execution_not_found, db)
      | some e ↦ rate_found trail_id id r db e
    ]
