-- ===== src/Worker/Tests.antt =====
-- Runs of the worker's cycle, and the theorems at concrete stores.
use threatforge.Common.{
  ℕ, ◌+◌, String, ◌≡◌, ◌≢◌, refl, false, Option, none, some, List, [], ◌∷◌, ok, err, arith, length,
  find?, get_row, select, update, any, order_by,
}
use threatforge.Models.{Json, Dict, lookup}
use threatforge.Models.Samples.{sample_event, sample_connection, sample_source}
use threatforge.Connections.{
  connection_id, get_connection, list_sources, set_connection_health, flush_connection,
  merged_health,
}
use threatforge.Ingest.{Runtime, unexpected}
use threatforge.Worker.{
  Env, Turn, Store, BatchHealth, CollectionProvider, WorkerOutcome, completed, active_by_ref,
  connection_of, take_all, step, run_connection_once, close_cycle,
}
use threatforge.Verify.{parse_verify_nonce, search_from}
use threatforge.Worker.Halted.{cycle_halts}
use threatforge.Worker.{due_connections, ingest_raised, run_all_once}
use threatforge.Ingest.{
  provider_raised, ingest_update, resolve_active_pair, is_live, find_existing, ingest_normal,
  validated, extract_cursor, extract_text,
}
use threatforge.Worker.Isolation.{cycle_isolated}
use threatforge.Worker.Counts.{Accounted, total, cycle_accounts}

-- A text stands for its own hash.
abbrev runtime : Runtime
runtime = record {
  sha256 = λ t. t;
  canonical_json = λ _. "{}";
  repr = λ _. "";
  from_timestamp = λ _. none;
  from_iso = λ _. none;
  wide = λ _. false;
}

-- One update of the source that the sample connection has, and one of a source that nobody has.
abbrev known : Dict Json
known = ("update_id", Json.str "11") ∷ []

abbrev stray : Dict Json
stray = ("update_id", Json.str "12") ∷ ("chat", Json.str "other") ∷ []

abbrev ref_of : Option Json → Option String
ref_of none = some "chan"
ref_of (some _) = some "other"

abbrev delivers : List (Dict Json) → CollectionProvider
delivers raws = record {
  poll = λ _ _ _. ok (record { updates = raws; health = BatchHealth.no_health });
  source_ref = λ raw. ok (ref_of (lookup "chat" raw));
  normalize = λ _. err (unexpected "AttributeError");
}

abbrev turn : ℕ → Turn
turn i = record { now = 600; new_id = 20 + i; weather = record { arrived = []; broken = false } }

abbrev world_of : CollectionProvider → Env
world_of p = record {
  run = runtime;
  providers = λ _. some p;
  turns = turn;
  now = 600;
  iso_now = "now";
  iso = λ _. "then";
  int_of_text = λ _. 0;
}

abbrev start : Store
start = record {
  db = record {
    connections =
        sample_connection
        ∷ record sample_connection { id = 3; provider_account_ref = some "bot:2" }
        ∷ [];
    events = sample_event ∷ [];
    requests = [];
  };
  sources = sample_source ∷ [];
}

abbrev other : ℕ
other = 3

apart : other ≢ 2
apart = omega arith

cycle_isolated_example :
    get_row connection_id other
      (run_connection_once (world_of (delivers (stray ∷ []))) 1 2 start).1.db.connections
    ≡ get_row connection_id other start.db.connections
cycle_isolated_example = cycle_isolated (world_of (delivers (stray ∷ []))) 1 2 other apart start

abbrev two_strays : List (Dict Json)
two_strays = stray ∷ stray ∷ []

abbrev counted_both : WorkerOutcome
counted_both = record {
  connection_id = 2;
  status = completed;
  tally = record { processed = 0; deduplicated = 0; rejected = 0; ignored = 2 };
  cursor = some "12";
  error_code = "";
}

found : connection_of (world_of (delivers [])) 1 2 start ≡ some sample_connection
unfolding get_connection find?
found = refl

held : lookup "bot_token" sample_connection.secret_refs ≡ some "secretref://env/T"
unfolding lookup
held = refl

both_counted : (run_connection_once (world_of (delivers two_strays)) 1 2 start).0 ≡ ok counted_both
unfolding run_connection_once get_connection find? lookup list_sources take_all step active_by_ref
    close_cycle set_connection_health flush_connection order_by select update any merged_health
both_counted = refl

cycle_accounts_example :
    Accounted (length two_strays) counted_both.status (total counted_both.tally)
cycle_accounts_example =
    cycle_accounts (world_of (delivers two_strays)) 1 2 start sample_connection
      (delivers two_strays) "secretref://env/T"
      (record { updates = two_strays; health = BatchHealth.no_health }) counted_both found refl refl
      held refl refl both_counted

-- The normalizer of the first connection's provider raises on the update.
abbrev poison : Env
poison = world_of (delivers (known ∷ []))

due : due_connections start.db.connections ≡ start.db.connections
unfolding due_connections select order_by
due = refl

raised_run :
    run_connection_once poison 1 2 start
    ≡ (err (ingest_raised (provider_raised "AttributeError")), start)
unfolding run_connection_once get_connection find? lookup list_sources take_all step active_by_ref
    ingest_update resolve_active_pair is_live find_existing parse_verify_nonce search_from
    extract_cursor extract_text validated order_by select ingest_normal close_cycle
raised_run = refl

cycle_halts_example :
    (run_all_once (λ _. poison) start
      ≡ (err (ingest_raised (provider_raised "AttributeError")), start))
    × (get_row connection_id other start.db.connections
        ≡ get_row connection_id other start.db.connections)
cycle_halts_example =
    cycle_halts (λ _. poison) start start start []
      (record sample_connection { id = 3; provider_account_ref = some "bot:2" } ∷ [])
      sample_connection (ingest_raised (provider_raised "AttributeError")) other due refl raised_run
      tt apart
