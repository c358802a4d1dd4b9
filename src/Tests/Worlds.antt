-- ===== src/Tests/Worlds.antt =====
-- States, changes and worlds of a review, for the examples.
use hungrx_agent.Prelude.{true, false, none, some, [], ◌∷◌, ◌++◌, if◌then◌else◌}
use hungrx_agent.Text.{Text, text, starts_with}
use hungrx_agent.Crawler.Guard.{IpAddress, Network}
use hungrx_agent.Sources.Urls.{Urls}
use hungrx_agent.Text.Ascii.{ascii}
use hungrx_agent.Validation.SchemaCheck.{SchemaResult, accepted}
use hungrx_agent.Review.Rows.{
  restaurant, pending, approved, ProposedChange, Database, raised, key_error,
}
use hungrx_agent.Review.State.{CollectorState}
use hungrx_agent.Review.Nodes.{Pydantic}
use hungrx_agent.Review.Nodes.HumanReview.{Decision, reject}
use hungrx_agent.Review.Graph.{World, paused_at}
use hungrx_agent.Review.Service.{Workflow}
use hungrx_agent.Review.Collector.{collector_graph}
use hungrx_agent.Tests.Samples.{diner}

abbrev pub py : Pydantic SchemaResult
py = record { model_validate = λ j. j; model_dump = accepted }

abbrev pub empty : Database SchemaResult
empty = record {
  proposed_changes = [];
  approvals = [];
  audit_log = [];
  agent_runs = [];
  restaurants = [];
  sources = [];
  snapshots = [];
  next_id = 20;
}

-- The run 9 has come to the review.
abbrev pub state : CollectorState SchemaResult
state = record {
  agent_run_id = some 9;
  restaurant = some diner;
  source = none;
  source_url = none;
  nutrition_url = none;
  source_snapshots = none;
  extraction_result = none;
  structured_json = some (accepted diner);
  validation_result = none;
  proposed_change_id = none;
  human_approval_status = none;
  published_restaurant_id = none;
  errors = [];
}

abbrev pub approved_state : CollectorState SchemaResult
approved_state = record state {
  proposed_change_id = some 20;
  human_approval_status = some approved;
}

abbrev pub change : ProposedChange SchemaResult
change = record {
  id = 20;
  entity_type = restaurant;
  entity_id = 1;
  structured_json = accepted diner;
  validation_result = none;
  status = pending;
  agent_run_id = some 9;
  source_id = none;
  thread_id = some 9;
}

-- The run 9 has paused.
abbrev pub waiting : World SchemaResult
waiting = record {
  database = record empty { proposed_changes = change ∷ []; next_id = 21 };
  checkpoints = (9, paused_at state) ∷ [];
  reviews = [];
  unknown_thread = raised key_error;
  unknown_review = raised key_error;
}

abbrev pub rejection : Decision SchemaResult
rejection = record { action = reject; edited_structured_json = none }

abbrev pub graph : Workflow SchemaResult
graph = collector_graph ascii py

abbrev public_address : IpAddress
public_address = record {
  is_private = false;
  is_loopback = false;
  is_link_local = false;
  is_multicast = false;
  is_reserved = false;
  is_unspecified = false;
}

abbrev local_address : IpAddress
local_address = record public_address { is_private = true }

abbrev pub net : Network
net = record {
  ip_address = λ s.
      if starts_with s (text "10.")
      then some local_address
      else if starts_with s (text "8.")
      then some public_address
      else none;
  resolve = λ host. some (text "8.8.8.8" ∷ []);
}

-- URLs without ports, parameters and queries: `https://` and a host
abbrev drop_scheme : Text → Text
drop_scheme (a ∷ b ∷ c ∷ d ∷ e ∷ f ∷ g ∷ h ∷ host) = host
drop_scheme s = s

abbrev pub urls : Urls
urls = record {
  hostname = λ url. some (drop_scheme url);
  port = λ url. some none;
  parse = λ url. some (record {
    scheme = text "https";
    netloc = drop_scheme url;
    path = [];
    params = [];
    query = [];
  });
  parse_qsl = λ query. [];
  urlencode = λ pairs. [];
  unparse = λ parts. parts.scheme ++ (text "://" ++ parts.netloc);
  show_number = λ n. [];
}
