-- ===== src/Runtime/Samples.antt =====
-- A small project with its rows, for the runs of the runtime.
use manychat.Prelude.{String, true, false, [], ◌∷◌, none, some}
use manychat.Value.{str, obj, end, field}
use manychat.HttpOutbox.Row.{ExecutionStatus}
use manychat.Automation.Graph.{NodeType, Graph}
use manychat.Automation.Samples.{node_at, edge_to, accept_all, minute}
use manychat.Runtime.Rows.{
  by_event, ScenarioExecution, DelayedAction, DelayedActionStatus, WaitState, WaitStateStatus,
  Contact, Rows, Completion, returns,
}
use manychat.Runtime.Project.{Project}

abbrev pub the_key : String → String → String
the_key execution node = node

abbrev pub project : Graph → Project
project graph = record {
  schemas = accept_all;
  published_scenarios = ("s", "v") ∷ [];
  is_published = λ scenario version. true;
  definition = λ version. some (some graph);
  event_payload = λ event. some (obj end);
  automation_mode_override = none;
  field_definition = λ key. none;
  has_tag = λ tag. false;
  message_refusal = λ node context. none;
  parses_as_date = λ s. false;
  new_execution_id = λ scenario key. "e";
  new_row_id = the_key;
}

abbrev pub nobody : Contact
nobody = record {
  automation_enabled = true;
  custom_fields = obj end;
  variables = end;
  tags = [];
  field_values = [];
}

abbrev pub empty_rows : Rows
empty_rows = record {
  executions = [];
  delayed_actions = [];
  wait_states = [];
  http_operations = [];
  crm_operations = [];
  messages = [];
  node_runs = [];
  contact = nobody;
  next_automation_sequence = 0;
}

abbrev pub started_execution : ScenarioExecution
started_execution = record {
  id = "e";
  scenario_id = "s";
  scenario_version_id = "v";
  trigger_event_id = "ev";
  trigger_key = by_event "ev";
  parent_execution_id = none;
  resume_node_id = none;
  status = ExecutionStatus.waiting;
  current_node_id = some "d";
  variables = obj end;
  completed_at = none;
}

abbrev pub waiting_action : DelayedAction
waiting_action = record {
  id = "d";
  scenario_execution_id = "e";
  node_id = "d";
  resume_node_id = none;
  status = DelayedActionStatus.pending;
  attempts = 0;
  next_attempt_at = 60005;
  completed_at = none;
}

abbrev pub waiting_rows : Rows
waiting_rows = record empty_rows {
  executions = started_execution ∷ [];
  delayed_actions = waiting_action ∷ [];
}

-- The rows that the delay leaves: its action has been used.
abbrev pub used_rows : Rows
used_rows = record empty_rows {
  executions = record started_execution { status = ExecutionStatus.running } ∷ [];
  delayed_actions =
      record waiting_action { attempts = 1; status = DelayedActionStatus.completed } ∷ [];
}

-- After the delay a tag is added that has been archived.
abbrev pub tagging : Graph
tagging = record {
  edges = edge_to "t" "default" "d" ∷ edge_to "d" "default" "a" ∷ [];
  nodes =
      node_at NodeType.incoming_message "t" end
      ∷ node_at NodeType.delay "d" minute
      ∷ node_at NodeType.add_tag "a" (field "tagId" (str "vip") end)
      ∷ [];
}

abbrev pub tag_action : DelayedAction
tag_action = record waiting_action { resume_node_id = some "a" }

abbrev pub timed_wait : WaitState
timed_wait = record {
  id = "w";
  scenario_execution_id = "e";
  node_id = "w";
  criteria = obj end;
  success_node_id = none;
  timeout_node_id = none;
  status = WaitStateStatus.timed_out;
  expires_at = 5;
  resolved_at = some 6;
  resolved_by_event_id = none;
}

abbrev pub quiet_rows : Rows
quiet_rows = record used_rows { wait_states = timed_wait ∷ [] }

abbrev pub rows_of : Completion (Unit {0}) → Rows
rows_of (returns u rows) = rows
rows_of _ = empty_rows
