-- ===== src/Automation/Validate/Demands.antt =====
-- What holds of a node and its edges for which `validateScenarioGraph` reports nothing, by its type.
use manychat.Prelude.{
  ℕ, ◌≤◌, String, ◌≡◌, ◌≢◌, ◌⊎◌, refl, filter, has, inl, inr, Bool, true, false, ◌||◌, ◌&&◌, not,
  List, [], Option, none, some, arith, All, nil_of_append, length, ltb, nat_eq, is_some, Bool-cases,
  ◌==◌,
}
use manychat.Value.{
  Fields, obj, end, coalesce, member, is_string, is_non_empty_string, is_positive_integer,
}
use manychat.Automation.Reply.{preprocess}
use manychat.Automation.Graph.{
  NodeType, condition, external_http_request, delay, wait_for_reply, add_tag, remove_tag,
  set_custom_field, clear_custom_field, start_subflow, send_template, send_message, is_configured,
  Node, Edge, Graph,
}
use manychat.Automation.HttpConfig.{HttpConfig}
use manychat.Automation.Issue.{Issue, report, Schemas}
use manychat.Automation.Outgoing.{edges_of}
use manychat.Automation.NodeChecks.{
  is_undefined, is_sendable, delivery_target, send_message_delivery_targets, template_issues,
  message_issues, is_branching, node_issues, type_issues, condition_issues, http_issues,
  status_range_issues, with_output,
}
use manychat.Automation.Validate.Nodes.{
  false_of_report-nil, port_bound, Apart, Apart-of_distinct, priorities, All-some, eq_of_not-nat_eq,
}

-- The priorities of the edges are there, all different; and where some edge has a condition, at most one
-- has none.
pub record Branches (edges : List Edge) : Type 0 where
  pub there : All (λ p. p ≢ none) (priorities edges)
  pub apart : Apart (priorities edges)
  pub fallbacks :
      (length (filter is_configured edges) ≡ 0)
      ⊎ (length (filter (λ edge. not (is_configured edge)) edges) ≤ 1)

zero_or_few : (a b : ℕ) → (ltb 0 a && ltb 1 b) ≡ false → (a ≡ 0) ⊎ (b ≤ 1)
zero_or_few a b h = elim (Bool-cases (ltb 0 a)) [
  | inl some_there ↦ inr (ground arith)
  | inr none_there ↦ inl (ground arith)
]

Branches-of_nil :
    (id : String) (edges : List Edge) → condition_issues id edges ≡ [] → Branches edges
unfolding condition_issues
Branches-of_nil id edges h =
    let (ab, c) = nil_of_append _ _ h in
    let (a, b) = nil_of_append _ _ ab in
    record {
      there = All-some (priorities edges) (false_of_report-nil _ _ a);
      apart =
          Apart-of_distinct (priorities edges) (eq_of_not-nat_eq _ _ (false_of_report-nil _ _ b));
      fallbacks = zero_or_few _ _ (false_of_report-nil _ _ c);
    }

status_range_ok :
    (id : String) (o : Option HttpConfig)
    → status_range_issues id o ≡ []
    → (config : HttpConfig) × (o ≡ some config)
      × (config.success_status_minimum ≤ config.success_status_maximum)
status_range_ok id none h = cc
status_range_ok id (some config) h = (config, refl, ground arith)

both_one : (a b : ℕ) → (not (nat_eq a 1) || not (nat_eq b 1)) ≡ false → (a ≡ 1) × (b ≡ 1)
both_one a b h = ground arith

http_ok :
    (schemas : Schemas) (id : String) (fields : Fields) (edges : List Edge)
    → http_issues schemas id fields edges ≡ []
    → (config : HttpConfig) × (schemas.external_http fields ≡ some config)
      × (config.success_status_minimum ≤ config.success_status_maximum)
      × (length (with_output "success" edges) ≡ 1)
      × (length (with_output "failure" edges) ≡ 1)
unfolding http_issues
http_ok schemas id fields edges h =
    let (status, paths) = nil_of_append _ _ h in
    let (config, parsed, range) = status_range_ok id _ status in
    let (success, failure) = both_one _ _ (false_of_report-nil _ _ paths) in
    (config, parsed, range, success, failure)

-- The message has a text and a known target, and a target other than the incoming conversation comes with
-- its connection.
pub record Deliverable (config : Fields) : Type 0 where
  pub text : is_sendable (member "text" config) ≡ true
  pub target :
      has (delivery_target (member "deliveryTarget" config)) send_message_delivery_targets ≡ true
  pub telegram :
      ((delivery_target (member "deliveryTarget" config) == "TELEGRAM") ≡ false)
      ⊎ (is_non_empty_string (member "telegramConnectionId" config) ≡ true)
  pub whatsapp :
      ((delivery_target (member "deliveryTarget" config) == "WHATSAPP") ≡ false)
      ⊎ (is_non_empty_string (member "whatsappConnectionId" config) ≡ true)

implied : (a b : Bool) → (a && not b) ≡ false → (a ≡ false) ⊎ (b ≡ true)
implied true true h = inr refl
implied true false h = cc
implied false b h = inl refl

both_true : (a b : Bool) → (a && b) ≡ true → (a ≡ true) × (b ≡ true)
both_true a b h = ground arith

neither : (a b : Bool) → (not a || not b) ≡ false → (a ≡ true) × (b ≡ true)
neither a b h = ground arith

pinned_alone : (a b : Bool) → a ≡ true → (a && not b) ≡ false → b ≡ true
pinned_alone a b h k = ground arith

needs_template : (a b : Bool) → a ≡ false → (not a && not b) ≡ false → b ≡ true
needs_template a b h k = ground arith

-- What the configuration and the edges of a node must have, by its type.
abbrev pub Meets : Schemas → NodeType → Fields → List Edge → Type 0
Meets schemas condition config edges = Branches edges
Meets schemas delay config edges = is_positive_integer (member "delaySeconds" config) ≡ true
Meets schemas wait_for_reply config edges =
    (is_positive_integer (member "timeoutSeconds" config) ≡ true)
    × (is_some
          (schemas.criteria_contract (preprocess (coalesce (member "criteria" config) (obj end))))
        ≡ true)
Meets schemas add_tag config edges = is_non_empty_string (member "tagId" config) ≡ true
Meets schemas remove_tag config edges = is_non_empty_string (member "tagId" config) ≡ true
Meets schemas set_custom_field config edges = is_non_empty_string (member "key" config) ≡ true
Meets schemas clear_custom_field config edges = is_non_empty_string (member "key" config) ≡ true
Meets schemas start_subflow config edges =
    (is_string (member "scenarioId" config) ≡ true)
    × (is_string (member "scenarioVersionId" config) ≡ true)
Meets schemas send_template config edges =
    ((is_string (member "templateId" config) ≡ true)
      × (is_string (member "templateVersionId" config) ≡ true)
      × (is_undefined (member "whatsAppTemplate" config) ≡ true))
    ⊎ (schemas.whatsapp_template (member "whatsAppTemplate" config) ≡ true)
Meets schemas send_message config edges = Deliverable config
Meets schemas external_http_request config edges =
    (request : HttpConfig) × (schemas.external_http config ≡ some request)
    × (request.success_status_minimum ≤ request.success_status_maximum)
    × (length (with_output "success" edges) ≡ 1)
    × (length (with_output "failure" edges) ≡ 1)
Meets schemas _ config edges = Unit {0}

true_of_report-nil : (test : Bool) (issue : Issue) → report (not test) issue ≡ [] → test ≡ true
true_of_report-nil true issue h = refl
true_of_report-nil false issue h = cc

module _ (schemas : Schemas) (id : String) where
  template_ok :
      (config : Fields) (edges : List Edge)
      → template_issues schemas id config ≡ []
      → Meets schemas send_template config edges
  unfolding template_issues
  template_ok config edges h =
      let (a, b) = nil_of_append _ _ h in
      let unpinned = false_of_report-nil _ _ a in
      let mixed = false_of_report-nil _ _ b in
      elim (Bool-cases
        (is_string (member "templateId" config) && is_string (member "templateVersionId" config))) [
          | inl telegram ↦ inl (
            (both_true _ _ telegram).0,
            (both_true _ _ telegram).1,
            pinned_alone _ _ telegram mixed,
          )
          | inr other ↦ inr (needs_template _ _ other unpinned)
        ]

  message_ok : (config : Fields) → message_issues id config ≡ [] → Deliverable config
  unfolding message_issues
  message_ok config h =
      let (abc, d) = nil_of_append _ _ h in
      let (ab, c) = nil_of_append _ _ abc in
      let (a, b) = nil_of_append _ _ ab in
      record {
        text = true_of_report-nil _ _ a;
        target = true_of_report-nil _ _ b;
        telegram = implied _ _ (false_of_report-nil _ _ c);
        whatsapp = implied _ _ (false_of_report-nil _ _ d);
      }

  meets :
      (type : NodeType) (config : Fields) (edges : List Edge)
      → type_issues schemas type id config edges ≡ []
      → Meets schemas type config edges
  unfolding type_issues
  meets condition config edges h = Branches-of_nil id edges h
  meets delay config edges h = true_of_report-nil _ _ h
  meets wait_for_reply config edges h =
      let (a, b) = nil_of_append _ _ h in (true_of_report-nil _ _ a, true_of_report-nil _ _ b)
  meets add_tag config edges h = true_of_report-nil _ _ h
  meets remove_tag config edges h = true_of_report-nil _ _ h
  meets set_custom_field config edges h = true_of_report-nil _ _ h
  meets clear_custom_field config edges h = true_of_report-nil _ _ h
  meets start_subflow config edges h = neither _ _ (false_of_report-nil _ _ h)
  meets send_template config edges h = template_ok config edges h
  meets send_message config edges h = message_ok config h
  meets external_http_request config edges h = http_ok schemas id config edges h
  meets _ config edges h = tt

-- What the validation requires of a node: it meets the demands of its type, and only a branching node
-- has two edges with one output.
pub record NodeOk (schemas : Schemas) (graph : Graph) (node : Node) : Type 0 where
  pub single :
      (is_branching node.type ≡ true)
      ⊎ ((output : String) → length (with_output output (edges_of graph node.id)) ≤ 1)
  pub demands : Meets schemas node.type node.config (edges_of graph node.id)

pub node_issues-NodeOk :
    (schemas : Schemas) (graph : Graph) (node : Node)
    → node_issues schemas graph node ≡ []
    → NodeOk schemas graph node
unfolding node_issues
node_issues-NodeOk schemas graph node h =
    let (port, type) = nil_of_append _ _ h in
    record {
      single = elim (Bool-cases (is_branching node.type)) [
        | inl branching ↦ inl branching
        | inr plain ↦ inr (port_bound node (edges_of graph node.id) port plain)
      ];
      demands = meets schemas node.id node.type node.config (edges_of graph node.id) type;
    }
