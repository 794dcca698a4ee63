-- ===== src/Compile/Events.antt =====
-- The rows of `events` that the compiler reads (db/schema.ts) and `getEventsByIds` of
-- db/repositories/events.ts.
use teamem_server.Prelude.{
  ℕ, Bool, ◌&&◌, if◌then◌else◌, Option, none, some, String, List, [], ◌∷◌, str_eq, first,
}
use teamem_server.Table.{filter}
use teamem_server.Concepts.Rows.{Provenance}

pub data SourceKind : Type 0 where
  github_commit github_pr github_issue github_pr_comment cli_init mcp_write : SourceKind
  external_event : SourceKind

-- A member of the payload, as far as `typeof … === 'string'` tells.
pub data JsonField : Type 0 where
  text : String → JsonField
  no_text : JsonField

pub record Member : Type 0 where
  pub key : String
  pub value : JsonField

pub record EventRow : Type 0 where
  pub id : String
  pub team_id : String
  pub project_id : String
  pub channel : String
  pub kind : SourceKind
  pub external_id : String
  pub url : Option String
  pub occurred_at : ℕ
  pub actor_provenance : Provenance
  pub actor_principal_id : Option String
  pub ingested_by_principal_id : Option String
  pub payload : List Member

-- `typeof payload[key] === 'string' ? payload[key] : undefined`
unfoldable pub text_at : String → List Member → Option String
text_at key [] = none
text_at key (m ∷ ms) =
    let later = text_at key ms in
    if str_eq m.key key then (elim m.value [ text s ↦ some s | no_text ↦ none ]) else later

abbrev pub event_in_scope : String → String → String → EventRow → Bool
event_in_scope team proj id e =
    str_eq e.team_id team && (str_eq e.project_id proj && str_eq e.id id)

-- `getEventsByIds`: in the order of the ids; an id that is not in scope is left out.
unfoldable pub get_events_by_ids : List EventRow → String → String → List String → List EventRow
unfolding filter
get_events_by_ids events team proj [] = []
get_events_by_ids events team proj (id ∷ ids) =
    let rest = get_events_by_ids events team proj ids in
    elim (first (filter (event_in_scope team proj id) events)) [ none ↦ rest | some e ↦ e ∷ rest ]
