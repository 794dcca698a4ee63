-- ===== src/Concepts/Rows.antt =====
-- The rows of `concepts`, `concept_paths`, `concept_evidence` and `concept_contributors` (db/schema.ts)
-- and the inputs of the concept repository. A component of an embedding is a float's bit pattern.
use teamem_server.Prelude.{ℕ, Bool, true, false, Option, String, List, ◌&&◌, str_eq}

pub data ConceptType : Type 0 where
  service concept decision gotcha convention runbook : ConceptType

pub data ConceptStatus : Type 0 where
  active superseded disputed needs_review : ConceptStatus

pub data Confidence : Type 0 where
  high medium low : Confidence

pub data EvidenceKind : Type 0 where
  commit pr issue pr_comment repo_file mcp_write manual : EvidenceKind

pub data Provenance : Type 0 where
  webhook_verified credential_bound client_claimed unknown : Provenance

pub record ConceptRow : Type 0 where
  pub uuid : String
  pub team_id : String
  pub project_id : String
  pub schema_version : ℕ
  pub type : ConceptType
  pub status : ConceptStatus
  pub confidence : Confidence
  pub title : String
  pub body : String
  pub tags : List String
  pub first_seen : ℕ
  pub last_confirmed : ℕ
  pub supersedes_uuid : Option String
  pub embedding : Option (List ℕ)
  pub updated_at : ℕ

pub record PathRow : Type 0 where
  pub team_id : String
  pub project_id : String
  pub concept_uuid : String
  pub path : String
  pub is_current : Bool

pub record EvidenceRow : Type 0 where
  pub team_id : String
  pub project_id : String
  pub concept_uuid : String
  pub kind : EvidenceKind
  pub ref : Option String
  pub repo : Option String
  pub commit_sha : Option String
  pub path : Option String
  pub at : ℕ

pub record ContributorRow : Type 0 where
  pub team_id : String
  pub project_id : String
  pub concept_uuid : String
  pub principal_id : String

pub record ConceptStore : Type 0 where
  pub concepts : List ConceptRow
  pub paths : List PathRow
  pub evidence : List EvidenceRow
  pub contributors : List ContributorRow

pub record EvidenceInput : Type 0 where
  pub kind : EvidenceKind
  pub ref : Option String
  pub repo : Option String
  pub commit_sha : Option String
  pub path : Option String
  pub at : ℕ

pub record ContributorInput : Type 0 where
  pub principal_id : String
  pub provenance : Provenance

pub record CreateConceptInput : Type 0 where
  pub team_id : String
  pub project_id : String
  pub schema_version : ℕ
  pub type : ConceptType
  pub status : ConceptStatus
  pub confidence : Confidence
  pub title : String
  pub body : String
  pub tags : List String
  pub first_seen : ℕ
  pub last_confirmed : ℕ
  pub supersedes_uuid : Option String
  pub path : String
  pub evidence : List EvidenceInput
  pub contributors : List ContributorInput
  pub embedding : Option (List ℕ)

-- `TRUSTED_PROVENANCE`
abbrev pub is_trusted : Provenance → Bool
is_trusted webhook_verified = true
is_trusted credential_bound = true
is_trusted client_claimed = false
is_trusted unknown = false

abbrev pub concept_in_scope : String → String → String → ConceptRow → Bool
concept_in_scope team proj uuid c =
    str_eq c.team_id team && (str_eq c.project_id proj && str_eq c.uuid uuid)
