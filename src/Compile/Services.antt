-- ===== src/Compile/Services.antt =====
-- What the compiler calls outside its own code, and the values that pass between them:
-- llm/types.ts, compiler/f2/decision.ts. A character of a String stands for one unit of a
-- JavaScript string.
use Prim.Native.String.{count, ◌++◌}
use teamem_server.Prelude.{ℕ, Bool, ltb, if◌then◌else◌, Option, String, List, Result, zero, suc}
use teamem_server.Jobs.Rows.{ErrorInfo, JobEventStatus}
use teamem_server.Jobs.Lifecycle.{NextStatus}
use teamem_server.Concepts.Rows.{ConceptType, ConceptStatus, ConceptStore, CreateConceptInput}
use teamem_server.Concepts.Write.{ConceptError}
use teamem_server.Compile.Events.{EventRow}
use teamem_server.Compile.ToConcept.{Extract}

-- What a call throws: an LlmError, another Error, or a value that is no Error, as `String` prints it.
pub data Thrown : Type 0 where
  llm_error : String → String → Thrown
  error : String → Thrown
  no_error : String → Thrown

-- `F1Output`
pub data F1Output : Type 0 where
  extract : Extract → F1Output
  skip : String → F1Output

-- `F2Decision`: a target for the three that merge, and 'disputed' for 'contradicts'.
pub data F2Decision : Type 0 where
  confirms_page : String → ConceptStatus → String → String → F2Decision
  extends_page : String → ConceptStatus → String → String → F2Decision
  contradicts_page : String → String → String → F2Decision
  unrelated_page : ConceptStatus → String → String → F2Decision

-- `CandidateConceptSummary`
pub record Candidate : Type 0 where
  pub uuid : String
  pub type : ConceptType
  pub status : ConceptStatus
  pub title : String
  pub body : String
  pub path : String
  pub tags : List String
  pub evidence_summary : List String

-- The calls of the worker on the database and on the team's settings that may throw, apart from those
-- that the concept repository makes itself.
pub data Call : Type 0 where
  claim_it load_outcomes load_events : Call
  set_status : NextStatus → Call
  set_outcome : String → JobEventStatus → Call

-- The two calls of an `LlmClient`: `structured` on the F1 prompt of an event, and `decideMerge`, whose
-- answer has passed `f2Decision`.
pub record Llm : Type 0 where
  pub structured : EventRow → Result Thrown F1Output
  pub decide_merge : EventRow → CreateConceptInput → List Candidate → Result Thrown F2Decision

-- `embeddingClient.generate` on one text.
abbrev pub Embedder : Type 0
Embedder = String → Result Thrown (List (List ℕ))

-- `CompileJobDeps`, less the database.
pub record Clients : Type 0 where
  pub llm : Llm
  pub embedding_client : Option Embedder

-- `CompileHandlerDeps`, less the database.
pub record HandlerDeps : Type 0 where
  pub llm : Option Llm
  pub embedding_client : Option Embedder
  pub resolve_llm : Option (String → Result Thrown (Option Clients))

pub record Services : Type 0 where
  -- the clock during a delivery
  pub now : ℕ
  -- Zod's check of a URL
  pub is_url : String → Bool
  -- `prefilterNoise`: the reason to skip the event
  pub prefilter_noise : EventRow → Option String
  -- `recallCandidates`, on the scope, the title, the body and the embedding of the new page
  pub recall_candidates :
      ConceptStore
      → String
      → String
      → String
      → String
      → Option (List ℕ)
      → Result Thrown (List String)
  -- the uuid that the database draws for a new concept
  pub new_uuid : ConceptStore → String
  -- what the database throws at a call that it refuses
  pub outage : Call → Option Thrown
  -- the error of Zod, of the repository or of the database
  pub thrown_by : ConceptError → Thrown
  -- `replace` of the known patterns of secrets in the worker's `sanitizeError`
  pub redact : String → String

-- `s.slice(0, n)`
unfoldable pub slice : ℕ → String → String
slice zero s = String.[]
slice (suc n) String.[] = String.[]
slice (suc n) (String.◌∷◌ c s) = String.◌∷◌ c (slice n s)

-- `message.length > 500 ? message.slice(0, 497) + '...' : message`
unfoldable pub truncated : String → String
unfolding slice
truncated message = if ltb 500 (count message) then slice 497 message ++ "..." else message

-- `sanitizeLlmError` and `sanitizeUnknownError`
unfoldable pub sanitized : Thrown → ErrorInfo
unfolding truncated
sanitized (llm_error kind message) = record { code = "f1_" ++ kind; message = message }
sanitized (error message) = record { code = "compilation_failed"; message = truncated message }
sanitized (no_error value) = record {
  code = "compilation_failed";
  message = "Unknown compilation error";
}
