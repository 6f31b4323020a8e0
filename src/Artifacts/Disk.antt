-- ===== src/Artifacts/Disk.antt =====
-- The disk of the raw artifact publisher of requests/raw_artifacts.py: bundle directories and their
-- files, and `_verify_staged_bundle`. The checks of owners and modes are calls that may fail.
use text.Mathlib.Text.{◌==◌ as str_eq}
use system_trade_with_llm_or.Prelude.{
  ℕ, Bool, true, false, List, ◌&&◌, ◌==◌, if◌then◌else◌, String, length,
}
use system_trade_with_llm_or.Schema.{Identifier, RawIntent}

abbrev pub Bytes : Type 0
Bytes = List ℕ

-- A file: absent, cut short or not readable as what it should hold, or written.
pub data File (A : Type 0) : Type 0 where
  missing garbage : File A
  holds : A → File A

-- `request_metadata`
pub record RequestMetadata : Type 0 where
  pub logical_request_id : Identifier
  pub operation : Identifier
  pub physical_attempt_id : Identifier
  pub publication_generation : ℕ
  pub publication_id : Identifier
  pub source_id : Identifier
  pub task_id : Identifier

-- `response_metadata`
pub record ResponseMetadata : Type 0 where
  pub byte_count : ℕ
  pub encoding : String
  pub media_type : String
  pub raw_schema_id : Identifier
  pub raw_schema_version : ℕ

pub record Receipt : Type 0 where
  pub body_sha256 : Identifier
  pub byte_count : ℕ

-- A bundle directory. A JSON file is the value that `_json_bytes` has written.
pub record Bundle : Type 0 where
  pub body : File Bytes
  pub request : File RequestMetadata
  pub response : File ResponseMetadata
  pub receipt : File Receipt

abbrev pub empty : Bundle
empty = record { body = missing; request = missing; response = missing; receipt = missing }

-- What a path names; of a link, whether its target exists.
pub data Node : Type 0 where
  absent : Node
  directory : Bundle → Node
  link : Bool → Node
  other : Node

-- A task's `.staging/acquisitions/<attempt>`, and a path below a task's directory.
pub data Place : Type 0 where
  staging : Identifier → Identifier → Place
  below : Identifier → String → Place

abbrev pub same_place : Place → Place → Bool
same_place (staging a b) (staging c d) = (a == c) && (b == d)
same_place (below a p) (below b q) = (a == b) && str_eq p q
same_place _ _ = false

abbrev pub Disk : Type 0
Disk = Place → Node

abbrev pub put : Place → Node → Disk → Disk
put place node disk q = if same_place place q then node else disk q

-- path.exists(), which follows links
abbrev pub exists : Node → Bool
exists absent = false
exists (link target) = target
exists _ = true

-- path.exists() or path.is_symlink()
abbrev pub is_taken : Node → Bool
is_taken absent = false
is_taken _ = true

-- path.is_dir() and not path.is_symlink()
abbrev pub is_directory : Node → Bool
is_directory (directory b) = true
is_directory _ = false

abbrev pub bundle_of : Node → Bundle
bundle_of (directory b) = b
bundle_of _ = empty

abbrev pub request_metadata : RawIntent → RequestMetadata
request_metadata i = record {
  logical_request_id = i.logical_request_id;
  operation = i.operation;
  physical_attempt_id = i.physical_attempt_id;
  publication_generation = i.publication_generation;
  publication_id = i.publication_id;
  source_id = i.source_id;
  task_id = i.task_id;
}

abbrev pub response_metadata : RawIntent → ResponseMetadata
response_metadata i = record {
  byte_count = i.byte_count;
  encoding = i.encoding;
  media_type = i.media_type;
  raw_schema_id = i.raw_schema_id;
  raw_schema_version = i.raw_schema_version;
}

abbrev pub receipt_of : RawIntent → Receipt
receipt_of i = record { body_sha256 = i.content_sha256; byte_count = i.byte_count }

abbrev pub same_request : RequestMetadata → RequestMetadata → Bool
same_request a b =
    (a.logical_request_id == b.logical_request_id)
    && (a.operation == b.operation)
    && (a.physical_attempt_id == b.physical_attempt_id)
    && (a.publication_generation == b.publication_generation)
    && (a.publication_id == b.publication_id)
    && (a.source_id == b.source_id)
    && (a.task_id == b.task_id)

abbrev pub same_response : ResponseMetadata → ResponseMetadata → Bool
same_response a b =
    (a.byte_count == b.byte_count)
    && str_eq a.encoding b.encoding
    && str_eq a.media_type b.media_type
    && (a.raw_schema_id == b.raw_schema_id)
    && (a.raw_schema_version == b.raw_schema_version)

abbrev pub same_receipt : Receipt → Receipt → Bool
same_receipt a b = (a.body_sha256 == b.body_sha256) && (a.byte_count == b.byte_count)

abbrev pub holds_that : {A : Type 0} → (A → Bool) → File A → Bool
holds_that test (holds a) = test a
holds_that test _ = false

-- `_verify_staged_bundle`, with hashlib's SHA-256; false where it raises
unfoldable pub verify : (Bytes → Identifier) → Bundle → RawIntent → Bool
verify sha256 b i =
    holds_that (λ body. (length body == i.byte_count) && (sha256 body == i.content_sha256)) b.body
    && holds_that (λ m. same_request m (request_metadata i)) b.request
    && holds_that (λ m. same_response m (response_metadata i)) b.response
    && holds_that (λ m. same_receipt m (receipt_of i)) b.receipt

-- existing.intent == intent
abbrev pub same_intent : RawIntent → RawIntent → Bool
same_intent a b =
    same_request (request_metadata a) (request_metadata b)
    && same_response (response_metadata a) (response_metadata b)
    && (a.content_sha256 == b.content_sha256)
