-- ===== src/Message.antt =====
-- Messages of a conversation: packages/sdk/src/core/agents/state.ts and core/llm/llm-log-types.ts.
-- A value that the program never looks into (`unknown`) is its JSON text.
use roj.Base.{ℕ, String, Bool, Option, List}

abbrev pub Json : Type 0
Json = String

-- The `ttl` of an ephemeral cache breakpoint.
pub data CacheTtl : Type 0 where
  five_minutes one_hour : CacheTtl

pub record CacheControl : Type 0 where
  pub ttl : Option CacheTtl

pub data ImageDetail : Type 0 where
  auto low high : ImageDetail

pub data Document : Type 0 where
  inline : (media_type base64 : String) → Option String → Document
  stored : (media_type path : String) (byte_length : ℕ) → Option String → Document

pub data ContentItem : Type 0 where
  text : String → Bool → ContentItem
  image_url : String → Option ImageDetail → ContentItem
  document : Document → ContentItem

-- `string | ChatMessageContentItem[]`, also the content of a tool's result.
pub data Content : Type 0 where
  plain : String → Content
  items : List ContentItem → Content

pub record ToolCall : Type 0 where
  pub id : String
  pub name : String
  pub input : Json

pub record UserMessage : Type 0 where
  pub content : Content
  pub source_message_ids : Option (List String)
  pub cache_control : Option CacheControl

pub record AssistantMessage : Type 0 where
  pub content : String
  pub tool_calls : Option (List ToolCall)
  pub reasoning_details : Option (List Json)
  pub thinking_blocks : Option (List Json)
  pub cache_control : Option CacheControl

pub record ToolMessage : Type 0 where
  pub content : Content
  pub tool_call_id : String
  pub tool_name : Option String
  pub is_error : Option Bool
  pub timestamp : Option ℕ
  pub cache_control : Option CacheControl

pub record SystemMessage : Type 0 where
  pub content : String
  pub cache_control : Option CacheControl

pub data LlmMessage : Type 0 where
  user : UserMessage → LlmMessage
  assistant : AssistantMessage → LlmMessage
  tool : ToolMessage → LlmMessage
  system : SystemMessage → LlmMessage
