-- ===== src/Connector/Payload.antt =====
-- What the meeting platform answers to `fetch_live_chunks`, as far as sberjazz_service.py looks at it.
use interview_analytics_agen.Common.{ℕ, String, List}
use interview_analytics_agen.Common.Int.{ℤ}
use interview_analytics_agen.Common.Value.{Value}

-- The value of a chunk's `seq`; a Boolean counts as the integer that it is in Python.
pub data RawSeq : Type 0 where
  integer : ℤ → RawSeq
  digits : String → RawSeq
  no_seq : RawSeq

pub record RawChunk : Type 0 where
  pub content_b64 : Value
  pub seq : RawSeq
  pub id : Value
  pub chunk_id : Value

pub data Item : Type 0 where
  chunk : RawChunk → Item
  no_object : Item

pub data ChunksField : Type 0 where
  missing not_array : ChunksField
  items : List Item → ChunksField

-- `falsy` is what `fetch_fn(...) or {}` takes for an empty object.
pub data Payload : Type 0 where
  falsy not_object : Payload
  object : ChunksField → Value → Payload

-- `SberJazzLiveChunk`
pub record LiveChunk : Type 0 where
  pub chunk_id : String
  pub seq : ℕ
  pub content_b64 : String
