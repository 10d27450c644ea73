-- ===== src/AgentSrv/Messages.antt =====
-- coordinator/internal/agentsrv/server.go: the messages of proto/drsync.proto that the handlers read and
-- the payloads that they write, with the protobuf library as a parameter. A message with a `string`
-- field is not marshalled when the string is not UTF-8; bytes and numbers always are.
use drsync.Prelude.{ℕ, Bool, List, [], ◌∷◌, Option, none, some, Bytes}
use drsync.Model.States.{ShardKind}
use drsync.Store.Schema.{Counters, Error}
use drsync.Store.Shards.{NewShard}
use drsync.Scheduler.Policy.{PolicyError}

pub record FileGen : Type 0 where
  pub size : ℕ
  pub mtime_ns : ℕ

pub record ChunkTask : Type 0 where
  pub rel_path : Bytes
  pub offset : ℕ
  pub length : ℕ
  pub gen : FileGen
  pub create_temp : Bool
  pub temp_name : Bytes
  pub finalize : Bool
  pub reclaim : Bool

-- ResultStatus; `failed` is any value that the server does not know.
pub data Status : Type 0 where
  ok src_changed transient mount_sick released failed : Status

pub record ShardResult : Type 0 where
  pub shard_id : ℕ
  pub lease_id : ℕ
  pub status : Status
  pub counters : Option Counters
  pub error : Bytes
  pub deferred_rmdirs : List Bytes

pub record TaskResult : Type 0 where
  pub task_id : ℕ
  pub lease_id : ℕ
  pub status : Status
  pub error : Bytes

pub record Codec : Type 0 where
  pub marshal_chunk : ChunkTask → Option Bytes
  pub unmarshal_chunk : Bytes → Option ChunkTask
  pub marshal_batch : List Bytes → Bytes
  pub unmarshal_batch : Bytes → Option (List Bytes)
  pub marshal_entries : Bytes → List Bytes → Option Bytes
  pub marshal_result : ShardResult → Option Bytes

-- Why a handler fails, which closes the session.
pub data Fault : Type 0 where
  stored : Error → Fault
  codec : Fault
  policy : PolicyError → Fault
  chunk_size_zero : Fault

-- `payload, _ := proto.Marshal(…)`
abbrev pub or_empty : Option Bytes → Bytes
or_empty none = []
or_empty (some b) = b

-- finalizeShard
unfoldable pub finalize_shard : Codec → Bytes → Bytes → FileGen → NewShard
finalize_shard c rel temp gen = record {
  kind = ShardKind.chunk;
  rel_path = rel;
  payload = or_empty (
      c.marshal_chunk (record {
        rel_path = rel;
        offset = 0;
        length = 0;
        gen = gen;
        create_temp = Bool.false;
        temp_name = temp;
        finalize = Bool.true;
        reclaim = Bool.false;
      }));
  target_agent = [];
}

-- deleteCleanupShard
unfoldable pub delete_cleanup_shard : Codec → Bytes → NewShard
delete_cleanup_shard c dir_rel = record {
  kind = ShardKind.delete;
  rel_path = [];
  payload = c.marshal_batch (dir_rel ∷ []);
  target_agent = [];
}
