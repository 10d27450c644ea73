-- ===== src/AgentSrv/Acks.antt =====
-- coordinator/internal/agentsrv/server.go, onJournalBatch and flushAndAck, over Append and Flush of
-- coordinator/internal/journal/journal.go. A session is its number; a batch is the session that sent it and
-- its sequence number. Batches arrive while the flusher runs, so it is three steps: the targets, the flush,
-- and the acknowledgements. `unsynced` has the batches in the segments that are open.
pub mod Durable
use drsync.Prelude.{
  ℕ, ◌<◌, ◌≡◌, Bool, true, false, List, [], ◌∷◌, ◌++◌, ◌==◌, ltb, if◌then◌else◌, max, select,
  delete_where,
}

pub data Phase : Type 0 where
  waiting snapped flushed : Phase

-- `pending` and `acked` are jrnPending and jrnAcked of a session, `conns` the sessions that are registered.
pub record Acks : Type 0 where
  pub conns : List ℕ
  pub pending : ℕ → ℕ
  pub acked : ℕ → ℕ
  pub appended : List (ℕ × ℕ)
  pub unsynced : List (ℕ × ℕ)
  pub durable : List (ℕ × ℕ)
  -- in a full segment whose Sync failed
  pub unsure : List (ℕ × ℕ)
  pub targets : List (ℕ × ℕ)
  pub phase : Phase

-- if seq > m[c] { m[c] = seq }
unfoldable pub raise : (ℕ → ℕ) → ℕ → ℕ → ℕ → ℕ
raise m c seq d = if c == d then max (m d) seq else m d

-- onJournalBatch, where Append succeeds.
unfoldable pub on_journal_batch : ℕ → ℕ → Acks → Acks
on_journal_batch c seq a = record a {
  pending = raise a.pending c seq;
  appended = (c, seq) ∷ a.appended;
  unsynced = a.unsynced ++ (c, seq) ∷ [];
}

-- Append when a segment is full: it is synced, closed and forgotten, and the error of its Sync ignored.
-- `held` says which batches it holds.
unfoldable pub close_segment : (ℕ × ℕ → Bool) → Bool → Acks → Acks
close_segment held true a = record a {
  durable = a.durable ++ select held a.unsynced;
  unsynced = delete_where held a.unsynced;
}
close_segment held false a = record a {
  unsure = a.unsure ++ select held a.unsynced;
  unsynced = delete_where held a.unsynced;
}

-- The loop that collects the targets.
unfoldable pub targets_of : (ℕ → ℕ) → (ℕ → ℕ) → List ℕ → List (ℕ × ℕ)
targets_of pending acked [] = []
targets_of pending acked (c ∷ cs) =
    let rest = targets_of pending acked cs in
    if ltb (acked c) (pending c) then (c, pending c) ∷ rest else rest

-- flushAndAck up to the flush.
unfoldable pub take_targets : Acks → Acks
take_targets a = record a { targets = targets_of a.pending a.acked a.conns; phase = Phase.snapped }

-- Flush of the open segments: on an error nothing is acknowledged.
unfoldable pub flush_journal : Bool → Acks → Acks
flush_journal true a = record a {
  durable = a.durable ++ a.unsynced;
  unsynced = [];
  phase = Phase.flushed;
}
flush_journal false a = record a { targets = []; phase = Phase.waiting }

unfoldable pub raise_all : (ℕ → ℕ) → List (ℕ × ℕ) → ℕ → ℕ
raise_all acked [] = acked
raise_all acked (t ∷ ts) = raise_all (raise acked t.0 t.1) ts

-- The loop that acknowledges.
unfoldable pub send_acks : Acks → Acks
send_acks a = record a { acked = raise_all a.acked a.targets; targets = []; phase = Phase.waiting }

-- One step of the server. A session's batches come with rising numbers; sessions come and go.
pub data AckStep : Acks → Acks → Type 0 where
  batch : {a : Acks} (c seq : ℕ) → a.pending c < seq → AckStep a (on_journal_batch c seq a)
  roll : {a : Acks} (held : ℕ × ℕ → Bool) (syncs : Bool) → AckStep a (close_segment held syncs a)
  collect : {a : Acks} → a.phase ≡ Phase.waiting → AckStep a (take_targets a)
  flush :
      {a : Acks} (succeeds : Bool) → a.phase ≡ Phase.snapped → AckStep a (flush_journal succeeds a)
  acknowledge : {a : Acks} → a.phase ≡ Phase.flushed → AckStep a (send_acks a)
  sessions : {a : Acks} (cs : List ℕ) → AckStep a (record a { conns = cs })

-- What the server comes to from its start.
pub data AckReachable : Acks → Type 0 where
  start : AckReachable (record {
    conns = [];
    pending = λ c. 0;
    acked = λ c. 0;
    appended = [];
    unsynced = [];
    durable = [];
    unsure = [];
    targets = [];
    phase = Phase.waiting;
  })
  next : {a b : Acks} → AckReachable a → AckStep a b → AckReachable b
