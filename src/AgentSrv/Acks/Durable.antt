-- ===== src/AgentSrv/Acks/Durable.antt =====
-- coordinator/internal/agentsrv/server.go: flushAndAck, and the batches that it acknowledges.
use drsync.Prelude.{
  ℕ, ◌≡◌, ◌≤◌, ◌<◌, subst, Bool, true, false, List, [], ◌∷◌, ◌++◌, ◌==◌, ltb, All, All-append,
  All-weaken, All-pair, All-delete_where, refl, ap, ◌+◌, ==_refl, &&_true, ◌&&◌, count_where,
  count_where-append, select, delete_where, Bool-cases, eq_of_==, inl, inr, arith,
}
use drsync.AgentSrv.Acks.{
  Phase, Acks, raise, on_journal_batch, close_segment, targets_of, take_targets, flush_journal,
  raise_all, send_acks, AckStep, AckReachable,
}

-- No target of a session reaches a batch that is not flushed.
abbrev Clear : List (ℕ × ℕ) → ℕ × ℕ → Type 0
Clear ts e = All (λ t. t.0 ≡ e.0 → t.1 < e.1) ts

abbrev ClearIf : Phase → List (ℕ × ℕ) → List (ℕ × ℕ) → Type 0
ClearIf Phase.flushed ts es = All (Clear ts) es
ClearIf _ ts es = Unit {0}

-- A batch is among those of a list.
abbrev pub times : ℕ × ℕ → List (ℕ × ℕ) → ℕ
times e es = count_where (λ d. (d.0 == e.0) && (d.1 == e.1)) es

record IsKept (a : Acks) : Type 0 where
  somewhere : All (λ e. 1 ≤ times e a.unsynced + times e a.durable + times e a.unsure) a.appended
  ordered : (c : ℕ) → a.acked c ≤ a.pending c
  open_batches : All (λ e. (a.acked e.0 < e.1) × (e.1 ≤ a.pending e.0)) a.unsynced
  within : All (λ t. t.1 ≤ a.pending t.0) a.targets
  clear : ClearIf a.phase a.targets a.unsynced

-- What is taken out of a list is in one of the two parts.
times-select :
    (held : ℕ × ℕ → Bool) (e : ℕ × ℕ) (es : List (ℕ × ℕ))
    → times e es ≡ times e (select held es) + times e (delete_where held es)
times-select held e [] = omega arith
times-select held e (x ∷ xs) = ground (arith, times-select held e xs)

times-append : (e : ℕ × ℕ) (es ds : List (ℕ × ℕ)) → times e (es ++ ds) ≡ times e es + times e ds
times-append e es ds = count_where-append (λ d. (d.0 == e.0) && (d.1 == e.1)) es ds

raise_le : (m : ℕ → ℕ) (c seq d : ℕ) → m d ≤ raise m c seq d
unfolding raise
raise_le m c seq d = ground arith

raise_self : (m : ℕ → ℕ) (c seq : ℕ) → seq ≤ raise m c seq c
unfolding raise
raise_self m c seq = ground arith

raise_at_most : (m : ℕ → ℕ) (c seq d b : ℕ) → m d ≤ b → (c ≡ d → seq ≤ b) → raise m c seq d ≤ b
unfolding raise
raise_at_most m c seq d b h f = elim (Bool-cases (c == d)) [
  | inl t ↦ rw t (omega (arith, h, f (eq_of_== c d t)))
  | inr g ↦ rw g h
]

raise_below : (m : ℕ → ℕ) (c seq d b : ℕ) → m d < b → (c ≡ d → seq < b) → raise m c seq d < b
unfolding raise
raise_below m c seq d b h f = elim (Bool-cases (c == d)) [
  | inl t ↦ rw t (omega (arith, h, f (eq_of_== c d t)))
  | inr g ↦ rw g h
]

targets_within :
    (pending acked : ℕ → ℕ) (cs : List ℕ)
    → All (λ t. t.1 ≤ pending t.0) (targets_of pending acked cs)
unfolding targets_of
targets_within pending acked [] = tt
targets_within pending acked (c ∷ cs) = elim (Bool-cases (ltb (acked c) (pending c))) [
  | inl t ↦ rw t (omega arith, targets_within pending acked cs)
  | inr f ↦ rw f (targets_within pending acked cs)
]

-- A new batch is above every target of its session.
Clear-new :
    (pending : ℕ → ℕ) (c seq : ℕ) (ts : List (ℕ × ℕ))
    → pending c < seq
    → All (λ t. t.1 ≤ pending t.0) ts
    → Clear ts (c, seq)
Clear-new pending c seq [] h w = tt
Clear-new pending c seq (t ∷ ts) h w =
    (λ e. ground (arith, h, w.0, e), Clear-new pending c seq ts h w.1)

clear_batch :
    (p : Phase) (pending : ℕ → ℕ) (c seq : ℕ) (ts es : List (ℕ × ℕ))
    → pending c < seq
    → All (λ t. t.1 ≤ pending t.0) ts
    → ClearIf p ts es
    → ClearIf p ts (es ++ (c, seq) ∷ [])
clear_batch Phase.flushed pending c seq ts es h w k =
    All-append (Clear ts) es ((c, seq) ∷ []) k (Clear-new pending c seq ts h w, tt)
clear_batch Phase.waiting pending c seq ts es h w k = tt
clear_batch Phase.snapped pending c seq ts es h w k = tt

raise_all_le :
    (pending acked : ℕ → ℕ) (ts : List (ℕ × ℕ))
    → ((c : ℕ) → acked c ≤ pending c)
    → All (λ t. t.1 ≤ pending t.0) ts
    → (c : ℕ) → raise_all acked ts c ≤ pending c
unfolding raise_all
raise_all_le pending acked [] h w c = h c
raise_all_le pending acked (t ∷ ts) h w c =
    raise_all_le pending (raise acked t.0 t.1) ts (λ d. raised d) w.1 c
  where
    raised : (d : ℕ) → raise acked t.0 t.1 d ≤ pending d
    raised d =
        raise_at_most acked t.0 t.1 d (pending d) (h d) (λ e. subst (λ x. t.1 ≤ pending x) e w.0)

raise_all_below :
    (acked : ℕ → ℕ) (ts : List (ℕ × ℕ)) (e : ℕ × ℕ)
    → acked e.0 < e.1
    → Clear ts e
    → raise_all acked ts e.0 < e.1
unfolding raise_all
raise_all_below acked [] e h k = h
raise_all_below acked (t ∷ ts) e h k =
    raise_all_below (raise acked t.0 t.1) ts e (raise_below acked t.0 t.1 e.0 e.1 h k.0) k.1

on_journal_batch-IsKept :
    (c seq : ℕ) (a : Acks) → a.pending c < seq → IsKept a → IsKept (on_journal_batch c seq a)
unfolding on_journal_batch
on_journal_batch-IsKept c seq a h k = record {
  somewhere = (
    ground (arith, times-append (c, seq) a.unsynced ((c, seq) ∷ []), ==_refl c, ==_refl seq),
    All-weaken (λ e. 1 ≤ times e a.unsynced + times e a.durable + times e a.unsure)
        (λ e. 1 ≤ times e (a.unsynced ++ (c, seq) ∷ []) + times e a.durable + times e a.unsure)
        (λ e q. omega (arith, q, times-append e a.unsynced ((c, seq) ∷ []))) a.appended k.somewhere,
  );
  ordered = λ d. omega (arith, k.ordered d, raise_le a.pending c seq d);
  open_batches =
      All-append (λ e. (a.acked e.0 < e.1) × (e.1 ≤ raise a.pending c seq e.0)) a.unsynced
        ((c, seq) ∷ [])
        (All-weaken (λ e. (a.acked e.0 < e.1) × (e.1 ≤ a.pending e.0))
          (λ e. (a.acked e.0 < e.1) × (e.1 ≤ raise a.pending c seq e.0))
          (λ e q. (q.0, omega (arith, q.1, raise_le a.pending c seq e.0))) a.unsynced
          k.open_batches)
        ((omega (arith, h, k.ordered c), raise_self a.pending c seq), tt);
  within =
      All-weaken (λ t. t.1 ≤ a.pending t.0) (λ t. t.1 ≤ raise a.pending c seq t.0)
        (λ t q. omega (arith, q, raise_le a.pending c seq t.0)) a.targets k.within;
  clear = clear_batch a.phase a.pending c seq a.targets a.unsynced h k.within k.clear;
}

take_targets-IsKept : (a : Acks) → IsKept a → IsKept (take_targets a)
unfolding take_targets
take_targets-IsKept a k = record {
  somewhere = k.somewhere;
  ordered = k.ordered;
  open_batches = k.open_batches;
  within = targets_within a.pending a.acked a.conns;
  clear = tt;
}

flush_journal-IsKept : (b : Bool) (a : Acks) → IsKept a → IsKept (flush_journal b a)
unfolding flush_journal
flush_journal-IsKept true a k = record {
  somewhere =
      All-weaken (λ e. 1 ≤ times e a.unsynced + times e a.durable + times e a.unsure)
        (λ e. 1 ≤ 0 + times e (a.durable ++ a.unsynced) + times e a.unsure)
        (λ e q. omega (arith, q, times-append e a.durable a.unsynced)) a.appended k.somewhere;
  ordered = k.ordered;
  open_batches = tt;
  within = k.within;
  clear = tt;
}
flush_journal-IsKept false a k = record {
  somewhere = k.somewhere;
  ordered = k.ordered;
  open_batches = k.open_batches;
  within = tt;
  clear = tt;
}

send_acks-IsKept : (a : Acks) → a.phase ≡ Phase.flushed → IsKept a → IsKept (send_acks a)
unfolding send_acks
send_acks-IsKept a e k =
    let clear : All (Clear a.targets) a.unsynced =
      subst (λ p. ClearIf p a.targets a.unsynced) e k.clear in
    record {
      somewhere = k.somewhere;
      ordered = raise_all_le a.pending a.acked a.targets k.ordered k.within;
      open_batches =
          All-weaken (λ b. ((a.acked b.0 < b.1) × (b.1 ≤ a.pending b.0)) × Clear a.targets b)
            (λ b. (raise_all a.acked a.targets b.0 < b.1) × (b.1 ≤ a.pending b.0))
            (λ b q. (raise_all_below a.acked a.targets b q.0.0 q.1, q.0.1)) a.unsynced
            (All-pair (λ b. (a.acked b.0 < b.1) × (b.1 ≤ a.pending b.0)) (Clear a.targets)
              a.unsynced k.open_batches clear);
      within = tt;
      clear = tt;
    }

clear_closed :
    (p : Phase) (held : ℕ × ℕ → Bool) (ts es : List (ℕ × ℕ))
    → ClearIf p ts es
    → ClearIf p ts (delete_where held es)
clear_closed Phase.flushed held ts es h = All-delete_where (Clear ts) held es h
clear_closed Phase.waiting held ts es h = tt
clear_closed Phase.snapped held ts es h = tt

close_segment-IsKept :
    (held : ℕ × ℕ → Bool) (b : Bool) (a : Acks) → IsKept a → IsKept (close_segment held b a)
unfolding close_segment
close_segment-IsKept held true a k = record {
  somewhere =
      All-weaken (λ e. 1 ≤ times e a.unsynced + times e a.durable + times e a.unsure)
        (λ e.
          1
          ≤ times e (delete_where held a.unsynced)
            + times e (a.durable ++ select held a.unsynced)
            + times e a.unsure)
        (λ e q. omega (
          arith,
          q,
          times-append e a.durable (select held a.unsynced),
          times-select held e a.unsynced,
        ))
        a.appended k.somewhere;
  ordered = k.ordered;
  open_batches = All-delete_where _ held a.unsynced k.open_batches;
  within = k.within;
  clear = clear_closed a.phase held a.targets a.unsynced k.clear;
}
close_segment-IsKept held false a k = record {
  somewhere =
      All-weaken (λ e. 1 ≤ times e a.unsynced + times e a.durable + times e a.unsure)
        (λ e.
          1
          ≤ times e (delete_where held a.unsynced)
            + times e a.durable
            + times e (a.unsure ++ select held a.unsynced))
        (λ e q. omega (
          arith,
          q,
          times-append e a.unsure (select held a.unsynced),
          times-select held e a.unsynced,
        ))
        a.appended k.somewhere;
  ordered = k.ordered;
  open_batches = All-delete_where _ held a.unsynced k.open_batches;
  within = k.within;
  clear = clear_closed a.phase held a.targets a.unsynced k.clear;
}

AckStep-IsKept : {a b : Acks} → AckStep a b → IsKept a → IsKept b
AckStep-IsKept {a} (AckStep.batch c seq h) k = on_journal_batch-IsKept c seq a h k
AckStep-IsKept {a} (AckStep.roll held b) k = close_segment-IsKept held b a k
AckStep-IsKept {a} (AckStep.collect e) k = take_targets-IsKept a k
AckStep-IsKept {a} (AckStep.flush b e) k = flush_journal-IsKept b a k
AckStep-IsKept {a} (AckStep.acknowledge e) k = send_acks-IsKept a e k
AckStep-IsKept (AckStep.sessions cs) k = record {
  somewhere = k.somewhere;
  ordered = k.ordered;
  open_batches = k.open_batches;
  within = k.within;
  clear = k.clear;
}

AckReachable-IsKept : (a : Acks) → AckReachable a → IsKept a
AckReachable-IsKept a AckReachable.start = record {
  somewhere = tt;
  ordered = λ c. omega arith;
  open_batches = tt;
  within = tt;
  clear = tt;
}
AckReachable-IsKept a (AckReachable.next {a = before} r st) =
    AckStep-IsKept st (AckReachable-IsKept before r)

above_acked :
    (acked : ℕ → ℕ) (e : ℕ × ℕ) (es : List (ℕ × ℕ))
    → All (λ d. acked d.0 < d.1) es
    → e.1 ≤ acked e.0
    → times e es ≡ 0
above_acked acked e [] h l = refl
above_acked acked e (d ∷ ds) h l = elim (Bool-cases ((d.0 == e.0) && (d.1 == e.1))) [
  | inl t ↦ absurd (other (&&_true (d.0 == e.0) (d.1 == e.1) t))
  | inr f ↦ ground (arith, f, above_acked acked e ds h.1 l)
]
  where
    other : (d.0 == e.0 ≡ true) × (d.1 == e.1 ≡ true) → ⊥
    other q =
        let same = eq_of_== d.0 e.0 q.0 in
        omega (arith, l, h.0, eq_of_== d.1 e.1 q.1, ap acked same)

-- An acknowledged batch is durable: where the batches of each session come with rising numbers and no
-- Sync of a full segment has failed, every batch that was appended, and whose number is at most the
-- highest that its session was acknowledged, is in a segment that was synced after it. This holds
-- however batches, full segments and sessions come between the collecting of the targets, the flush,
-- which may fail, and the acknowledgements.
pub acked_durable :
    (a : Acks)
    → AckReachable a
    → a.unsure ≡ []
    → All (λ e. e.1 ≤ a.acked e.0 → 1 ≤ times e a.durable) a.appended
acked_durable a r u =
    let k = AckReachable-IsKept a r in
    let above : All (λ e. a.acked e.0 < e.1) a.unsynced =
      All-weaken (λ e. (a.acked e.0 < e.1) × (e.1 ≤ a.pending e.0)) (λ e. a.acked e.0 < e.1)
        (λ e q. q.0) a.unsynced k.open_batches in
    All-weaken (λ e. 1 ≤ times e a.unsynced + times e a.durable + times e a.unsure)
      (λ e. e.1 ≤ a.acked e.0 → 1 ≤ times e a.durable)
      (λ e q l. omega (arith, q, above_acked a.acked e a.unsynced above l, ap (times e) u))
      a.appended k.somewhere
