-- ===== src/Store/Agents.antt =====
-- coordinator/internal/store/store.go: the writes to the rows of agents. Host names, versions and the
-- times of heartbeats, which nothing but the list of agents reads, are left out.
use drsync.Prelude.{
  ◌≡◌, refl, Bool, false, ◌&&◌, List, [], ◌∷◌, Bytes, bytes_eq, ◌==◌, arith, if◌then◌else◌,
  Bool-cases, eq_of_==, inl, inr, count_where, count_where-update_where_zero, update_where,
}
use drsync.Store.Schema.{Agent, Store, Error, Result, ok, err}
use drsync.Store.Sweep.{is_schedulable}

abbrev pub has_agent_id : Bytes → Agent → Bool
has_agent_id id a = bytes_eq id a.id

abbrev put_connected : Bool → Agent → Agent
put_connected b a = record a { connected = b }

abbrev put_enabled : Bool → Agent → Agent
put_enabled b a = record a { enabled = b }

-- SetAgentState, whose state is `connected` or another one.
unfoldable pub set_agent_state : Bytes → Bool → Store → Store
set_agent_state id b s = record s {
  agents = update_where (has_agent_id id) (put_connected b) s.agents;
}

-- SetAgentEnabled
unfoldable pub set_agent_enabled : Bytes → Bool → Store → Store × Result (Unit {0})
set_agent_enabled id b s =
    if count_where (has_agent_id id) s.agents == 0
    then (s, err Error.no_rows)
    else (record s { agents = update_where (has_agent_id id) (put_enabled b) s.agents }, ok tt)

abbrev is_offered : Bytes → Agent → Bool
is_offered id a = has_agent_id id a && is_schedulable a

offered_of_none :
    (id : Bytes) (rows : List Agent)
    → count_where (has_agent_id id) rows ≡ 0
    → count_where (is_offered id) rows ≡ 0
offered_of_none id [] h = refl
offered_of_none id (a ∷ rows) h = ground (arith, h, offered_of_none id rows)

offered_after :
    (id : Bytes) (rows : List Agent)
    → count_where (is_offered id) (update_where (has_agent_id id) (put_enabled false) rows) ≡ 0
offered_after id rows =
    count_where-update_where_zero (is_offered id) (has_agent_id id) (put_enabled false)
      (λ a h. ground arith) (λ a h. ground (arith, h)) rows

-- An agent that is disabled is no longer among those that get work, whether or not it is known.
disabled_not_offered :
    (id : Bytes) (s : Store)
    → count_where (is_offered id) (set_agent_enabled id false s).0.agents ≡ 0
unfolding set_agent_enabled
disabled_not_offered id s = elim (Bool-cases (count_where (has_agent_id id) s.agents == 0)) [
  | inl y ↦ rw y (offered_of_none id s.agents (eq_of_== _ _ y))
  | inr n ↦ rw n (offered_after id s.agents)
]
