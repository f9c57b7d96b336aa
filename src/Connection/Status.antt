-- ===== src/Connection/Status.antt =====
-- src/internal/connection/service.go: `Status`, without the fields that never change.
use blacktemple_kn.Prelude.{ℕ, if◌then◌else◌, Option, none, some, [], ◌∷◌, ℤ, Text, is_empty, codes}
use blacktemple_kn.Supervisor.States.{
  State, running, starting, reloading, backoff, failed, state_text,
}
use blacktemple_kn.Profiles.State.{Entry, find_entry}
use blacktemple_kn.Connection.Candidates.{find_server_by_id}
use blacktemple_kn.Connection.Generation.{ConnectionParams}
use blacktemple_kn.Connection.Service.{Connection}

pub record Status : Type 0 where
  pub connection : Text
  pub country : Text
  pub key : Text
  pub error_class : Text
  pub xray_state : Text
  pub pid : Option ℤ
  pub version : Text
  pub restart_count : ℕ

unfoldable pub connection_text : State → Text → Text
connection_text running last_err = codes "connected"
connection_text starting last_err = codes "connecting"
connection_text reloading last_err = codes "connecting"
connection_text backoff last_err = codes "connecting"
connection_text failed last_err = codes "failed"
connection_text _ last_err = if is_empty last_err then codes "disconnected" else codes "failed"

unfoldable pub country_of : Entry ConnectionParams → Text
unfolding find_server_by_id
country_of e =
    let found = find_server_by_id e.servers e.keys.active.server_id in
    if e.keys.has_active then (elim found [ none ↦ [] | some srv ↦ srv.country_id ]) else []

unfoldable pub key_text_of : Entry ConnectionParams → Text
key_text_of e = elim e.keys.keys [ [] ↦ codes "missing" | k ∷ ks ↦ codes "active" ]

unfoldable pub status_of : {F : Type 0} → Option (Entry ConnectionParams) → Connection F → Status
unfolding connection_text country_of key_text_of
status_of found c = record {
  connection = connection_text c.sup.snap.state c.last_err;
  country = elim found [ none ↦ [] | some e ↦ country_of e ];
  key = elim found [ none ↦ codes "missing" | some e ↦ key_text_of e ];
  error_class = c.last_class;
  xray_state = state_text c.sup.snap.state;
  pid = c.sup.snap.pid;
  version = c.sup.snap.version;
  restart_count = c.sup.snap.restart_count;
}

unfoldable pub status : {F : Type 0} → Connection F → Status
unfolding find_entry status_of
status c =
    let id = c.profiles.memory.active_id in
    status_of (if is_empty id then none else find_entry id c.profiles.memory.by_id) c
