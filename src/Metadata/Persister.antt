-- ===== src/Metadata/Persister.antt =====
-- internal/metadata/persister.go: `fileStatePersister`, which keeps the state as JSON in one file. The
-- coding is encoding/json's and is a parameter; the SQL and Valkey persisters code the state in the same
-- way.
use s.Prelude.{Bool, true, Option, none, some, Text, Outcome, ok, err, if◌then◌else◌}
use s.Metadata.State.{StoreError, save_failed}
use s.Metadata.Snapshot.{PersistedState}

-- json.Marshal and json.Unmarshal on persisted states, which give a text or a state, or an error
pub record Json : Type 0 where
  pub marshal : PersistedState → Option Text
  pub unmarshal : Text → Option PersistedState

-- `Save`: what it returns and the file that it leaves; `written` says whether the temporary file could be
-- made, written, closed and renamed. Only the rename touches the file.
unfoldable pub file_save :
    Json → Bool → PersistedState → Option Text → Outcome StoreError (Unit {0}) × Option Text
file_save json written state file = elim (json.marshal state) [
  | none ↦ (err save_failed, file)
  | some bytes ↦ if written then (ok tt, some bytes) else (err save_failed, file)
]

-- `Load`; `readable` says whether a file that is there could be read.
unfoldable pub file_load : Json → Bool → Option Text → Outcome StoreError (Option PersistedState)
file_load json readable none = ok none
file_load json readable (some bytes) =
    if readable
    then elim (json.unmarshal bytes) [ none ↦ err save_failed | some state ↦ ok (some state) ]
    else err save_failed

-- The file after the last Save that succeeded, which was given that state, or without one.
unfoldable pub saved_file : Json → Option PersistedState → Option Text
unfolding file_save
saved_file json none = none
saved_file json (some state) = (file_save json true state none).1
