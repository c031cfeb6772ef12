-- ===== src/Metadata/Store/Durable.antt =====
-- A store that is opened again after a history of saved calls reads as it did.
use s.Prelude.{
  ◌≡◌, ◌⊎◌, refl, ap, ◌∙◌, none, some, Bool, true, false, zero, suc, List, [], ◌∷◌, map, Text,
  Outcome, ok, err, arith, inl, inr,
}
use s.Metadata.State.{MemoryState, StoreError, empty_state}
use s.Metadata.Snapshot.{PersistedState, snapshot_state, apply_persisted_state}
use s.Metadata.Snapshot.Laws.{SameState, snapshot_round_trip}
use s.Metadata.Consistency.Repair.{IsClean-of_count, repair_clean}
use s.Metadata.Persister.{Json, file_load, saved_file, file_save}
use s.Metadata.Store.{
  Store, StoreCall, Reply, done, version, versions, repaired, repair_consistency, state_call,
  persist_locked, finish_call, store_call, new_memory_backed_store,
}
use s.Metadata.Store.Errors.{state_call-KeepsOnError}
use s.Metadata.Invariant.{IsWellFormed}
use s.Metadata.Invariant.Calls.{run_calls, new_store, run_calls-IsWellFormed}

-- What was saved last is the state, or nothing was saved and the state is still empty.
IsSaved : Text → Store → Type 0
IsSaved label store =
    (store.persister ≡ true)
    × ((store.disk ≡ some (snapshot_state store.st))
        ⊎ ((store.disk ≡ none) × (store.st ≡ empty_state label)))

IsSaved-IsSaved :
    (label : Text) (st' : MemoryState) (store : Store)
    → store.persister ≡ true
    → IsSaved label (persist_locked false (record store { st = st' })).1
unfolding persist_locked IsSaved
IsSaved-IsSaved label st' store h = rw h (refl, inl refl)

-- A reply of no repairs comes with a state that did not change.
NoRepair : Store → Outcome StoreError Reply × MemoryState → Type 0
NoRepair store (r, st') = r ≡ ok (repaired zero) → st' ≡ store.st

finish_call-IsSaved :
    (label : Text) (r : Outcome StoreError Reply) (st' : MemoryState) (store : Store)
    → NoRepair store (r, st')
    → ((e : StoreError) → r ≡ err e → st' ≡ store.st)
    → IsSaved label store
    → IsSaved label (finish_call false (r, st') store).1
unfolding finish_call NoRepair
finish_call-IsSaved label (err e) st' store same kept h = rw (kept e refl) h
finish_call-IsSaved label (ok (repaired zero)) st' store same kept h = rw (same refl) h
finish_call-IsSaved label (ok (repaired (suc n))) st' store same kept h =
    IsSaved-IsSaved label st' store (unfold IsSaved in h.0)
finish_call-IsSaved label (ok done) st' store same kept h =
    IsSaved-IsSaved label st' store (unfold IsSaved in h.0)
finish_call-IsSaved label (ok (version v)) st' store same kept h =
    IsSaved-IsSaved label st' store (unfold IsSaved in h.0)
finish_call-IsSaved label (ok (versions vs)) st' store same kept h =
    IsSaved-IsSaved label st' store (unfold IsSaved in h.0)

state_call-NoRepair : (c : StoreCall) (store : Store) → NoRepair store (state_call c store.st)
unfolding NoRepair state_call
state_call-NoRepair repair_consistency store e =
    repair_clean store.st (IsClean-of_count store.st (ground arith))
state_call-NoRepair c store e = absurd (ground arith)

store_call-IsSaved :
    (label : Text) (c : StoreCall) (store : Store)
    → IsSaved label store
    → IsSaved label (store_call false c store).1
unfolding store_call
store_call-IsSaved label c store h =
    finish_call-IsSaved label (state_call c store.st).0 (state_call c store.st).1 store
      (state_call-NoRepair c store) (state_call-KeepsOnError c store.st) h

-- A history in which every save succeeds.
abbrev pub all_saved : List StoreCall → List (Bool × StoreCall)
all_saved calls = map (λ c. (false, c)) calls

run_calls-IsSaved :
    (label : Text) (calls : List StoreCall) (store : Store)
    → IsSaved label store
    → IsSaved label (run_calls (all_saved calls) store)
unfolding run_calls
run_calls-IsSaved label [] store h = h
run_calls-IsSaved label (c ∷ calls) store h =
    run_calls-IsSaved label calls (store_call false c store).1 (store_call-IsSaved label c store h)

SameState-refl : (st : MemoryState) → SameState st st
SameState-refl st = record {
  buckets = refl;
  objects = λ k. refl;
  multipart = refl;
  parts = refl;
  credentials = refl;
  websites = refl;
  cors = refl;
  policies = refl;
  public_access = refl;
  lifecycles = refl;
  notifications = refl;
  replications = refl;
  taggings = λ k. refl;
}

-- What encoding/json is relied on: a state of plain texts is coded, and read back as it was.
pub record IsJson (json : Json) (IsPlain : PersistedState → Type 0) : Type 0 where
  pub coded : (ps : PersistedState) → IsPlain ps → (bytes : Text) × (json.marshal ps ≡ some bytes)
  pub read_back :
      (ps : PersistedState) (bytes : Text)
      → IsPlain ps
      → json.marshal ps ≡ some bytes
      → json.unmarshal bytes ≡ some ps

file_load-saved :
    (json : Json) (IsPlain : PersistedState → Type 0)
    → IsJson json IsPlain
    → (ps : PersistedState) → IsPlain ps
    → file_load json true (saved_file json (some ps)) ≡ ok (some ps)
unfolding file_load saved_file file_save
file_load-saved json IsPlain law ps plain =
    let (bytes, coded) = law.coded ps plain in
    rw (coded, saved_file) (rw (law.read_back ps bytes plain coded, file_load) refl)

module _ (json : Json) where
  reopened :
      (label : Text) (store : Store)
      → IsSaved label store
      → IsWellFormed store.st
      → file_load json true (saved_file json (some (snapshot_state store.st)))
        ≡ ok (some (snapshot_state store.st))
      → (again : Store) × (new_memory_backed_store label true
            (file_load json true (saved_file json store.disk))
          ≡ ok again)
        × SameState again.st store.st
  unfolding IsSaved new_memory_backed_store
  reopened label store (_, inl saved) w read = (
    record {
      st = apply_persisted_state (snapshot_state store.st) (empty_state label);
      persister = true;
      disk = some (snapshot_state store.st);
    },
    ap (λ d. new_memory_backed_store label true (file_load json true (saved_file json d))) saved
        ∙ ap (new_memory_backed_store label true) read,
    snapshot_round_trip store.st (empty_state label) w,
  )
  reopened label store (_, inr (nothing, unchanged)) w read = (
    record { st = empty_state label; persister = true; disk = none },
    rw nothing (unfold saved_file file_load in refl),
    rw unchanged (SameState-refl (empty_state label)),
  )

  -- After any history of calls whose saves succeed, with failing calls, transactions and repairs
  -- among them, a store that is opened on what Load reads of the saved file is the old one again, lookup
  -- by lookup. `IsPlain` are the states that the coding as JSON keeps (`IsJson`), as it does where all
  -- texts are UTF-8, and the state at the end is one of them.
  pub reopen_same :
      (IsPlain : PersistedState → Type 0)
      → IsJson json IsPlain
      → (label : Text) (calls : List StoreCall)
      → IsPlain (snapshot_state (run_calls (all_saved calls) (new_store label true)).st)
      → (again : Store) × (new_memory_backed_store label true (
            file_load json true
              (saved_file json (run_calls (all_saved calls) (new_store label true)).disk))
          ≡ ok again)
        × SameState again.st (run_calls (all_saved calls) (new_store label true)).st
  reopen_same IsPlain law label calls plain =
      let store = run_calls (all_saved calls) (new_store label true) in
      reopened label store
        (run_calls-IsSaved label calls (new_store label true)
          (unfold IsSaved in (refl, inr (refl, refl))))
        (run_calls-IsWellFormed label true (all_saved calls))
        (file_load-saved json IsPlain law (snapshot_state store.st) plain)
