-- ===== src/Duplicates.antt =====
-- src/runtime-service.ts: createInMemoryDuplicateProtectionStore.
-- A call of `execute` reads and writes the entries before it waits; it writes again when its
-- operation has thrown. Both are steps, and so is `clear`. A promise is the number of the call that
-- made it.
pub mod Once
use Prim.Native.String.{◌++◌ as joined}
use z_s_app.Prelude.{
  ℕ, ◌+◌, String, Bool, true, false, not, Option, none, some, List, [], ◌∷◌, nat_beq, ◌==◌,
  string_eq, if◌then◌else◌,
}
use z_s_app.Prelude.Map
use z_s_app.Prelude.Map.{Map}

pub record Operation : Type 0 where
  pub fingerprint : String
  pub promise : ℕ

pub record DuplicateProtectionStore : Type 0 where
  pub entries : Map Operation
  pub next_promise : ℕ

-- what `execute` does at once: it throws, waits for an earlier call's operation, or starts its own
pub data Begun : Type 0 where
  idempotency_key_reused : Begun
  replays : ℕ → Begun
  starts : ℕ → Begun

unfoldable pub map_key : String → String → String
map_key scope key = joined scope (joined ":" key)

abbrev begun :
    String → String → DuplicateProtectionStore → Option Operation → Begun × DuplicateProtectionStore
begun k fingerprint s none = (
  starts s.next_promise,
  record {
    entries = Map.put k (record { fingerprint = fingerprint; promise = s.next_promise }) s.entries;
    next_promise = s.next_promise + 1;
  },
)
begun k fingerprint s (some o) =
    if not (o.fingerprint == fingerprint)
    then (idempotency_key_reused, s)
    else (replays o.promise, s)

unfoldable pub execute :
    String → String → String → DuplicateProtectionStore → Begun × DuplicateProtectionStore
unfolding map_key
execute scope key fingerprint s =
    begun (map_key scope key) fingerprint s (Map.get (map_key scope key) s.entries)

abbrev is_of : ℕ → Option Operation → Bool
is_of promise none = false
is_of promise (some o) = nat_beq o.promise promise

-- the `catch` of the call that started `promise` under the key
unfoldable pub operation_threw :
    String → String → ℕ → DuplicateProtectionStore → DuplicateProtectionStore
unfolding map_key
operation_threw scope key promise s =
    let k = map_key scope key in
    if is_of promise (Map.get k s.entries) then record s { entries = Map.remove k s.entries } else s

unfoldable pub clear : DuplicateProtectionStore → DuplicateProtectionStore
clear s = record s { entries = [] }

pub data Step : Type 0 where
  executed : String → String → String → Step
  threw : String → String → ℕ → Step
  cleared : Step

unfoldable pub run : Step → DuplicateProtectionStore → DuplicateProtectionStore
run (executed scope key fingerprint) s = (execute scope key fingerprint s).1
run (threw scope key promise) s = operation_threw scope key promise s
run cleared s = clear s

unfoldable pub run_all : List Step → DuplicateProtectionStore → DuplicateProtectionStore
run_all [] s = s
run_all (step ∷ rest) s = run_all rest (run step s)
