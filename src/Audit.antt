-- ===== src/Audit.antt =====
-- internal/audit: the audit events (audit.go) and the logger that keeps them in memory (memory.go).
-- `V` is the type of a value in the before and after of a change; a copy of a value is the value.
-- A time is a number of nanoseconds, the zero time is 0.
pub mod History
use cloudpam.Base.{
  ℕ, ◌+◌, ◌-◌, String, Bool, true, false, ◌&&◌, Option, none, some, List, [], ◌∷◌, length, take,
  drop, ltb, ◌==◌, str_eq, if◌then◌else◌,
}
use cloudpam.Base.Dict.{Dict}

-- A nil map is `none`.
pub record Changes (V : Type 0) : Type 0 where
  pub before : Option (Dict V)
  pub after : Option (Dict V)

pub record AuditEvent (V : Type 0) : Type 0 where
  pub id : String
  pub timestamp : ℕ
  pub actor : String
  pub actor_type : String
  pub action : String
  pub resource_type : String
  pub resource_id : String
  pub resource_name : String
  pub changes : Option (Changes V)
  pub request_id : String
  pub ip_address : String
  pub status_code : ℕ

-- A negative limit or offset is 0 here: the code treats them alike.
pub record ListOptions : Type 0 where
  pub limit : ℕ
  pub offset : ℕ
  pub actor : String
  pub action : String
  pub resource_type : String
  pub resource_id : String
  pub since : Option ℕ
  pub until : Option ℕ

pub record MemoryAuditLogger (V : Type 0) : Type 0 where
  pub events : List (AuditEvent V)
  pub max_events : ℕ

-- DefaultMaxEvents
abbrev pub default_max_events : ℕ
default_max_events = 10000

-- WithMaxEvents; a negative number is 0 here.
unfoldable pub with_max_events : {V : Type 0} → ℕ → MemoryAuditLogger V → MemoryAuditLogger V
with_max_events n m = if ltb 0 n then record m { max_events = n } else m

-- NewMemoryAuditLogger, without options
abbrev pub new_memory_audit_logger : {V : Type 0} → MemoryAuditLogger V
new_memory_audit_logger = record { events = []; max_events = default_max_events }

-- The id and the time that an event without them is given.
abbrev pub stamped : {V : Type 0} → String → ℕ → AuditEvent V → AuditEvent V
stamped fresh now e = record e {
  id = if str_eq e.id "" then fresh else e.id;
  timestamp = if e.timestamp == 0 then now else e.timestamp;
}

-- Log, on a new id `fresh` and the clock's time; `none` is a nil event. The caller's event gets the
-- id and the time as well.
unfoldable pub log :
    {V : Type 0} → String → ℕ → Option (AuditEvent V) → MemoryAuditLogger V → MemoryAuditLogger V
log fresh now none m = m
log fresh now (some event) m =
    let events = stamped fresh now event ∷ m.events in
    if ltb m.max_events (length events)
    then record m { events = take m.max_events events }
    else record m { events = events }

-- A filter that is empty lets everything pass.
abbrev pub passes_text : String → String → Bool
passes_text wanted text = if str_eq wanted "" then true else str_eq text wanted

abbrev pub not_before : Option ℕ → ℕ → Bool
not_before none time = true
not_before (some since) time = if ltb time since then false else true

abbrev pub not_after : Option ℕ → ℕ → Bool
not_after none time = true
not_after (some until) time = if ltb until time then false else true

-- matchesFilters
unfoldable pub matches_filters : {V : Type 0} → AuditEvent V → ListOptions → Bool
matches_filters e opts =
    passes_text opts.actor e.actor
    && (passes_text opts.action e.action
        && (passes_text opts.resource_type e.resource_type
            && (passes_text opts.resource_id e.resource_id
                && (not_before opts.since e.timestamp && not_after opts.until e.timestamp))))

-- The loop of List
unfoldable pub filtered : {V : Type 0} → ListOptions → List (AuditEvent V) → List (AuditEvent V)
filtered opts [] = []
filtered opts (e ∷ es) =
    let rest = filtered opts es in if matches_filters e opts then e ∷ rest else rest

-- The defaults and the bound of a limit
abbrev pub limit_of : ℕ → ℕ
limit_of n = let limit = if n == 0 then 50 else n in if ltb 1000 limit then 1000 else limit

-- List: the events of the page, and how many pass the filters.
unfoldable pub list_events :
    {V : Type 0} → ListOptions → MemoryAuditLogger V → List (AuditEvent V) × ℕ
list_events opts m =
    let found = filtered opts m.events in
    let start = if ltb (length found) opts.offset then length found else opts.offset in
    let end = start + limit_of opts.limit in
    let stop = if ltb (length found) end then length found else end in
    (take (stop - start) (drop start found), length found)

-- GetByResource
unfoldable pub events_of :
    {V : Type 0} → String → String → List (AuditEvent V) → List (AuditEvent V)
events_of type id [] = []
events_of type id (e ∷ es) =
    let rest = events_of type id es in
    if str_eq e.resource_type type && str_eq e.resource_id id then e ∷ rest else rest

abbrev pub get_by_resource :
    {V : Type 0} → String → String → MemoryAuditLogger V → List (AuditEvent V)
get_by_resource type id m = events_of type id m.events
