-- ===== src/Audit/History.antt =====
-- The logger of internal/audit/memory.go against the history of everything that was logged.
use cloudpam.Base.{
  ℕ, zero, suc, ◌≡◌, ◌≤◌, refl, sym, ap, ap₂, Option-cases, ◌∙◌, arith, inl, inr, Bool-cases,
  String, Option, none, some, List, [], ◌∷◌, length, take, drop, ltb, if◌then◌else◌,
}
use cloudpam.Base.Slices.{take-all, cut_slice, start_cases, stop_cases}
use cloudpam.Audit.{
  AuditEvent, ListOptions, MemoryAuditLogger, new_memory_audit_logger, with_max_events,
  default_max_events, log, stamped, filtered, limit_of, list_events, events_of, get_by_resource,
}

-- A call of `Log`, with the id and the time that it draws.
pub record Call (V : Type 0) : Type 0 where
  pub fresh : String
  pub now : ℕ
  pub event : Option (AuditEvent V)

-- The calls, the last first, on a logger for `cap` events.
unfoldable pub run : {V : Type 0} → ℕ → List (Call V) → MemoryAuditLogger V
run cap [] = with_max_events cap new_memory_audit_logger
run cap (c ∷ calls) = log c.fresh c.now c.event (run cap calls)

-- Every event that was logged, the last first.
unfoldable pub history : {V : Type 0} → List (Call V) → List (AuditEvent V)
history [] = []
history (c ∷ calls) = elim c.event [
  | none ↦ history calls
  | some e ↦ stamped c.fresh c.now e ∷ history calls
]

module _ {V : Type 0} where
  take-take-suc : (n : ℕ) (xs : List V) → take n (take (suc n) xs) ≡ take n xs
  take-take-suc zero xs = refl
  take-take-suc (suc n) [] = refl
  take-take-suc (suc n) (x ∷ xs) = ap (λ t. x ∷ t) (take-take-suc n xs)

  -- Putting an entry before a cut list and cutting again forgets no more.
  take-cons : (n : ℕ) (x : V) (xs : List V) → take n (x ∷ take n xs) ≡ take n (x ∷ xs)
  take-cons zero x xs = refl
  take-cons (suc n) x xs = ap (λ t. x ∷ t) (take-take-suc n xs)

-- How many events a logger made for `cap` keeps.
abbrev pub capacity : ℕ → ℕ
capacity cap = if ltb 0 cap then cap else default_max_events

module _ {V : Type 0} where
  -- One call puts its event before the others and cuts.
  log-events :
      (fresh : String) (now : ℕ) (e : AuditEvent V) (m : MemoryAuditLogger V)
      → (log fresh now (some e) m).events ≡ take m.max_events (stamped fresh now e ∷ m.events)
  unfolding log
  log-events fresh now e m =
      let events = stamped fresh now e ∷ m.events in
      elim (Bool-cases (ltb m.max_events (length events))) [
        | inl h ↦ rw (log, h) refl
        | inr h ↦ rw (log, h) (sym (take-all m.max_events events (ground arith)))
      ]

  log-max_events :
      (fresh : String) (now : ℕ) (o : Option (AuditEvent V)) (m : MemoryAuditLogger V)
      → (log fresh now o m).max_events ≡ m.max_events
  unfolding log
  log-max_events fresh now none m = refl
  log-max_events fresh now (some e) m =
      elim (Bool-cases (ltb m.max_events (length (stamped fresh now e ∷ m.events)))) [
        | inl h ↦ rw (log, h) refl
        | inr h ↦ rw (log, h) refl
      ]

  run-max_events : (cap : ℕ) (calls : List (Call V)) → (run cap calls).max_events ≡ capacity cap
  unfolding run with_max_events
  run-max_events cap [] = elim (Bool-cases (ltb 0 cap)) [ inl h ↦ rw h refl | inr h ↦ rw h refl ]
  run-max_events cap (c ∷ calls) =
      log-max_events c.fresh c.now c.event (run cap calls) ∙ run-max_events cap calls

  run-events :
      (cap : ℕ) (calls : List (Call V))
      → (run cap calls).events ≡ take (capacity cap) (history calls)
  unfolding run history with_max_events log
  run-events cap [] = elim (Bool-cases (ltb 0 cap)) [
    | inl h ↦ rw h (sym (take-all cap [] (omega arith)))
    | inr h ↦ rw h refl
  ]
  run-events cap (c ∷ calls) = elim (Option-cases c.event) [
    | inl n ↦ rw (run, history, n, log) (run-events cap calls)
    | inr (e, n) ↦
        rw (run, history, n)
          (log-events c.fresh c.now e (run cap calls)
            ∙ ap₂ (λ k es. take k (stamped c.fresh c.now e ∷ es)) (run-max_events cap calls)
                (run-events cap calls)
            ∙ take-cons (capacity cap) (stamped c.fresh c.now e) (history calls))
  ]

  -- A logger for `cap` events (10000 where `cap` is 0), after any calls of `Log`, answers as the whole
  -- history does, cut to its last `cap` events, the newest first. `List` gives, of these, the ones
  -- that pass the filters, after the offset, at most as many as the limit, which lies between 1 and
  -- 1000, and the number of all that pass; `GetByResource` gives those of the resource.
  pub run-list_events :
      (cap : ℕ) (calls : List (Call V)) (opts : ListOptions) (type id : String)
      → (let kept = take (capacity cap) (history calls) in
          (list_events opts (run cap calls) ≡ (
            take (limit_of opts.limit) (drop opts.offset (filtered opts kept)),
            length (filtered opts kept),
          ))
          × (get_by_resource type id (run cap calls) ≡ events_of type id kept)
          × (1 ≤ limit_of opts.limit)
          × (limit_of opts.limit ≤ 1000))
  unfolding list_events
  run-list_events cap calls opts type id =
      let all = run-events cap calls in
      let found = filtered opts (run cap calls).events in
      let start = if ltb (length found) opts.offset then length found else opts.offset in
      let slice =
        cut_slice found opts.offset (limit_of opts.limit) start _
          (start_cases (length found) opts.offset)
          (stop_cases (length found) start (limit_of opts.limit)) in
      (
        ap₂ (λ es n. (es, n)) slice refl
            ∙ ap
                (λ es. (
                  take (limit_of opts.limit) (drop opts.offset (filtered opts es)),
                  length (filtered opts es),
                ))
                all,
        ap (events_of type id) all,
        ground arith,
        ground arith,
      )
