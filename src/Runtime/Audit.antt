-- ===== src/Runtime/Audit.antt =====
-- The audit trail only grows: no command removes, reorders or rewrites an event.
use system_trade_with_llm_or.Prelude.{◌≡◌, List, [], ◌++◌, sym, ap, ◌∙◌}
use mathlib.Core.List.{append_assoc, append-nil}
use system_trade_with_llm_or.Schema.{Database}
use system_trade_with_llm_or.Tx.Keeps.{Keeps-insert_if}
use system_trade_with_llm_or.Requests.{
  append_queue_event, append_admission_event, append_gate_event,
}
use system_trade_with_llm_or.Runtime.{Command, run}
use system_trade_with_llm_or.Runtime.Units.{Units}
use system_trade_with_llm_or.Runtime.Units.Frames.{
  requests_frame, queue_frame, attempts_frame, gates_frame, flights_frame, publications_frame,
  lease_frame,
}
use system_trade_with_llm_or.Runtime.Walk.{run_keeps}

-- `ys` is `xs` with more at the end.
abbrev pub Extends : {A : Type 0} → List A → List A → Type 0
Extends {A} xs ys = (more : List A) × (ys ≡ xs ++ more)

Extends-append : {A : Type 0} (xs ys zs : List A) → Extends xs ys → Extends xs (ys ++ zs)
Extends-append xs ys zs (more, e) = (more ++ zs, ap (λ ws. ws ++ zs) e ∙ append_assoc xs more zs)

-- The three event tables of `db` extend those of `start`.
pub record KeepsTrail (start db : Database) : Type 0 where
  pub queue : Extends start.queue_events db.queue_events
  pub admission : Extends start.admission_events db.admission_events
  pub gate : Extends start.gate_events db.gate_events

units-KeepsTrail : (start : Database) → Units (KeepsTrail start)
unfolding append_queue_event append_admission_event append_gate_event
units-KeepsTrail start = record {
  events = record {
    queue_event = λ id event now reason. Keeps-insert_if _ _ (λ db _ h. record {
      queue = Extends-append _ _ _ h.queue;
      admission = h.admission;
      gate = h.gate;
    });
    admission_event = λ id event now reason. Keeps-insert_if _ _ (λ db _ h. record {
      queue = h.queue;
      admission = Extends-append _ _ _ h.admission;
      gate = h.gate;
    });
    gate_event = λ id reservation scope key event now reason. Keeps-insert_if _ _ (λ db _ h.
        record { queue = h.queue; admission = h.admission; gate = Extends-append _ _ _ h.gate });
  };
  requests =
      requests_frame
        (λ db _ _ h. record { queue = h.queue; admission = h.admission; gate = h.gate });
  queue =
      queue_frame (λ db _ _ h. record { queue = h.queue; admission = h.admission; gate = h.gate });
  attempts =
      attempts_frame (λ db _ h. record { queue = h.queue; admission = h.admission; gate = h.gate });
  gates =
      gates_frame
        (λ db _ _ _ _ h. record { queue = h.queue; admission = h.admission; gate = h.gate });
  flights =
      flights_frame
        (λ db _ _ h. record { queue = h.queue; admission = h.admission; gate = h.gate });
  publications =
      publications_frame
        (λ db _ h. record { queue = h.queue; admission = h.admission; gate = h.gate });
  lease =
      lease_frame (λ db _ h. record { queue = h.queue; admission = h.admission; gate = h.gate });
}

-- After any history of commands, refused ones included, each event table is the table at its start
-- with further events at its end.
pub audit_trail_only_grows :
    (cs : List Command) (start : Database) → KeepsTrail start (run cs start)
audit_trail_only_grows cs start = run_keeps (units-KeepsTrail start) cs start (record {
  queue = ([], sym (append-nil _));
  admission = ([], sym (append-nil _));
  gate = ([], sym (append-nil _));
})
