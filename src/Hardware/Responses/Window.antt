-- ===== src/Hardware/Responses/Window.antt =====
-- Where the responses come from that `_ResponseAccumulator` (host/src/navbench/hardware.py) holds.
use navbench.Common.{
  ℕ, ◌+◌, ◌≤◌, ◌≡◌, ◌≢◌, refl, sym, ap, ◌∙◌, ◌⊎◌, inl, inr, true, false, All, Option, none, some,
  List, [], ◌∷◌, ◌++◌, append_assoc, append-nil, Bool-cases, if◌then◌else◌, arith,
}
use navbench.Protocol.Value.{value}
use navbench.Protocol.Enums.{MessageType, ControlMode, RuntimeState}
use navbench.Protocol.Payload.Types.{
  ErrorPayload, TypedPayload, ControlCommandPayload, StateEstimatePayload, HealthStatusPayload,
}
use navbench.Session.Types.{SessionEvent}
use navbench.Hardware.Responses.{
  ResponseError, Responses, no_responses, is_response, step_error, event_error, note, note_unless,
  consume, stop_evidence, is_stop, is_stopped, in_window, safe_stop_evidence,
}

abbrev pub Among : {A : Type 0} → A → List A → Type 0
Among {A = A} x l = (before : List A) × (after : List A) × (l ≡ before ++ (x ∷ after))

module _ {A : Type 0} where
  pub Among-append : (x : A) (l m : List A) → Among x l → Among x (l ++ m)
  Among-append x l m (before, after, e) =
      (before, after ++ m, ap (λ k. k ++ m) e ∙ append_assoc before (x ∷ after) m)

  pub append-Among : (x : A) (l m : List A) → Among x m → Among x (l ++ m)
  append-Among x l m (before, after, e) =
      (l ++ before, after, ap (λ k. l ++ k) e ∙ sym (append_assoc l before (x ∷ after)))

some_same : {A : Type 0} {x y : A} → some x ≡ some y → x ≡ y
some_same e = cc

step_error-OnTime :
    (current step : ℕ) → step_error current step ≡ none → (step ≤ current) × (current ≤ step + 5)
step_error-OnTime current step e = ground arith

in_window-inside :
    (current step : ℕ) → in_window current step ≡ true → (step ≤ current) × (current ≤ step + 5)
in_window-inside current step e = ground arith

stop_mode : (m : ControlMode) → is_stop m ≡ true → m ≡ ControlMode.safe_stop
stop_mode ControlMode.safe_stop e = refl
stop_mode _ e = absurd cc

stopped_state : (m : RuntimeState) → is_stopped m ≡ true → m ≡ RuntimeState.safe_stop
stopped_state RuntimeState.safe_stop e = refl
stopped_state _ e = absurd cc

other_type :
    (t : MessageType)
    → is_response t ≡ false
    → (t ≢ MessageType.control_command) × (t ≢ MessageType.state_estimate)
other_type t h = (
  λ e. let same : is_response t ≡ true = ap is_response e in absurd cc,
  λ e. let same : is_response t ≡ true = ap is_response e in absurd cc,
)

append_nonempty : {A : Type 0} (xs ys : List A) → xs ++ ys ≢ [] → (xs ≢ []) ⊎ (ys ≢ [])
append_nonempty [] ys h = inr h
append_nonempty (x ∷ xs) ys h = inl (λ e. cc)

module _ {F : Type 0} where
  -- An answer while the sensor frame of the step `current` is the last one that was sent: no ERROR,
  -- and a command or an estimate is for a step up to that one, at most five behind it.
  abbrev pub OnTime : ℕ → SessionEvent F → Type 0
  OnTime current event =
      ((p : ErrorPayload) → event.payload ≢ TypedPayload.error p)
      × (((event.packet.message_type ≢ MessageType.control_command)
            × (event.packet.message_type ≢ MessageType.state_estimate))
          ⊎ ((value event.packet.step_id ≤ current) × (current ≤ value event.packet.step_id + 5)))

  -- An event of `log` with a payload.
  abbrev pub Heard : List (SessionEvent F) → TypedPayload F → Type 0
  Heard log payload = (event : SessionEvent F) × Among event log × (event.payload ≡ payload)

  -- Each response that is held was heard.
  pub record IsBacked (log : List (SessionEvent F)) (r : Responses F) : Type 0 where
    pub commands :
        (p : ControlCommandPayload F)
        → r.command ≡ some p
        → Heard log (TypedPayload.control_command p)
    pub estimates :
        (p : StateEstimatePayload F)
        → r.estimate ≡ some p
        → Heard log (TypedPayload.state_estimate p)
    pub healths :
        (p : HealthStatusPayload F) → r.health ≡ some p → Heard log (TypedPayload.health_status p)

  pub no_responses-IsBacked : IsBacked [] no_responses
  no_responses-IsBacked = record {
    commands = λ p e. absurd cc;
    estimates = λ p e. absurd cc;
    healths = λ p e. absurd cc;
  }

  Heard-append :
      (log more : List (SessionEvent F)) (payload : TypedPayload F)
      → Heard log payload
      → Heard (log ++ more) payload
  Heard-append log more payload (event, among, same) =
      (event, Among-append event log more among, same)

  pub IsBacked-append :
      (log more : List (SessionEvent F)) (r : Responses F)
      → IsBacked log r
      → IsBacked (log ++ more) r
  IsBacked-append log more r h = record {
    commands = λ p e. Heard-append log more _ (h.commands p e);
    estimates = λ p e. Heard-append log more _ (h.estimates p e);
    healths = λ p e. Heard-append log more _ (h.healths p e);
  }

  note-IsBacked :
      (log : List (SessionEvent F)) (event : SessionEvent F) (payload : TypedPayload F)
      (r : Responses F)
      → event.payload ≡ payload
      → IsBacked log r
      → IsBacked (log ++ (event ∷ [])) (note payload r)
  note-IsBacked log event (TypedPayload.control_command p) r e h =
      let kept = IsBacked-append log (event ∷ []) r h in
      record {
        commands =
            λ q f. (event, (log, [], refl), e ∙ ap TypedPayload.control_command (some_same f));
        estimates = kept.estimates;
        healths = kept.healths;
      }
  note-IsBacked log event (TypedPayload.state_estimate p) r e h =
      let kept = IsBacked-append log (event ∷ []) r h in
      record {
        commands = kept.commands;
        estimates =
            λ q f. (event, (log, [], refl), e ∙ ap TypedPayload.state_estimate (some_same f));
        healths = kept.healths;
      }
  note-IsBacked log event (TypedPayload.health_status p) r e h =
      let kept = IsBacked-append log (event ∷ []) r h in
      record {
        commands = kept.commands;
        estimates = kept.estimates;
        healths = λ q f. (event, (log, [], refl), e ∙ ap TypedPayload.health_status (some_same f));
      }
  note-IsBacked log event (TypedPayload.hello p) r e h = IsBacked-append log (event ∷ []) r h
  note-IsBacked log event (TypedPayload.hello_ack p) r e h = IsBacked-append log (event ∷ []) r h
  note-IsBacked log event (TypedPayload.sensor_frame p) r e h = IsBacked-append log (event ∷ []) r h
  note-IsBacked log event (TypedPayload.route_chunk p) r e h = IsBacked-append log (event ∷ []) r h
  note-IsBacked log event (TypedPayload.heartbeat p) r e h = IsBacked-append log (event ∷ []) r h
  note-IsBacked log event (TypedPayload.error p) r e h = IsBacked-append log (event ∷ []) r h
  note-IsBacked log event (TypedPayload.safe_stop p) r e h = IsBacked-append log (event ∷ []) r h

  no_error :
      (current : ℕ) (event : SessionEvent F) (payload : TypedPayload F) (p : ErrorPayload)
      → event_error current event payload ≡ none
      → payload ≢ TypedPayload.error p
  no_error current event payload p e f =
      let g : event_error current event (TypedPayload.error p) ≡ none = rw f at e in absurd cc

  timely :
      (current : ℕ) (event : SessionEvent F)
      → (if is_response event.packet.message_type
          then step_error current (value event.packet.step_id)
          else none)
        ≡ none
      → ((event.packet.message_type ≢ MessageType.control_command)
          × (event.packet.message_type ≢ MessageType.state_estimate))
        ⊎ ((value event.packet.step_id ≤ current) × (current ≤ value event.packet.step_id + 5))
  timely current event e = elim (Bool-cases (is_response event.packet.message_type)) [
    | inl response ↦ inr (step_error-OnTime current (value event.packet.step_id) (rw response at e))
    | inr other ↦ inl (other_type event.packet.message_type other)
  ]

  event_error-timely :
      (current : ℕ) (event : SessionEvent F) (payload : TypedPayload F)
      → event_error current event payload ≡ none
      → (if is_response event.packet.message_type
          then step_error current (value event.packet.step_id)
          else none)
        ≡ none
  event_error-timely current event (TypedPayload.error p) e = absurd cc
  event_error-timely current event _ e = e

  note_unless-none :
      (next : Responses F → Responses F × Option ResponseError) (payload : TypedPayload F)
      (r r' : Responses F) (found : Option ResponseError)
      → note_unless next payload r found ≡ (r', none)
      → (found ≡ none) × (next (note payload r) ≡ (r', none))
  note_unless-none next payload r r' none e = (refl, e)
  note_unless-none next payload r r' (some f) e = absurd (let g = ap (λ t. t.1) e in cc)

  -- Events that are consumed without an error are on time, and back what is held.
  pub consume-OnTime :
      (current : ℕ) (events : List (SessionEvent F)) (r r' : Responses F)
      → consume current events r ≡ (r', none)
      → All (OnTime current) events
  unfolding consume
  consume-OnTime current [] r r' e = tt
  consume-OnTime current (event ∷ events) r r' e =
      let (fine, next) = note_unless-none (consume current events) event.payload r r' _ e in
      (
        (
          λ p. no_error current event event.payload p fine,
          timely current event (event_error-timely current event event.payload fine),
        ),
        consume-OnTime current events (note event.payload r) r' next,
      )

  pub consume-IsBacked :
      (current : ℕ) (events log : List (SessionEvent F)) (r r' : Responses F)
      → consume current events r ≡ (r', none)
      → IsBacked log r
      → IsBacked (log ++ events) r'
  unfolding consume
  consume-IsBacked current [] log r r' e k = rw (append-nil log, sym (ap (λ t. t.0) e)) k
  consume-IsBacked current (event ∷ events) log r r' e k =
      let (fine, next) = note_unless-none (consume current events) event.payload r r' _ e in
      rw⁻¹ (append_assoc log (event ∷ []) events) (
        consume-IsBacked current events (log ++ (event ∷ [])) (note event.payload r) r' next
          (note-IsBacked log event event.payload r refl k))

  -- A command that is a safe stop, or the health of a controller that is safely stopped.
  abbrev pub IsStop : TypedPayload F → Type 0
  IsStop payload =
      ((p : ControlCommandPayload F) × (payload ≡ TypedPayload.control_command p)
        × (p.mode ≡ ControlMode.safe_stop))
      ⊎ ((p : HealthStatusPayload F) × (payload ≡ TypedPayload.health_status p)
          × (p.runtime_state ≡ RuntimeState.safe_stop))

  stop_evidence-IsStop : (payload : TypedPayload F) → stop_evidence payload ≢ [] → IsStop payload
  stop_evidence-IsStop (TypedPayload.control_command p) h = elim (Bool-cases (is_stop p.mode)) [
    | inl stop ↦ inl (p, refl, stop_mode p.mode stop)
    | inr moving ↦ absurd (h (rw moving refl))
  ]
  stop_evidence-IsStop (TypedPayload.health_status p) h =
      elim (Bool-cases (is_stopped p.runtime_state)) [
        | inl stop ↦ inr (p, refl, stopped_state p.runtime_state stop)
        | inr moving ↦ absurd (h (rw moving refl))
      ]
  stop_evidence-IsStop _ h = absurd (h refl)

  -- A message that proves a stop, with a step up to `current` and at most five behind it.
  abbrev pub StopHeard : ℕ → List (SessionEvent F) → Type 0
  StopHeard current log =
      (event : SessionEvent F) × Among event log
      × ((value event.packet.step_id ≤ current) × (current ≤ value event.packet.step_id + 5))
      × IsStop event.payload

  pub safe_stop_evidence-StopHeard :
      (current : ℕ) (events : List (SessionEvent F))
      → safe_stop_evidence current events ≢ []
      → StopHeard current events
  unfolding safe_stop_evidence
  safe_stop_evidence-StopHeard current [] h = absurd (h refl)
  safe_stop_evidence-StopHeard current (event ∷ events) h =
      elim (Bool-cases (in_window current (value event.packet.step_id))) [
        | inl inside ↦
            elim (append_nonempty (stop_evidence event.payload) (safe_stop_evidence current events)
              (rw inside at h)) [
                | inl proof ↦ (
                  event,
                  ([], events, refl),
                  in_window-inside current (value event.packet.step_id) inside,
                  stop_evidence-IsStop event.payload proof,
                )
                | inr rest ↦
                    let (found, among, within, proof) =
                      safe_stop_evidence-StopHeard current events rest in
                    (found, append-Among found (event ∷ []) events among, within, proof)
              ]
        | inr outside ↦
            let (found, among, within, proof) =
              safe_stop_evidence-StopHeard current events (rw outside at h) in
            (found, append-Among found (event ∷ []) events among, within, proof)
      ]
