-- ===== src/Handshake/Server/Trace.antt =====
-- Runs of the server's machine: the calls as events, and what holds along every run.
use aafp_go.Handshake.Server.Diagram.{rank}
use aafp_go.Base.{
  ℕ, ◌+◌, ◌-◌, ◌<◌, ◌≤◌, ◌≡◌, ◌≢◌, refl, sym, ◌∙◌, ap, Bool, true, false, List, [], ◌∷◌, ◌++◌,
  append_assoc, append-nil, length, some, arith,
}
use aafp_go.Handshake.{timed_out, duplicate_message, client_hello, client_finished}
use aafp_go.Handshake.Server.{
  ServerState, listening, transport_ready, ch_verified, sh_sent, cf_verified, authorized, messaging,
  closing, closed, can_transition_to, Machine, new, transition_to, check_timeout,
  on_client_hello_received, on_client_finished_received, abort, is_identity_verified,
  is_handshake_complete,
}

pub data Event : Type 0 where
  moves : ℕ → ServerState → Event
  hears_client_hello hears_client_finished : Event
  aborts : ℕ → Event

unfoldable pub step : Machine → Event → Machine
unfolding transition_to on_client_hello_received on_client_finished_received abort
step m (moves now next) = (transition_to m now next).0
step m hears_client_hello = (on_client_hello_received m).0
step m hears_client_finished = (on_client_finished_received m).0
step m (aborts now) = (abort m now).0

abbrev one_if_new : Bool → ServerState → List ServerState
one_if_new true s = s ∷ []
one_if_new false s = []

-- The state that an event enters, if it is let.
entered : ServerState → Event → List ServerState
entered s (moves now next) = one_if_new (can_transition_to s next) next
entered s hears_client_hello = []
entered s hears_client_finished = []
entered s (aborts now) = one_if_new (can_transition_to s closed) closed

unfoldable pub run : Machine → List Event → Machine
run m [] = m
run m (e ∷ es) = run (step m e) es

-- The states entered, in order.
unfoldable pub visited : Machine → List Event → List ServerState
unfolding entered
visited m [] = []
visited m (e ∷ es) = entered m.state e ++ visited (step m e) es

step-rank :
    (m : Machine) (e : Event) (k : ℕ) (vs : List ServerState)
    → rank (step m e).state + length vs ≤ k
    → rank m.state + length (entered m.state e ++ vs) ≤ k
unfolding step entered can_transition_to
step-rank m hears_client_hello k vs h = ground arith
step-rank m hears_client_finished k vs h = ground arith
step-rank m (aborts now) k vs h = ground arith
step-rank m (moves now next) k vs h = ground arith

visited-rank :
    (m : Machine) (es : List Event) → rank m.state + length (visited m es) ≤ rank (run m es).state
unfolding run visited
visited-rank m [] = omega arith
visited-rank m (e ∷ es) = step-rank m e _ (visited (step m e) es) (visited-rank (step m e) es)

rank_max : (s : ServerState) → rank s ≤ 8
rank_max listening = omega arith
rank_max _ = omega arith

-- No run makes more than eight transitions.
pub server_visited-bound : (es : List Event) → length (visited new es) ≤ 8
unfolding new
server_visited-bound es = omega (arith, visited-rank new es, rank_max (run new es).state)

-- The states on the way to a state in which the handshake goes on, the first one left out.
abbrev pub way_to : ServerState → List ServerState
way_to transport_ready = transport_ready ∷ []
way_to ch_verified = transport_ready ∷ ch_verified ∷ []
way_to sh_sent = transport_ready ∷ ch_verified ∷ sh_sent ∷ []
way_to cf_verified = transport_ready ∷ ch_verified ∷ sh_sent ∷ cf_verified ∷ []
way_to authorized = transport_ready ∷ ch_verified ∷ sh_sent ∷ cf_verified ∷ authorized ∷ []
way_to messaging =
    transport_ready ∷ ch_verified ∷ sh_sent ∷ cf_verified ∷ authorized ∷ messaging ∷ []
way_to _ = []

step-way_to :
    (m : Machine) (e : Event)
    → rank (step m e).state < 7
    → way_to m.state ++ entered m.state e ≡ way_to (step m e).state
unfolding step entered can_transition_to
step-way_to m hears_client_hello h = ground (arith, append-nil (way_to m.state))
step-way_to m hears_client_finished h = ground (arith, append-nil (way_to m.state))
step-way_to m (aborts now) h = ground (arith, append-nil (way_to m.state))
step-way_to m (moves now next) h = ground (arith, append-nil (way_to m.state))

visited-way_to_from :
    (m : Machine) (es : List Event)
    → rank (run m es).state < 7
    → way_to m.state ++ visited m es ≡ way_to (run m es).state
unfolding run visited
visited-way_to_from m [] h = append-nil (way_to m.state)
visited-way_to_from m (e ∷ es) h =
    sym (append_assoc (way_to m.state) (entered m.state e) (visited (step m e) es))
    ∙ ap (λ t. t ++ visited (step m e) es)
        (step-way_to m e (omega (arith, visited-rank (step m e) es)))
    ∙ visited-way_to_from (step m e) es h

-- A run that has not begun to close entered every state from the first one on up to the one that
-- it is in, each once and in order.
pub server_visited-way_to :
    (es : List Event)
    → (run new es).state ≢ closing
    → (run new es).state ≢ closed
    → visited new es ≡ way_to (run new es).state
unfolding new
server_visited-way_to es p q = visited-way_to_from new es (open_rank (run new es).state p q)
  where
    open_rank : (s : ServerState) → s ≢ closing → s ≢ closed → rank s < 7
    open_rank closing p q = absurd (p refl)
    open_rank closed p q = absurd (q refl)
    open_rank _ p q = omega arith

abbrev timed : ServerState → Bool
timed listening = false
timed closed = false
timed _ = true

step-timed :
    (m : Machine) (e : Event)
    → m.has_deadline ≡ timed m.state
    → (step m e).has_deadline ≡ timed (step m e).state
unfolding step can_transition_to
step-timed m hears_client_hello h = ground arith
step-timed m hears_client_finished h = ground arith
step-timed m (aborts now) h = ground arith
step-timed m (moves now next) h = ground arith

run-timed_from :
    (m : Machine) (es : List Event)
    → m.has_deadline ≡ timed m.state
    → (run m es).has_deadline ≡ timed (run m es).state
unfolding run
run-timed_from m [] h = h
run-timed_from m (e ∷ es) h = run-timed_from (step m e) es (step-timed m e h)

-- The deadline of the handshake is not taken off when the handshake is over: once a machine that
-- exchanges messages is past it, `CheckTimeout` reports a timeout of the handshake.
pub server_messaging_times_out :
    (es : List Event) (now later : ℕ)
    → (run new es).state ≡ messaging
    → (run new es).deadline < now
    → check_timeout (run new es) now later
      ≡ some (
          timed_out messaging
            (later + (run new es).handshake_timeout - (run new es).deadline)
            (run new es).handshake_timeout)
unfolding check_timeout
server_messaging_times_out es now later h late =
    let armed : (run new es).has_deadline ≡ true =
      unfold new in run-timed_from new es refl ∙ ap timed h in
    ground (arith, armed)

-- A server that closes before any hello was verified counts as having verified the client's
-- identity and completed the handshake.
pub server_early_close_counts_verified :
    (m : Machine) (now : ℕ)
    → m.state ≡ transport_ready
    → (is_identity_verified m.state ≡ false)
      × (is_identity_verified (transition_to m now closing).0.state ≡ true)
      × (is_handshake_complete (transition_to m now closing).0.state ≡ true)
unfolding is_identity_verified is_handshake_complete transition_to
server_early_close_counts_verified m now h = ground arith

step-heard :
    (m : Machine) (e : Event)
    → 1 ≤ rank m.state
    → m.client_hello_received ≡ true
    → (1 ≤ rank (step m e).state) × ((step m e).client_hello_received ≡ true)
unfolding step can_transition_to
step-heard m hears_client_hello h k = ground arith
step-heard m hears_client_finished h k = ground arith
step-heard m (aborts now) h k = ground arith
step-heard m (moves now next) h k = ground arith

run-heard :
    (m : Machine) (es : List Event)
    → 1 ≤ rank m.state
    → m.client_hello_received ≡ true
    → (run m es).client_hello_received ≡ true
unfolding run
run-heard m [] h k = k
run-heard m (e ∷ es) h k = let (h', k') = step-heard m e h k in run-heard (step m e) es h' k'

step-finished :
    (m : Machine) (e : Event)
    → 1 ≤ rank m.state
    → m.client_finished_received ≡ true
    → (1 ≤ rank (step m e).state) × ((step m e).client_finished_received ≡ true)
unfolding step can_transition_to
step-finished m hears_client_hello h k = ground arith
step-finished m hears_client_finished h k = ground arith
step-finished m (aborts now) h k = ground arith
step-finished m (moves now next) h k = ground arith

run-finished :
    (m : Machine) (es : List Event)
    → 1 ≤ rank m.state
    → m.client_finished_received ≡ true
    → (run m es).client_finished_received ≡ true
unfolding run
run-finished m [] h k = k
run-finished m (e ∷ es) h k =
    let (h', k') = step-finished m e h k in run-finished (step m e) es h' k'

-- Once the transport is ready, only one ClientHello is taken: after one, whatever happens between,
-- the next is refused as a duplicate and changes nothing.
pub second_client_hello :
    (m : Machine) (es : List Event)
    → 1 ≤ rank m.state
    → on_client_hello_received (run (on_client_hello_received m).0 es) ≡ (
      run (on_client_hello_received m).0 es,
      some (duplicate_message (run (on_client_hello_received m).0 es).state client_hello),
    )
second_client_hello m es h =
    let m' = (on_client_hello_received m).0 in
    refused (run m' es) (run-heard m' es (same_rank m h) (heard m))
  where
    heard : (n : Machine) → (on_client_hello_received n).0.client_hello_received ≡ true
    heard n = unfold on_client_hello_received in ground arith

    same_rank : (n : Machine) → 1 ≤ rank n.state → 1 ≤ rank (on_client_hello_received n).0.state
    same_rank n p = unfold on_client_hello_received in ground arith

    refused :
        (n : Machine)
        → n.client_hello_received ≡ true
        → on_client_hello_received n ≡ (n, some (duplicate_message n.state client_hello))
    refused n p = unfold on_client_hello_received in ground arith

-- Once the transport is ready, only one ClientFinished is taken: after one, whatever happens between,
-- the next is refused as a duplicate and changes nothing.
pub second_client_finished :
    (m : Machine) (es : List Event)
    → 1 ≤ rank m.state
    → on_client_finished_received (run (on_client_finished_received m).0 es) ≡ (
      run (on_client_finished_received m).0 es,
      some (duplicate_message (run (on_client_finished_received m).0 es).state client_finished),
    )
second_client_finished m es h =
    let m' = (on_client_finished_received m).0 in
    refused (run m' es) (run-finished m' es (same_rank m h) (heard m))
  where
    heard : (n : Machine) → (on_client_finished_received n).0.client_finished_received ≡ true
    heard n = unfold on_client_finished_received in ground arith

    same_rank : (n : Machine) → 1 ≤ rank n.state → 1 ≤ rank (on_client_finished_received n).0.state
    same_rank n p = unfold on_client_finished_received in ground arith

    refused :
        (n : Machine)
        → n.client_finished_received ≡ true
        → on_client_finished_received n ≡ (n, some (duplicate_message n.state client_finished))
    refused n p = unfold on_client_finished_received in ground arith
