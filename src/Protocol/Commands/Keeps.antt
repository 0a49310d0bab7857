-- ===== src/Protocol/Commands/Keeps.antt =====
-- What the wait for an answer leaves as it was.
use jak3_ap.Prelude.{Bool, Option, none, some, List, [], ◌∷◌, Result, ok, err, true, String}
use jak3_ap.Persistence.Identity.{Platform}
use jak3_ap.Protocol.Messages.{BridgeSnapshot}
use jak3_ap.Protocol.Session.{
  BridgeState, Poll, Answer, observe_snapshot, observe_read, observe_poll, conclude, wait_for,
}
use jak3_ap.Protocol.Commands.{after_send, exchange}

module _ {κ} (Inv : BridgeState → Type κ)
    (step : (proposal : Result String) (snapshot : BridgeSnapshot) (s : BridgeState)
      → Inv s
      → Inv (observe_snapshot proposal snapshot s).1) where
  read_lem :
      (read : Option BridgeSnapshot) (proposal : Result String) (s : BridgeState)
      → Inv s
      → Inv (observe_read read proposal s).1
  unfolding observe_read
  read_lem none proposal s h = h
  read_lem (some snapshot) proposal s h = step proposal snapshot s h

  poll_lem : (poll : Poll) (s : BridgeState) → Inv s → Inv (observe_poll poll s).1
  unfolding observe_poll
  poll_lem poll s h = read_lem poll.snapshot poll.proposal s h

  conclude_lem :
      (seen : Result (Option BridgeSnapshot)) (rest : Result BridgeSnapshot × BridgeState)
      (s : BridgeState)
      → Inv s
      → Inv rest.1
      → Inv (conclude seen rest s).1
  unfolding conclude
  conclude_lem (err e) rest s h k = h
  conclude_lem (ok none) rest s h k = k
  conclude_lem (ok (some snapshot)) rest s h k = h

  -- An invariant of the observation of a snapshot is one of the wait.
  pub wait_for_lem :
      (p : Platform) (predicate : BridgeSnapshot → Bool) (check_versions : Bool) (polls : List Poll)
      (s : BridgeState)
      → Inv s
      → Inv (wait_for p predicate check_versions polls s).1
  unfolding wait_for
  wait_for_lem p predicate check_versions [] s h = h
  wait_for_lem p predicate check_versions (poll ∷ polls) s h =
      let k = poll_lem poll s h in
      conclude_lem _ _ _ k (wait_for_lem p predicate check_versions polls _ k)

  after_send_lem :
      (sent : Result (Unit {0})) (s : BridgeState) (waited : Result BridgeSnapshot × BridgeState)
      → Inv s
      → Inv waited.1
      → Inv (after_send sent s waited).1
  unfolding after_send
  after_send_lem (err e) s waited h k = h
  after_send_lem (ok u) s waited h k = k

  -- An invariant of the observation of a snapshot is one of an exchange.
  pub exchange_lem :
      (p : Platform) (predicate : BridgeSnapshot → Bool) (form : Result (Unit {0}))
      (answer : Answer) (s : BridgeState)
      → Inv s
      → Inv (exchange p predicate form answer s).1
  unfolding exchange
  exchange_lem p predicate form answer s h =
      after_send_lem _ s _ h (wait_for_lem p predicate true answer.polls s h)
