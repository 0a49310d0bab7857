-- ===== src/Protocol/Commands/TimeOuts.antt =====
-- A command that times out is remembered, among at most 64.
use text.Mathlib.TextPositions.{eq_refl}
use jak3_ap.Prelude.{
  ℕ, suc, ◌≡◌, ◌≤◌, refl, sym, ap, subst, Bool, Option, some, List, [], ◌∷◌, Result, ok, err,
  length, arith, true, String, if_lem, ℤ, Error,
}
use jak3_ap.Persistence.Identity.{Platform}
use jak3_ap.Protocol.Messages.{BridgeSnapshot, ProtocolCommand}
use jak3_ap.Protocol.TimedOut.{observe_command_recovery, TimedOutCommand, has_key, find, put, evict}
use jak3_ap.Protocol.TimedOut.Recovery.{length-observe_command_recovery}
use jak3_ap.Protocol.Session.{BridgeState, Answer, propose, observe_snapshot}
use jak3_ap.Protocol.Commands.{
  exchange, admit_command, reserve, record_failure, transmit, admitted, send_command, is_timed_out,
}
use jak3_ap.Protocol.Commands.Keeps.{exchange_lem}

unfoldable pub Bounded : BridgeState → Type 0
Bounded s = length s.timed_out_commands ≤ 64

propose_keeps :
    (proposal : Result String) (s : BridgeState) → Bounded s → Bounded (propose proposal s).1
unfolding propose Bounded
propose_keeps (err e) s h = h
propose_keeps (ok identity) s h = h

observe_keeps :
    (proposal : Result String) (snapshot : BridgeSnapshot) (s : BridgeState)
    → Bounded s
    → Bounded (observe_snapshot proposal snapshot s).1
unfolding observe_snapshot Bounded
observe_keeps proposal snapshot s h =
    let k : length (
          observe_command_recovery snapshot.session_nonce snapshot.recent_command_receipts
            s.timed_out_commands)
        ≤ 64 =
      omega (
        arith,
        h,
        length-observe_command_recovery snapshot.session_nonce snapshot.recent_command_receipts
            s.timed_out_commands,
      ) in
    if_lem {A = Result (Unit {0}) × BridgeState} (λ r. Bounded r.1) _ (propose_keeps proposal _ k) k

length-put :
    (nonce : String) (id : ℕ) (kind : ProtocolCommand) (commands : List TimedOutCommand)
    → length (put nonce id kind commands) ≤ suc (length commands)
unfolding put
length-put nonce id kind [] = omega arith
length-put nonce id kind (entry ∷ commands) = ground (arith, length-put nonce id kind commands)

find-put :
    (nonce : String) (id : ℕ) (kind : ProtocolCommand) (commands : List TimedOutCommand)
    → find nonce id (put nonce id kind commands) ≡ some kind
unfolding put find has_key
find-put nonce id kind [] = ground (arith, eq_refl nonce)
find-put nonce id kind (entry ∷ commands) = ground (arith, find-put nonce id kind commands)

length-evict : (commands : List TimedOutCommand) → length (evict commands) ≤ 64
unfolding evict
length-evict [] = omega arith
length-evict (entry ∷ commands) = ground (arith, length-evict commands)

evict_short : (commands : List TimedOutCommand) → length commands ≤ 64 → evict commands ≡ commands
unfolding evict
evict_short [] h = refl
evict_short (entry ∷ commands) h = ground (arith, h)

find-evict :
    (nonce : String) (id : ℕ) (kind : ProtocolCommand) (commands : List TimedOutCommand)
    → length commands ≤ 64
    → find nonce id (evict (put nonce id kind commands)) ≡ some kind
unfolding put find evict
find-evict nonce id kind [] h = find-put nonce id kind []
find-evict nonce id kind (entry ∷ commands) h =
    let l : length (put nonce id kind commands) ≤ 64 =
      omega (arith, h, length-put nonce id kind commands) in
    ground (
      arith,
      h,
      evict_short (put nonce id kind commands) l,
      find-put nonce id kind commands,
      find-put nonce id kind (entry ∷ commands),
    )

record_failure-Bounded :
    (nonce : String) (id : ℕ) (kind : ProtocolCommand) (result : Result BridgeSnapshot)
    (s : BridgeState)
    → Bounded s
    → Bounded (record_failure nonce id kind result s)
unfolding record_failure Bounded
record_failure-Bounded nonce id kind (ok snapshot) s h = h
record_failure-Bounded nonce id kind (err e) s h =
    if_lem {A = BridgeState} Bounded _ (length-evict (put nonce id kind s.timed_out_commands)) h

record_failure-timed_out :
    (nonce : String) (id : ℕ) (kind : ProtocolCommand) (result : Result BridgeSnapshot)
    (s : BridgeState) (e : Error)
    → Bounded s
    → result ≡ err e
    → is_timed_out e ≡ true
    → find nonce id (record_failure nonce id kind result s).timed_out_commands ≡ some kind
unfolding record_failure Bounded
record_failure-timed_out nonce id kind result s e h r t =
    rw (r, t) (find-evict nonce id kind s.timed_out_commands h)

exchange-Bounded :
    (p : Platform) (predicate : BridgeSnapshot → Bool) (form : Result (Unit {0})) (answer : Answer)
    (s : BridgeState)
    → Bounded s
    → Bounded (exchange p predicate form answer s).1
exchange-Bounded p predicate form answer s h =
    exchange_lem Bounded observe_keeps p predicate form answer s h

transmit-Bounded :
    (p : Platform) (kind : ProtocolCommand) (nonce : String) (id : ℕ) (answer : Answer)
    (s : BridgeState)
    → Bounded s
    → Bounded (transmit p kind nonce id answer s).state
unfolding transmit
transmit-Bounded p kind nonce id answer s h =
    record_failure-Bounded nonce id kind _ _
      (exchange-Bounded p _ _ answer (reserve id s) (unfold reserve Bounded in h))

transmit-timed_out :
    (p : Platform) (kind : ProtocolCommand) (nonce : String) (id : ℕ) (answer : Answer)
    (s : BridgeState) (e : Error)
    → Bounded s
    → (transmit p kind nonce id answer s).result ≡ err e
    → is_timed_out e ≡ true
    → find nonce id (transmit p kind nonce id answer s).state.timed_out_commands ≡ some kind
unfolding transmit
transmit-timed_out p kind nonce id answer s e h r t =
    record_failure-timed_out nonce id kind _ _ e
      (exchange-Bounded p _ _ answer (reserve id s) (unfold reserve Bounded in h)) r t

admitted-Bounded :
    (p : Platform) (kind : ProtocolCommand) (answer : Answer) (s : BridgeState)
    (a : Result (String × ℕ))
    → Bounded s
    → Bounded (admitted p kind answer s a).state
unfolding admitted
admitted-Bounded p kind answer s (err e) h = h
admitted-Bounded p kind answer s (ok (nonce, id)) h = transmit-Bounded p kind nonce id answer s h

-- A call of `send_command` keeps at most 64 commands remembered as timed out.
pub send_command-Bounded :
    (p : Platform) (kind : ProtocolCommand) (payload : ℤ) (command_id : Option ℤ) (answer : Answer)
    (s : BridgeState)
    → Bounded s
    → Bounded (send_command p kind payload command_id answer s).state
unfolding send_command
send_command-Bounded p kind payload command_id answer s h =
    admitted-Bounded p kind answer s (admit_command kind payload command_id s) h

-- A command that passes the checks of `send_command` and then fails as timed out is remembered
-- under its session and its ID, with its kind, if at most 64 commands were remembered before.
pub send_command-timed_out :
    (p : Platform) (kind : ProtocolCommand) (payload : ℤ) (command_id : Option ℤ) (answer : Answer)
    (s : BridgeState) (nonce : String) (id : ℕ) (e : Error)
    → Bounded s
    → admit_command kind payload command_id s ≡ ok (nonce, id)
    → (send_command p kind payload command_id answer s).result ≡ err e
    → is_timed_out e ≡ true
    → find nonce id (send_command p kind payload command_id answer s).state.timed_out_commands
      ≡ some kind
unfolding send_command
send_command-timed_out p kind payload command_id answer s nonce id e h a r t =
    let same = ap (admitted p kind answer s) a in
    subst (λ o. find nonce id o.state.timed_out_commands ≡ some kind) (sym same)
      (unfold admitted in
        transmit-timed_out p kind nonce id answer s e h (subst (λ o. o.result ≡ err e) same r) t)
