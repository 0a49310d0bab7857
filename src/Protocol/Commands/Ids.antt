-- ===== src/Protocol/Commands/Ids.antt =====
-- An automatically numbered command never reuses the ID of an earlier one.
use jak3_ap.Prelude.{
  ℕ, suc, ◌≡◌, refl, sym, ◌∙◌, subst, Bool, Option, none, some, List, [], ◌∷◌, ◌++◌, Result, ok,
  err, arith, true, false, String, int_ltb, int_max, if_lem, pos, ℤ, All,
}
use jak3_ap.IdSet.{member}
use jak3_ap.Persistence.Identity.{Platform}
use jak3_ap.Protocol.Messages.{BridgeSnapshot, ProtocolCommand}
use jak3_ap.Protocol.Session.{BridgeState, Answer, propose, observe_snapshot}
use jak3_ap.Protocol.Commands.{
  latest, admit_ping, exchange, admit_command, check_id, selected_id, reserve, record_failure,
  transmit, admitted, send_command, ping, ping_with, after_ping,
}
use jak3_ap.Protocol.Commands.Keeps.{exchange_lem}

propose_keeps :
    (proposal : Result String) (s : BridgeState)
    → (propose proposal s).1.next_command_id ≡ s.next_command_id
unfolding propose
propose_keeps (err e) s = refl
propose_keeps (ok identity) s = refl

observe_keeps :
    (proposal : Result String) (snapshot : BridgeSnapshot) (s : BridgeState)
    → (observe_snapshot proposal snapshot s).1.next_command_id ≡ s.next_command_id
unfolding observe_snapshot
observe_keeps proposal snapshot s =
    if_lem {A = Result (Unit {0}) × BridgeState} (λ r. r.1.next_command_id ≡ s.next_command_id) _
      (propose_keeps proposal _) refl

admitted_id :
    (kind : ProtocolCommand) (payload : ℤ) (s : BridgeState) (nonce : String) (id : ℕ)
    → admit_command kind payload none s ≡ ok (nonce, id)
    → s.next_command_id ≡ pos id
unfolding admit_command selected_id check_id
admitted_id kind payload s nonce id h = ground arith

exchange_keeps :
    (p : Platform) (predicate : BridgeSnapshot → Bool) (form : Result (Unit {0})) (answer : Answer)
    (s : BridgeState)
    → (exchange p predicate form answer s).1.next_command_id ≡ s.next_command_id
exchange_keeps p predicate form answer s =
    exchange_lem (λ s'. s'.next_command_id ≡ s.next_command_id)
      (λ proposal snapshot s' h. observe_keeps proposal snapshot s' ∙ h) p predicate form answer s
      refl

record_failure_keeps :
    (nonce : String) (id : ℕ) (kind : ProtocolCommand) (result : Result BridgeSnapshot)
    (s : BridgeState)
    → (record_failure nonce id kind result s).next_command_id ≡ s.next_command_id
unfolding record_failure
record_failure_keeps nonce id kind (ok snapshot) s = refl
record_failure_keeps nonce id kind (err e) s =
    if_lem {A = BridgeState} (λ s'. s'.next_command_id ≡ s.next_command_id) _ refl refl

transmit_next :
    (p : Platform) (kind : ProtocolCommand) (nonce : String) (id : ℕ) (answer : Answer)
    (s : BridgeState)
    → (transmit p kind nonce id answer s).state.next_command_id
      ≡ int_max s.next_command_id (pos (suc id))
unfolding transmit
transmit_next p kind nonce id answer s =
    record_failure_keeps nonce id kind _ _
    ∙ exchange_keeps p _ _ answer (reserve id s)
    ∙ (unfold reserve in refl)

after_ping_keeps :
    (sequence : Option ℤ) (n : ℕ) (r : Result BridgeSnapshot × BridgeState)
    → (after_ping sequence n r).1.next_command_id ≡ r.1.next_command_id
unfolding after_ping
after_ping_keeps sequence n (err e, s) = refl
after_ping_keeps sequence n (ok snapshot, s) =
    if_lem {A = Result BridgeSnapshot × BridgeState} (λ r. r.1.next_command_id ≡ s.next_command_id)
      _ refl refl

ping_with_keeps :
    (p : Platform) (sequence : Option ℤ) (before : Option BridgeSnapshot) (answer : Answer)
    (s : BridgeState) (a : Result (String × ℕ))
    → (ping_with p sequence before answer s a).1.next_command_id ≡ s.next_command_id
unfolding ping_with
ping_with_keeps p sequence before answer s (err e) = refl
ping_with_keeps p sequence before answer s (ok (nonce, n)) =
    after_ping_keeps sequence n _ ∙ exchange_keeps p _ _ answer s

ping_keeps :
    (p : Platform) (sequence : Option ℤ) (read : Option BridgeSnapshot) (answer : Answer)
    (s : BridgeState)
    → (ping p sequence read answer s).1.next_command_id ≡ s.next_command_id
unfolding ping
ping_keeps p sequence read answer s =
    ping_with_keeps p sequence (latest read s.last_snapshot) answer s (admit_ping sequence s)

-- A call of a session that is under way.
pub data Request : Type 0 where
  command : ProtocolCommand → ℤ → Option ℤ → Answer → Request
  pinging : Option ℤ → Option BridgeSnapshot → Answer → Request

ids : Option ℕ → List ℕ
ids none = []
ids (some id) = id ∷ []

-- the IDs of the commands that the calls submit, the last one first, and the state after them
unfoldable pub run : Platform → List Request → BridgeState → List ℕ × BridgeState
unfolding ids
run p [] s = ([], s)
run p (Request.command kind payload id answer ∷ earlier) s =
    let (submitted, s') = run p earlier s in
    let outcome = send_command p kind payload id answer s' in
    (ids outcome.submitted ++ submitted, outcome.state)
run p (Request.pinging sequence read answer ∷ earlier) s =
    let (submitted, s') = run p earlier s in (submitted, (ping p sequence read answer s').1)

Below : ℤ → List ℕ → Type 0
Below next = All (λ id. int_ltb (pos id) next ≡ true)

below_max :
    (next : ℤ) (id n : ℕ)
    → int_ltb (pos n) next ≡ true
    → int_ltb (pos n) (int_max next (pos (suc id))) ≡ true
below_max next id n h = ground arith

reserved : (next : ℤ) (id : ℕ) → int_ltb (pos id) (int_max next (pos (suc id))) ≡ true
reserved next id = ground arith

Below-more :
    (next : ℤ) (id : ℕ) (xs : List ℕ) → Below next xs → Below (int_max next (pos (suc id))) xs
unfolding Below
Below-more next id [] h = tt
Below-more next id (n ∷ xs) h = (below_max next id n h.0, Below-more next id xs h.1)

admitted-Below :
    (p : Platform) (kind : ProtocolCommand) (answer : Answer) (s : BridgeState)
    (a : Result (String × ℕ)) (xs : List ℕ)
    → Below s.next_command_id xs
    → Below
        (admitted p kind answer s a).state.next_command_id
        (ids (admitted p kind answer s a).submitted ++ xs)
unfolding admitted ids
admitted-Below p kind answer s (err e) xs h = h
admitted-Below p kind answer s (ok (nonce, id)) xs h =
    subst (λ next. Below next (ids (transmit p kind nonce id answer s).submitted ++ xs))
      (sym (transmit_next p kind nonce id answer s))
      (unfold transmit Below in
        (reserved s.next_command_id id, unfold Below in Below-more s.next_command_id id xs h))

run-Below :
    (p : Platform) (requests : List Request) (s : BridgeState)
    → Below (run p requests s).1.next_command_id (run p requests s).0
unfolding run send_command
run-Below p [] s = unfold Below in tt
run-Below p (Request.command kind payload id answer ∷ earlier) s =
    admitted-Below p kind answer _ _ _ (run-Below p earlier s)
run-Below p (Request.pinging sequence read answer ∷ earlier) s =
    subst (λ next. Below next (run p earlier s).0)
      (sym (ping_keeps p sequence read answer (run p earlier s).1)) (run-Below p earlier s)

not-Below : (id : ℕ) (xs : List ℕ) → Below (pos id) xs → member id xs ≡ false
unfolding Below member
not-Below id [] h = refl
not-Below id (n ∷ xs) h = ground (arith, h.0, not-Below id xs h.1)

admitted_submits :
    (p : Platform) (kind : ProtocolCommand) (answer : Answer) (s : BridgeState)
    (a : Result (String × ℕ)) (id : ℕ)
    → (admitted p kind answer s a).submitted ≡ some id
    → (nonce : String) × (a ≡ ok (nonce, id))
unfolding admitted transmit
admitted_submits p kind answer s (err e) id h = cc
admitted_submits p kind answer s (ok (nonce, n)) id h = (nonce, cc)

-- Whatever calls of `send_command` and `ping` a session has made, and whatever their outcomes, an
-- ID that `send_command` then chooses by itself is none of those that the session has submitted.
pub send_command_fresh :
    (p : Platform) (requests : List Request) (s : BridgeState) (kind : ProtocolCommand)
    (payload : ℤ) (answer : Answer) (id : ℕ)
    → (send_command p kind payload none answer (run p requests s).1).submitted ≡ some id
    → member id (run p requests s).0 ≡ false
unfolding send_command
send_command_fresh p requests s kind payload answer id h =
    let (nonce, a) = admitted_submits p kind answer _ _ id h in
    not-Below id _ (
      subst (λ next. Below next (run p requests s).0)
        (admitted_id kind payload (run p requests s).1 nonce id a) (run-Below p requests s))
