-- ===== src/Lib.antt =====
-- The quota and relay core of the gateway: a day's token quota of one pool is owned by one
-- durable object, the quota controller, and a gateway worker and a Deno relay spend it through
-- that object's calls. This library models the controller, the relay's wire format and
-- credentials, the gateway's side of the relay, and the arithmetic that they share.
--
-- How the parts interact. A relay request comes with a signed context, which
-- packages/shared/src/relay-credential.ts verifies and relay-claims.ts validates. A decision
-- controller of the gateway, one of 64 by the request id, checks the request against the
-- registry and the policy of the client. The budget of packages/shared/src/estimate.ts says how
-- many tokens it reserves. The controller admits it in one transaction: the tokens are reserved,
-- a lease is taken and a grant is stored; the gateway signs a credential for the grant. With it,
-- through callbacks of the gateway, the relay then activates the grant, renews its lease and
-- reports its end; each of these is one transaction that moves the request through its
-- lifecycle. Requests of the older route reserve, settle and release without a grant; the
-- gateway repeats a reservation that throws once. Reconciliation closes what stays open, and
-- finalization deletes a day on which nothing is open.
--
-- Files and code.
--   Common and its children: texts, dictionaries, numbers, Boolean tests.
--   Shared: packages/shared/src/types.ts, pool.ts, idempotency.ts, estimate.ts, classify.ts.
--     Shared/Number is what the guards tell of a JavaScript number; Shared/Calendar is the
--     calendar of the platform's Date, on which nextUtcMidnight rests, with the years up to 99
--     that Date.UTC reads as 1900 to 1999; Shared/Budget is resolveRelayTokenBudget.
--   Relay: packages/shared/src/relay.ts, relay-errors.ts, relay-json.ts, relay-parse.ts,
--     relay-claims.ts. Relay/Value is a JavaScript value at the parse boundary; Relay/Duplicates
--     is hasDuplicateJsonKeys, and Relay/Body parseRelayJsonBody.
--   Relay/Base64, Relay/Canonical, Relay/Kinds, Relay/Credential: relay-credential.ts;
--     signRelayToken is sign_relay_token. Relay/Routing: relay-routing.ts.
--   Gateway/Decide: decide of apps/gateway-worker/src/relay-decision-controller.ts; its early
--     guards are Gateway/Decide/Guards. Gateway/Callback: handleGrantCallback of
--     relay-callback.ts; Gateway/DecisionCallback: handleDecision. Gateway/Auth: relay-auth.ts.
--     Gateway/Claims: relay-grant-claims.ts. Gateway/Policy: policy.ts. Gateway/Budget:
--     token-budget.ts. Gateway/Reservation: quota-reservation.ts.
--   Quota/Store, Quota/Leases: durable-objects/quota-controller/src/store.ts and
--     relay-config.ts. The storage is a record with a field for each fixed key and a dictionary
--     for each key prefix.
--   Quota/Lifecycle: quota-lifecycle.ts; applyQuotaLifecycleTransition is
--     apply_quota_lifecycle_transition.
--   Quota/Reserve: reserve and getState of quota-controller.ts.
--   Quota/Admission: relay-admission.ts. Quota/Grant, Quota/GrantLifecycle: relay-grant.ts,
--     relay-grant-lifecycle.ts.
--   Quota/CpuGate, Quota/Slot: relay-cpu-gate.ts, relay-cpu-gate-slot.ts.
--   Quota/Controller: the calls of quota-controller.ts that write, and the days that they reach.
--     Quota/Invariant: what a sound storage is.
--   Modules named Tests hold runs at concrete inputs, on the data of the modules named Samples.
--
-- How state is modelled. An operation takes the storage and returns its answer with the storage
-- after it. A call that throws is a failed result; its transaction leaves the storage as it was.
-- Clock holds what one call reads of the time and of the random ids. The time that is given to
-- the relay operations is a number of its own. Transactions do not interleave; finalizeDay and
-- the close of a slot, which await between transactions, are several steps. The gateway's quota
-- controllers are a dictionary of storages by name; its caches and its cached signing key are
-- state. A text that is signed or scanned is the list of its UTF-16 units or code points, and
-- bytes are a list of numbers.
--
-- Bounds. Natural numbers are exact; the code rejects what is not a safe integer before it
-- computes, and the sums of the pool's counters are taken not to leave the safe integers.
-- Math.max(0, a - b) on counts is subtraction on the natural numbers. The margins of the budget
-- are exact ceilings, which the products of doubles agree with up to 2 ^ 50. The scan for
-- duplicate keys is on fuel, the length of its text, which is shown to be enough; a number is
-- printed with as many digits as a safe integer has, 16. Every other loop is a recursion on a
-- list, or on the number that it counts.
--
-- Not modelled: the transport, the gateway's proxy and pages, the entry of the callbacks, the
-- tokenizers and the Deno relay, normalization of request bodies, usage reading, scripts and
-- migrations. What the platform does is a parameter: importKey and sign of its cryptography, the
-- UTF-8 decoder, JSON.parse, atob, and the test of the endpoint, which rests on URL. A key whose
-- import fails, which leaves the cache, is left out. One decision reads one time. The text
-- encoding and the SHA-256 digest are parameters of the admission. A finalization of a day is
-- assumed not to overlap with another one of the same day. The second controller that the close
-- of a slot asks is an argument, and so is what other calls do to the slot meanwhile. What other
-- calls do between the two calls of a quota controller in one decision is an argument too;
-- between an admission and its release none comes.
pub mod Common
pub mod Shared
pub mod Relay
pub mod Quota
pub mod Gateway
