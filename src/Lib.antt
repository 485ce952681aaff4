-- ===== src/Lib.antt =====
-- WaaS, workspaces as a service: a verification of parts of its Go code.
--
-- The operator runs workspaces on Kubernetes: it resolves the policy that governs a user, admits
-- or denies a workspace and its size, and starts and stops it by schedule. The web tunnel (wwt)
-- carries a Guacamole session between the browser's WebSocket and guacd: it cuts the byte stream
-- into whole instructions and holds the clipboard to the rights in the token.
--
-- Prelude: names of the libraries, Boolean tests on numbers, lists and byte strings shared by
-- all.
-- Guac: wwt/internal/guac. Guac/Instruction is instruction.go (Instruction, Encode, writeElement,
-- ReadInstruction); Guac/Framing is framing.go (Framer, Push, completePrefix, IsInternalPing,
-- IsInternalMessage); Guac/Clipboard is clipboard.go (ClipboardFilter and its methods,
-- rewriteWithReplies, HandleControl). Guac/Handshake is handshake.go (Handshake, paramValue,
-- send), over a connection that takes any number of writes and then no more. Guac/Utf8 and
-- Guac/Decimal are what these use of Go's unicode/utf8, fmt and strconv; Guac/Result holds their
-- errors.
-- Tunnel: the function pipe of wwt/internal/proxy/proxy.go. A step is one read of one pipe; a
-- session is any sequence of steps. The filter is shared by both pipes, and its mutex makes each
-- method one step. When a pipe returns, the code closes both connections; here the other pipe may
-- go on for a while, so the sessions of the code are among those of the model.
-- Schedule: operator/pkg/schedule/schedule.go (Spec, Validate, nextOf, lastOf, ScheduledDown,
-- NextEdge, Resolve). The cron library and the zone data are the record Cron; Schedule/Laws
-- states what is relied on. Schedule/Scan and Schedule/Rule are about lastOf and ScheduledDown,
-- Schedule/Edges about NextEdge, Schedule/Manual about Resolve.
-- Policy: operator/pkg/policy/policy.go over the API types of operator/api/v1alpha1. Policy holds
-- identities, subjects and Resolve; Policy/Catalog the images (ImageAllowed, AllowedImages,
-- FindImage, CheckTagDiscipline, imageTag, CheckProtocol); Policy/Quota the loads (LoadOf,
-- OwnerLoads, RetainedVolumeLoads), and Policy/Quota/Limits CheckLimits, over the record
-- Quantities for the quantities of the Kubernetes libraries, of which Policy/Quota/Lighter states
-- what is relied on. The sort is an insertion sort by the comparison of the source.
-- Metakeys: operator/pkg/metakeys/metakeys.go (CheckKey, Check, MergeAllowed).
-- Naming: operator/pkg/naming/naming.go (labels, ResolveNamespace, PersonalNamespace), over the
-- record Tables. A pattern is cut into pieces as its regular expression does.
-- Params: operator/pkg/params/params.go. Params/Types, Params/Desktop and Params/Other hold the
-- registry; Params/Listing is about ForProtocol and Lookup, Params/Delegation about
-- ResolveUserParamNames and ValidateUserParamNames, Params/Gates about ValidateUserOverrides.
-- EventHub: api-server/internal/service/event_hub.go. A step is one call under the mutex or one
-- read of a stream; the gauge of clients, which Subscribe raises just after the mutex, is part of
-- its step.
-- Policy/Objects, Policy/Overrides: what is read of workspaces and templates, IdentityOf,
-- overrides.go and CheckOverrides; Policy/Entitled is about who may override what.
-- Governance: operator/internal/controller/workspace_governance.go over what the cluster lists;
-- Governance/Admission and Governance/Expiry are about evaluateGovernance and enforceLifetime.
-- Session: the rest of wwt. Session holds wwt/internal/jwks/jwks.go and the token checks, over
-- the record Jwt; Session/Gateway is ServeHTTP of wwt/internal/proxy/proxy.go, Session/Kasm is
-- wwt/internal/kasm/kasm.go; Session/Keys, Session/Gate and Session/Desk are about them. Requests
-- list their effects in order.
-- Controller: operator/internal/controller. Controller/Status is workspace_status.go,
-- Controller/Failure is workload_failure.go, Controller/Janitor is namespace_janitor.go,
-- Controller/Placement is placement.go; Controller/Conditions, Controller/Reclaim and
-- Controller/Owned are about them.
-- Sweeper: api-server/internal/service/idle_sweeper.go and session_sweeper.go, one pass each;
-- Sweeper/Idle and Sweeper/Orphans are about them.
-- Webhook: operator/internal/webhook/v1alpha1/workspace_webhook.go; Webhook is the checks that
-- hold for everyone and the identity, Webhook/Enforce is the rest of validate; Webhook/Denials,
-- Webhook/Frozen, Webhook/Lawful, Webhook/Placed, Webhook/Governed and Webhook/Unowned are about
-- what is admitted.
-- Templates: operator/internal/webhook/v1alpha1/workspacetemplate_webhook.go and
-- operator/pkg/kasmcfg/kasmcfg.go; Templates/Sound is about what is admitted.
-- HostGuard: api-server/internal/service/remote_host_guard.go; HostGuard/Ranges and
-- HostGuard/Outside are about it.
-- Tests: runs of the definitions, and each theorem at a concrete input.
--
-- Numbers are natural numbers. The lengths on the wire are bounded by MaxPendingBytes (2^20)
-- before they are used, so no machine integer wraps; Guac/Decimal keeps the 64-bit bounds of
-- Atoi. A Go map used as a set of streams is a list of its members. Loops whose end is not by
-- structure carry a bound on their rounds: one more than the bytes left, of which every round
-- takes one at least, and 200000 in lastOf, as in the source. Error values keep which error it is
-- and drop its text.
--
-- Not modelled: the reconcile loop of the operator, the building of workloads, the rest of the
-- api-server, the frontend.
mod Prelude
pub mod Guac
pub mod Tunnel
pub mod Schedule
pub mod Policy
pub mod Metakeys
pub mod Naming
pub mod Params
pub mod EventHub
pub mod Governance
pub mod Controller
pub mod Sweeper
pub mod HostGuard
pub mod Webhook
pub mod Templates
pub mod Session
mod Tests
