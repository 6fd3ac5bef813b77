-- ===== src/Lib.antt =====
-- The verification library of the WhatsApp gateway WP-Open-Omega: models of its server's own
-- logic, written by hand from the TypeScript under src/, with the theorems that make them
-- correct.
--
-- The parts and how they interact. A request passes the API key guard (Auth), which resolves
-- the client's address behind trusted proxies (Net) and validates the key; a handler then sends
-- messages, singly or in bulk (Batch), through the engine of a session. The engine reports back
-- what becomes of a message, and the session service advances its stored status (Message).
-- Events go through the plugins' hooks (Hooks) and out to the receivers that are registered for
-- them (Webhook), behind the guard against requests to internal addresses (Net.Ssrf). Omega
-- administers client companies on top: it copies the gateway's sessions, assigns them to
-- clients within their limits, and counts the stored messages.
--
--
-- Common: Boolean tests, lists measured by native numbers, a JavaScript Map as an association
-- list (lookup, insert and erase are get, set and delete), signed integers, the rows of a table
-- (find_row), texts as lists of code units with split, trim and startsWith, and the masks of
-- 32-bit numbers.
-- Message: src/modules/message/message-status.util.ts, entities/message.entity.ts, and the
-- callbacks onMessageAck and onMessageRevoked of src/modules/session/session.service.ts. A
-- table is the list of its rows, an UPDATE a map over the rows that its WHERE clause takes.
-- Single sends and the history of src/modules/message/message.service.ts are Message.Send,
-- Message.Sent and Message.History.
-- Template: src/common/utils/template-render.ts, the resolution of
-- src/modules/template/template.service.ts and the text of sendTemplate.
-- Hooks: src/core/hooks/hook-manager.service.ts. A manager is a record of its two maps;
-- register, unregister, unregisterPlugin and the queries are functions of it; execute and
-- runHandlers take what a handler does as an argument, and the events in flight on the async
-- context as a list.
-- Batch: src/modules/message/bulk-message.service.ts with its entity and DTO. The world of a
-- running batch is the row in the database, the object that processBatch holds, and the entry
-- of processingBatches; cancelBatch may be answered at every await behind the reading of the
-- row, at most once at each, the last save included, which arguments decide.
-- Net: src/common/utils/ip.ts (Net, Net.Number, Net.Cidr, Net.Proxies) and
-- src/common/security/ssrf-guard.ts (Net.Ssrf, Net.Blocked, Net.Embedded, Net.Fetch).
-- Net.Dotted relates the dotted text of four numbers to the number that the code reads.
-- Auth: src/modules/auth/auth.service.ts (Auth, Auth.Ranges, Auth.Usage, Auth.Rights,
-- Auth.Access), entities/api-key.entity.ts and guards/api-key.guard.ts (Auth.Guard). The table
-- of keys is an association list by id.
-- Webhook: src/modules/webhook/webhook.service.ts: the table (Webhook, Webhook.Urls), the
-- headers of a request (Webhook.Headers), direct delivery with its retries (Webhook.Delivery)
-- and dispatch (Webhook.Dispatch); src/modules/queue/processors/webhook.processor.ts
-- (Webhook.Worker) and src/modules/webhook/utils/idempotency.util.ts (Webhook.Idempotency,
-- Webhook.Keys).
-- Omega: src/modules/omega. The entities (Omega); sessions, clients, plans and users of omega-
-- admin.service.ts (Omega.Sessions, Omega.Clients, Omega.Accounts), the synchronisation
-- (Omega.Sync, Omega.Snapshots), and all of them as requests (Omega.Requests), with what they
-- keep (Omega.Linked, Omega.Placed, Omega.Run, Omega.Limits); omega-usage.service.ts
-- (Omega.Usage, Omega.ClientUsage); omega-auth.service.ts (Omega.Login) and the guards
-- (Omega.Guards). A table is an association list by id or by its unique column; a write that
-- breaks a unique index is refused, and a synchronisation that fails there keeps what it has
-- saved by then.
-- Translation: the commands of
-- src/plugins/extensions/translation/core/translation.coordinator.ts on the state of a group
-- (Translation) and who may change what by them (Translation.Permissions); the sender, the
-- learned language and the targets of a message (Translation.Learning, Translation.Spoken,
-- Translation.Targets); the answers are kept as kinds, without their words.
-- Session: start, stop, the report of a disconnection and the reconnection of
-- src/modules/session/session.service.ts as steps on the memory of one session, each call cut
-- at its awaits, with any number of calls and timers under way at once; the deletion is not one
-- of the steps (Session, Session.Reconnect), and the cache of the phone numbers of senders
-- (Session.Phones).
--
-- Names are the source's in lower case with underscores; a class is a record of the same name,
-- and a method takes the state it reads and returns the state it leaves. The modules named
-- Tests hold runs at concrete inputs.
--
-- Fuel. Nested hook executions recurse through the handlers, so execute is run with as much
-- fuel as there are events; Hooks.Cascade shows that this is enough. The retries of a delivery
-- take the number of configured retries as fuel, and Webhook.Delivery shows that the guard of
-- the source ends them before. The guard against internal addresses recurses into an embedded
-- IPv4 address, which embeds no other, so its depth is 2.
--
-- Parameters. The engine, the hash of a key, the plugins' handlers, the queue, isIPv4, isIPv6,
-- the parsing of a URL, the DNS lookup and the clock's reading are arguments. Of Omega, the
-- calendar, the ids of new rows, random tokens, the key derivation and the digests are
-- arguments too. Writes to the database succeed, and no other writer comes between the read and
-- the write of one request, except in Batch, where the cancellation does, and in Session, where
-- every step may come between the parts of a reconnection.
--
-- Numbers. Counts and times are natural numbers without the rounding that JavaScript has above
-- 2 ^ 53; the counters of a batch are integers; a 32-bit operation keeps its wrap-around.
--
-- Not modelled: the rest of the session service (deletion, messages that come in, chats),
-- reactions, deletion and incoming messages, the parser, the translator's calls and the replies
-- of the translation plugin, the seeding, lists and dashboard of the administration, the plugin
-- loader, storage, cache and infrastructure, the engine adapters, controllers and DTO
-- validation, logging, the dashboard and the SDKs.
pub mod Common
pub mod Message
pub mod Hooks
pub mod Batch
pub mod Auth
pub mod Net
pub mod Session
pub mod Webhook
pub mod Translation
pub mod Template
pub mod Omega
