-- ===== src/Lib.antt =====
-- The MikroTik bandwidth monitor: an API server that keeps routers of several organizations,
-- tests and polls them over their own protocols, and shows what it found in a web application. This
-- library models the code that talks to the routers, the code that keeps their secrets, the poller,
-- the procedures of the API with the checks of their inputs, the seed script, and of the web
-- application the dialog that adds a device and the states and contents of its pages.
--
-- * RouterOs (apps/api/src/lib/routeros-api.ts): the binary API. Wire has the byte format
--   (encodeLength, encodeWord, encodeSentence, decodeLength, decodeWords), Length, Frames,
--   Reading, RoundTrip, Chunks and Runaway its laws; Length.Protocol has the length prefixes as
--   the protocol has them. Attributes has wordsToAttrs, Uptime parseUptime and parseInt, Session the
--   socket conversation of collectRouterMetrics as a state and a handler for each event, with
--   testBinaryApiConnection; Laws, Promise and Conversation are about whole runs of it.
-- * Rest (apps/api/src/lib/routeros-rest.ts): the request of testRestConnection and what is made of
--   its outcome.
-- * Snmp (apps/api/src/lib/snmp-test.ts): the request that is sent, the search for the answer,
--   and the version read from it; Request reads the request back by the rules of BER, Response
--   says what the search finds, Session is testSnmpConnection as a state and its events.
-- * Encryption (apps/api/src/lib/encryption.ts): credentials at rest, over a parameter for the
--   cipher and base64.
-- * Api.Database, Api.Schema, Api.Context: PostgreSQL as a parameter with the laws that the
--   routers rely on, the rows of packages/db/src/schema, and createContext and the guards of
--   apps/api/src/trpc/context.ts and init.ts.
-- * Api.Devices (apps/api/src/trpc/routers/devices.ts): every procedure; Tenancy says whose rows
--   they read and change, Pages and Paging what the pages of the list give. Api.Config
--   (routers/config.ts): snapshots and their line diff; Diff says what it reports and Tenancy whose
--   snapshots it reads. Api.Orgs (routers/orgs.ts): the profile and the members of an organization;
--   Ownership is about its owner.
-- * Api.Alerts (routers/alerts.ts): alert rules and events; Api.Tenancy says, for a statement on
--   any table, what it leaves of other organizations. Api.Sites, Api.Audit and Api.Billing
--   (routers/sites.ts, audit.ts, billing.ts): every procedure. Api.Auth: the procedures of
--   routers/auth.ts and the middleware of plain routes (apps/api/src/middleware).
-- * Api.Seed (packages/db/src/seed.ts): the seed script; Again is about running it twice.
-- * Inputs (packages/types/src): the bounds and patterns that zod checks; Slug is about the slugs of
--   organizations, Wizard about what the dialog sends to the API.
-- * Poller (apps/api/src/lib/device-poller.ts): one round of polling; Laws says which devices it
--   leaves.
-- * Web.Wizard (apps/web/src/components/add-device-wizard): the dialog that adds a device, as a
--   state and its events. State has useWizardState, Forms the fields of the steps; Tags, Soundness,
--   Moves, Answers and Reachable are its invariant, Returns is about going back.
-- * Web.Alerts (apps/web/src/app/(dashboard)/alerts/page.tsx): the page of alert rules and its
--   dialog, in the same way; Channels and Reachable are its invariant. Web.Account
--   (app/(auth)/signup/page.tsx and login/page.tsx): the two forms. Web.Settings
--   (app/(dashboard)/settings/page.tsx): the forms of the organization and of its members; Saved
--   puts the first together with Api.Orgs.
-- * Web.Devices (app/(dashboard)/devices/page.tsx and components/device-status-badge.tsx): the query
--   and what is shown of its answer; Shown puts it together with Api.Devices. Web.Detail and
--   Web.Monitoring (app/(dashboard)/devices/[id]/page.tsx and monitoring/page.tsx): what they show and
--   count; Counts puts the counts together with Api.Devices. Web.Sidebar: components/sidebar.tsx and the retries of lib/trpc.ts. Web.Format has the
--   times that the pages show, Web.Text the methods of strings that the components call, Web.Unique
--   lists without repetition.
-- * Tests has runs at concrete inputs, a database of lists, and instances of the theorems.
--
-- Bytes are numbers; a Buffer and a text are lists of bytes, a text by its UTF-8 encoding. What
-- arrives is decoded by Prelude.Utf8, in which bytes that are not UTF-8 become U+FFFD. Where the
-- code counts or trims the characters of a text, it is one of ASCII. A uuid is a number, so the order
-- of ids is that of numbers.
-- JavaScript's bit operators work on patterns of 32 bits: Prelude.Int has the signed number of a
-- pattern, Prelude.Decimal a number as a template literal puts it. The loop of decodeWords takes
-- fuel, one round for each byte and one more, which is enough where no length has its sign bit set
-- (RouterOs.Reading).
--
-- What the code takes from libraries is a parameter: PostgreSQL, AES and base64, the library of
-- sessions, the outcome of `fetch`, the pattern of email addresses, and what a browser checks of a
-- form before it is submitted.
--
-- Some choices bound what is said. Numbers are exact, which those of JavaScript are below 2 ^ 53.
-- Rows that a query orders by a time stand in one order where the times are equal, which PostgreSQL
-- leaves open from one query to the next. A map of attributes is read at keys that no object of
-- JavaScript inherits. The threshold of an alert rule is the text that String makes of a number. A
-- socket that was destroyed gives no more data.
--
-- Not modelled: the sockets and timers themselves, which are events here, and the text of error
-- messages that the runtime makes; starting the server and opening connections, which are calls of
-- libraries; the markup and the styles of the web pages, their layout and the components of
-- packages/ui; percentages, which are floating-point numbers; the table of api keys, which no router
-- uses; the agent (packages/agent), a program in Go that the API knows by its enrollment only.
pub mod Prelude
pub mod RouterOs
pub mod Rest
pub mod Snmp
pub mod Encryption
pub mod Api
pub mod Inputs
pub mod Web
pub mod Poller
pub mod Tests
