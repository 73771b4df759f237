-- ===== src/Lib.antt =====
-- Veckomenyn, a planner of weekly menus: a model of its web client, and what holds of it.
--
-- The client (web/src) is a React application. It talks to a server in Go (internal/server) by JSON
-- requests, and to the agent on it by one stream of events for each message of the chat.
--
-- The parts, and where they are modelled:
--   Base     shared: native numbers, lists, texts as lists of character codes, decimal numerals as
--            `String(n)` writes and `Number(s)` reads them, `split` and `join`, association lists
--   Toast    web/src/lib/toast.ts: `add`, `capQueue`, `dismiss` and `clear` on the store of the module
--   Route    web/src/lib/route.ts: `parseRoute`, `routeToPath`, `navigate`, `goBack` and the listeners
--   Stream   web/src/lib/api.ts: `streamChat` and `parseFrame`; `sendSSE` of internal/server/chat.go
--   Chat     web/src/components/ChatDrawer.tsx: `applyAgentEvent`, with the indices that web/src/App.tsx
--            keeps for it
--   Theme    web/src/lib/theme.ts, the button for it of web/src/App.tsx, and the print view of
--            web/src/components/PrintableWeek.tsx, which suspends the dark look
--   I18n     web/src/i18n: the dictionaries sv.ts and en.ts as they stand, and `setLang` and `t`
--   Api      web/src/lib/api.ts: each function that calls the server, as a request and what it makes of
--            the response; the table of routes of internal/server/server.go
--   Retro    web/src/components/WeekView.tsx, `WeekRetrospective`: the text that is saved while it is typed
--   Week     web/src/components/WeekView.tsx: the next step of a week, the menu of its status, its last day
--   Main     web/src/App.tsx: the effects that load a week and its conversation, and what
--            is done to plans
--   Gate     web/src/App.tsx, `App`: whether the setup has been done, and what is shown
--   Editable web/src/components/Editable.tsx: a text that is edited in place, and the choice of a day
--   Session  web/src/App.tsx, `send`, `handleAgentEvent` and `cancel`; `submit` of
--            web/src/components/ChatDrawer.tsx: a message of the chat, from the request to the end of its
--            stream
--   Rating   web/src/components/WeekView.tsx, `RatingControl`: the verdict on a dinner and its notes
--   Settings web/src/components/SettingsModal.tsx: edits that are gathered and saved by a timer
--   Preferences  web/src/components/PreferencesModal.tsx: the preferences by category
--   Integrations  web/src/components/IntegrationsSection.tsx: the cards of the providers; `Mask` and
--            `Upsert` of internal/providers/providers.go
--   Calendar days and dates; web/src/components/Editable.tsx, the month of the calendar;
--            web/src/components/PlanNewForm.tsx and web/src/components/DuplicatePlanDialog.tsx
--   Backups  web/src/components/BackupsSection.tsx and web/src/components/UpdatesSection.tsx: the two
--            sections of the settings, and the sizes of backups
--   Updates  web/src/components/UpdateBanner.tsx: the banner of a new version
--   Markdown web/src/components/Markdown.tsx, `stripMatchingLeadingH1`
--   Wizard   web/src/components/SetupWizard.tsx: the steps of the setup
--
-- How they interact: a message of the chat is sent by Api, its answer is read by Stream, and each
-- event that Stream hands over is applied by Chat; Session is the run of these three. A card of
-- Integrations shows what the store has masked, and sends back what the store merges. The requests
-- of Api are met by the table of routes of the server. Toast, Theme, Route and I18n are modules with
-- state and listeners of their own.
--
-- State is passed explicitly: the variables of a module are a record, an operation is a function on it,
-- and the calls of listeners are counted, or, where a window is acted upon, listed as effects.
-- Optional fields are `Option`; an index that may be -1 is an `Option` of a natural number.
--
-- Bounds and fuel: the loop over the frames of a buffer has the length of the buffer as its fuel, and a
-- frame takes two characters at least. Identifiers are natural numbers; `Number` rounds above 2^53 as
-- JavaScript does. The search for the year of a day starts from its number divided by 365, which no year
-- is behind; the filling of the calendar has 42 rounds, one for each cell. Months are counted from that of
-- the year 0, and dates print with four digits of the year from 1000 to 9999.
--
-- Parameters: `JSON.parse` and `JSON.stringify`, `fetch`, `encodeURIComponent`, the exceptions of
-- handlers, and the window. What is asked of them stands as hypotheses of the theorems.
--
-- Requests that were sent are kept in the state. In Settings, Rating and Retro any of them can be the next
-- that the server stores or refuses; in Settings the answers are kept as well, and any of them can be the
-- next that arrives or is lost. A theorem that needs an order of them has it as a hypothesis. In
-- Preferences and on the cards of Integrations one request is under way at most. Local days that are 23 or
-- 25 hours long count as days.
--
-- Not modelled: the rendering (JSX, styles, the formats of Intl), the summary of usage, encryption and SQL
-- of the store, failing reads of the network in the middle of a stream, the server but for its routes,
-- the writer of events, and what it stores for the requests that are modelled, and the build.
pub mod Api
pub mod Backups
pub mod Base
pub mod Calendar
pub mod Chat
pub mod Editable
pub mod Gate
pub mod I18n
pub mod Integrations
pub mod Main
pub mod Markdown
pub mod Preferences
pub mod Rating
pub mod Retro
pub mod Route
pub mod Session
pub mod Settings
pub mod Stream
pub mod Theme
pub mod Toast
pub mod Updates
pub mod Week
pub mod Wizard
