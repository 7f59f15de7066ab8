-- ===== src/Lib.antt =====
-- PluginPocket: a gateway and marketplace for MCP tools. This library models the logic of its
-- JavaScript and TypeScript parts: the web console (web/src), the desktop client's interface
-- (desktop/ui/src) and the release and development scripts (scripts). Paths below are from the
-- repository's root.
--
-- Base holds what the parts share: tests on numbers, lists, text as UTF-16 code units,
-- dictionaries as association lists in insertion order (a plain object; names that every object
-- inherits are taken for ordinary keys unless a file says otherwise), and results of code that
-- throws.
--
-- Paging models web/src/features/account/usePagedList.ts (`render`, `next_start`, `next_finish`,
-- `previous`, `retry`, `set_page_size`, `pagination`) and web/src/components/Pagination.tsx
-- (`bar`). The asynchronous `next` is two functions, before and after its one `await`. The query
-- library is an argument: what it returns at a render, and what a fetch yields.
--
-- Files models web/src/lib/files.ts (`image_type`, `safe_file_path`). Attachments models
-- web/src/components/FileAttachments.tsx: `choose` is the file input's handler up to its first
-- `await`, `finish` the rest of it, and the outcomes of the file reads are an argument.
--
-- Api models web/src/features/account/api.ts: `fetchOnce`, `fetchResponse` with the refresh of an
-- expired session that all calls share, `request` and `requestCSV`. What the network yields is an
-- argument. Api/World.antt runs many calls at once, as a relation between states, and
-- Api/Refresh.antt is about it.
--
-- Release models scripts/release-preflight.mjs and Release/Manifest.antt
-- scripts/build-updater-manifest.mjs; the files are given as texts, and base64 and URL encoding
-- are arguments.
--
-- Updates models desktop/ui/src/updater.ts and desktop/ui/src/UpdatePanel.tsx: `check`,
-- `on_event` for the events of a download, and the panel's handlers, those with an `await` in two
-- functions. The floating-point share `Math.floor((received / total) * 100)` is an argument.
-- Updates/Runs.antt runs the panel with checks and downloads that end in any order.
--
-- Settlement models web/src/features/operations/SettlementEditor.tsx: `rule_draft` and
-- `settlement_value` between the saved JSON and the draft, the handlers of the editor and, in
-- Settlement/Editor.antt, the form it shows. JSON.parse, JSON.stringify and the syntax check of a
-- script are the argument `js`.
--
-- Panel models web/src/components/SidePanel.tsx: the handlers that open and close it, its full
-- screen and the Escape key that the content may take. Session models
-- web/src/SessionBoundary.tsx: which query client belongs to which account; Session/Identity.antt
-- follows it through renders and changes of the cache.
--
-- Dev models scripts/dev.mjs: `main` with `control`, and `supervise` cut at its awaits. A report
-- to a parent that has gone ends the process, as Node documents it for a closed channel without a
-- handler of the error. Dev/Steps.antt lets signals, the parent, the child process, the ports,
-- the rounds of health checks and the end of `stop` come in any order.
--
-- Icon models web/src/features/operations/ToolIcon.tsx: `parse_icon` with `svg_data`,
-- `compress_image`, and in Icon/Editor.antt the editor's handlers and what it shows. The
-- browser's parsers, encoders and canvas are the argument `web`.
--
-- Preview models web/src/features/operations/SkillFilePreview.tsx: `relative_path`, where a link
-- of a document leads and, in Preview/Document.antt, what is shown of a file, with the metadata
-- block and the images of a document; `decodeURIComponent` is an argument.
--
-- Skills models web/src/features/operations/SkillFileEditor.tsx: `decode`, `encode_skill_text`
-- and the paths, the active file and the tabs of a render; in Skills/Workspace.antt the state and
-- its handlers, in Skills/View.antt what is shown of the active file, and in Skills/Tree.antt the
-- tree of SkillFileTree.tsx. UTF-8, base64, `toLowerCase` and `localeCompare` are the argument
-- `web`.
--
-- Market models web/src/features/operations/MarketplaceEditor.tsx: the state of the editor, its
-- `package_of` and `body`, and the components of a bundle. Market/Desk.antt runs the file
-- workspace and the attachments over the uploads and deleted paths that they share.
-- Market/Panel.antt models MarketplacePanel.tsx with the recommended skills: the list, `sync`,
-- the installation.
--
-- Tools models web/src/features/operations/ToolEditor.tsx: the form of a tool, `config_of` for
-- its connection, `body_of` and `submit`, over the drafts of Settlement. The URL parser, `Number`
-- and `toLowerCase` are the argument `web`, and the fields are those that react-hook-form holds.
--
-- Transfers models the transfers of credits: in Transfers.antt what Adjustment of
-- web/src/features/account/AdminPage.tsx and Funding of web/src/features/operations/TeamsPage.tsx
-- share, a form whose request is retried under one operation number, and in Transfers/Pages.antt
-- both forms and the state of their pages. `crypto.randomUUID()`, `Number` and
-- `Number.isSafeInteger` are arguments. Transfers/Once.antt runs a form with answers that come or
-- are lost.
--
-- Secrets models the secrets that are shown once: in Secrets.antt what
-- web/src/features/account/TokensPage.tsx, web/src/features/operations/CodesPage.tsx with
-- web/src/features/operations/OneTimeCode.tsx and the invitation in
-- web/src/features/operations/TeamsPage.tsx share, and in Secrets/Tokens.antt the page of the
-- tokens. Secrets/Shown.antt runs such a form.
--
-- Shell models web/src/App.tsx: the routes with what each shows to whom, the links of the
-- navigation and the errors that end a session. Which route a location matches is the router's,
-- and what the two queries of the account report is an argument.
--
-- Equipment models desktop/ui/src/EquipmentPage.tsx: the installed items with their filters, and
-- the update and the uninstallation of an item, which is asked for and confirmed. What the query
-- of the items holds and `toLowerCase` are arguments. Equipment/Confirming.antt runs the page.
--
-- Logs models desktop/ui/src/LogsPage.tsx: the entries of the local log on show and the copy and
-- the export of them. The sort of the language is a stable insertion here; the dates and the
-- texts' case and translation are arguments.
--
-- Metadata models web/src/features/operations/ToolMetadataPanel.tsx: the overrides of the tools
-- that an upstream server exposes, with the editor of one of them and the end of its save. JSON
-- is the engine of Settlement.
--
-- Numbers are natural: all counts, sizes and times here are whole and never negative, and far
-- below the 53 bits that a JavaScript number keeps exact; subtraction occurs only where the
-- source's cannot go below zero or is cut there by `Math.max`. Every loop is a recursion on a
-- list, but for the tree of a skill's files: it runs on the length of the longest path and one
-- more, which is enough since every level of the tree takes at least the slash of its folder.
--
-- Not modelled: markup, styles, focus and translated texts; the server (server), the command line
-- client (cli) and the Rust side of the desktop client (desktop/src), which are of other
-- languages; the pages of both interfaces that are not named above, which are forms and tables
-- over the calls of the server.
pub mod Api
pub mod Attachments
pub mod Base
pub mod Dev
pub mod Equipment
pub mod Files
pub mod Icon
pub mod Logs
pub mod Market
pub mod Metadata
pub mod Paging
pub mod Panel
pub mod Preview
pub mod Release
pub mod Secrets
pub mod Session
pub mod Settlement
pub mod Shell
pub mod Skills
pub mod Tools
pub mod Transfers
pub mod Updates
