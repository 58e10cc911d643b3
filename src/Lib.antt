-- ===== src/Lib.antt =====
-- The gateway of Budget Governor (gateway/internal): it admits a call to a language model only if every
-- budget that applies to it has enough tokens and dollars left.
--
-- A request passes the middleware with its API key (auth). The handler (proxy) estimates its tokens and
-- prices them (provider), looks up its budgets and charges them in one atomic step on a Redis server
-- (budget). If they do not cover it, suggestions of an advisor are judged against the price table (policy),
-- and a changed request may be checked once more. An admitted request is dispatched to a provider, as a
-- whole or as a stream, after which the charge is settled for what was really used, and every end is
-- recorded in the metrics, the log and the table of spend events.
--
-- Which file models which part, under gateway/internal:
--   Prelude            tests, lists, Go's integers, and what is used of float64
--   Config             config/config.go
--   Auth/Keys          auth/auth.go; authentications and evictions are events on the store
--   Budget/Types       the data types of budget/bucket.go, and Key
--   Budget/Script      budget/checkAndDecrement.lua: one run of the script is a function from the hashes of
--                      the server to a reply and the new hashes; each loop is structural recursion over
--                      the keys
--   Budget/Enforcer    CheckAndDecrement, eval, LoadScript and Reconcile of budget/bucket.go; the client
--                      and the server are one record, and each command may be lost before or after it
--                      takes effect
--   Budget/Rate        one token bucket over time: runs of the script and corrections by any number of
--                      gateways as a step relation on the store, with an account of what was charged
--   Budget/ConfigCache budget/configcache.go; the map is an association list
--   Policy/Engine      policy/policy.go
--   Provider/Types     provider/types.go
--   Provider/Pricing   provider/pricing.go, and NormalizeModel of provider/tokenizer.go
--   Provider/Tokenizer provider/tokenizer.go; the outer loop runs on fuel, one unit for each rune
--   Provider/OpenAi    provider/openai.go
--   Provider/Anthropic provider/anthropic.go; what both adapters get from HTTP is in Provider/Http
--   Provider/Mock      provider/mock.go
--   Proxy/Access       authMiddleware of proxy/handler.go
--   Proxy/Handler      ChatCompletions and handleBudgetPressure of proxy/handler.go, with what they ask of
--                      the advisor in Proxy/Pressure
--   Proxy/Advisor      proxy/advisor_client.go
--   Proxy/Dispatch     proxy/handler.go from dispatch on, and streamDispatch of proxy/stream.go; a provider
--                      is an argument
--   Proxy/Finish       finish of proxy/handler.go, and the state that the handler changes
--   Proxy/Sse          the chunk writer of proxy/stream.go; each write may fail
--   Proxy/Router       proxy/router.go
--   Proxy/Requests     the requests of proxy/types.go; the replies are in Proxy/Replies
--   Proxy/SpendWriter  proxy/spend_writer.go; the producers, the channel, the ticker and the goroutine are
--                      steps on one record, in any order
--   Observability      observability/logging.go, as steps on one record, and the calls on the collectors of
--                      observability/metrics.go
-- Startup has the probes of gateway/cmd/gateway/main.go, and in Startup/Boot what main does until it serves
-- requests. Examples has concrete inputs.
--
-- Of the services in Python, Services/Pricing models providers/pricing.py, the twin of the gateway's price
-- table, and Services/Advisor the schema, the guardrails and the entry point of advisor/app.
-- Services/Keys models how controlplane/app makes and checks keys (auth/keys.py, auth/dependencies.py and
-- issue_api_key of api/tenants.py), Services/Budgets its upsert_budget (api/budgets.py), both on the tables
-- that the gateway reads, and Services/Reconciliation a run of reconciliation/job.py with the rows that it
-- leaves.
--
-- Bounds: integers are exact, and where Go's int64 wraps around, `int64` is written out. A float64 is an
-- element of a type F with its operations as a parameter (Float); NaN and the infinities are left out, and
-- the laws that a proof uses (IsOrdered) hold of rounded arithmetic away from overflow. Fixed-point numbers
-- meet them and run the examples. Only the tokenizer needs fuel, and the length of the text is enough; the
-- waits of Startup have the 30 attempts of the source.
--
-- Parameters: how Lua prints a number and what HINCRBYFLOAT stores (Redis, with the laws IsPrinting and, for
-- Budget/Rate, IsClose, which bounds how far each operation rounds); the
-- character classes of Go's package unicode (Unicode, with the law IsUnicode); SHA-256, bcrypt and the
-- reading of a JSON array (Crypto); the connection to the client with the JSON text of a payload
-- (Transport); the advisor, the database and the providers (Outside); the clock and the fate of each
-- command (Course); for an adapter, what a request over HTTP gives and how the JSON of a stream is read
-- (Exchange); for the mock, its texts, square root and random numbers (Simulation); what main finds when it
-- starts (Surroundings); for the advisor, its language model and the reading of JSON; for the control plane,
-- bcrypt, str.strip, the random part of a key and the fate of a commit (Bcrypt, Issue, UpsertBudget); for
-- the drift job, the sums of the gateway, what the providers report and which inserts fail (Job).
--
-- Not modelled: HTTP, JSON and SQL themselves; the operator's log (Logf); the servers and the shutdown of
-- gateway/cmd/gateway/main.go; that Redis drops the key of a bucket after a day; the other endpoints of the
-- control plane, the language models behind the advisor, and the usage providers of the drift job, which
-- are queries and calls over HTTP.
pub mod Prelude
pub mod Budget
pub mod Provider
pub mod Policy
pub mod Proxy
pub mod Auth
pub mod Observability
pub mod Config
pub mod Startup
pub mod Services
pub mod Examples
