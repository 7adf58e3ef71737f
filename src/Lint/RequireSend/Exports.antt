-- ===== src/Lint/RequireSend/Exports.antt =====
-- .ores-lint/eslint/plugin.mjs: the names that `requireSendRule` starts from.
use cliptown_lib_core.Prelude.{List, [], ◌∷◌}
use cliptown_lib_core.Text.{Text, lit}

abbrev pub logger_exports : List Text
logger_exports =
    lit "logger"
    ∷ lit "browserLogger"
    ∷ lit "edgeLogger"
    ∷ lit "cloudflareWorkerLogger"
    ∷ lit "nodeLogger"
    ∷ lit "bunLogger"
    ∷ lit "denoLogger"
    ∷ []

abbrev pub factory_exports : List Text
factory_exports =
    lit "createLogger"
    ∷ lit "createBrowserLogger"
    ∷ lit "createEdgeLogger"
    ∷ lit "createCloudflareWorkerLogger"
    ∷ lit "createNodeLogger"
    ∷ lit "createBunLogger"
    ∷ lit "createDenoLogger"
    ∷ []

abbrev pub class_exports : List Text
class_exports =
    lit "BaseLogger"
    ∷ lit "BrowserLogger"
    ∷ lit "EdgeLogger"
    ∷ lit "CloudflareWorkerLogger"
    ∷ lit "NodeLogger"
    ∷ lit "BunLogger"
    ∷ lit "DenoLogger"
    ∷ []

abbrev pub default_level_methods : List Text
default_level_methods =
    lit "trace" ∷ lit "debug" ∷ lit "info" ∷ lit "log" ∷ lit "warn" ∷ lit "error" ∷ lit "fatal" ∷ []

abbrev pub default_terminal_methods : List Text
default_terminal_methods = lit "send" ∷ []
