-- ===== src/All.antt =====
-- all/all.go: the registration of the detectors that need no configuration.
pub mod Builtins
pub mod Grading
mod Tests
use security_go.Shared.{String, List, [], ◌∷◌, some, foldl}
use security_go.Security.{Detector, Regexp, Result}
use security_go.Security.Engine.{Engine, register}
use security_go.Data.JwtAttack.{Packages}
use security_go.Injection
use security_go.Protocol
use security_go.Data
use security_go.FileChecks

-- A detector of this library, whose `Detect` returns no nil result.
abbrev pub builtin : String → (String → Result) → Detector
builtin name detect = record { name = name; detect = λ input. some (detect input) }

-- The detectors in the order of their registration, each of which has its own name.
abbrev pub builtins : Regexp → Packages → List Detector
builtins rx pk =
    builtin Injection.Xss.name (Injection.Xss.detect rx)
    ∷ builtin Injection.Sql.name (Injection.Sql.detect rx)
    ∷ builtin Injection.Command.name (Injection.Command.detect rx)
    ∷ builtin Injection.Nosql.name (Injection.Nosql.detect rx)
    ∷ builtin Injection.Ldap.name (Injection.Ldap.detect rx)
    ∷ builtin Injection.Xpath.name (Injection.Xpath.detect rx)
    ∷ builtin Injection.Jndi.name (Injection.Jndi.detect rx)
    ∷ builtin Injection.Ssi.name (Injection.Ssi.detect rx)
    ∷ builtin Injection.Graphql.name (Injection.Graphql.detect rx)
    ∷ builtin Injection.Ssti.name (Injection.Ssti.detect rx)
    ∷ builtin Protocol.Ssrf.name (Protocol.Ssrf.detect rx)
    ∷ builtin Protocol.Xxe.name (Protocol.Xxe.detect rx)
    ∷ builtin Protocol.HeaderInjection.name (Protocol.HeaderInjection.detect rx)
    ∷ builtin Protocol.HostHeader.name (Protocol.HostHeader.detect rx)
    ∷ builtin Protocol.RequestSmuggling.name (Protocol.RequestSmuggling.detect rx)
    ∷ builtin Protocol.OpenRedirect.name (Protocol.OpenRedirect.detect rx)
    ∷ builtin Protocol.Cors.name (Protocol.Cors.detect rx)
    ∷ builtin Protocol.WebSocket.name (Protocol.WebSocket.detect rx)
    ∷ builtin Protocol.DnsRebinding.name (Protocol.DnsRebinding.detect rx)
    ∷ builtin Data.Deserialization.name (Data.Deserialization.detect rx)
    ∷ builtin Data.CsvInjection.name (Data.CsvInjection.detect rx)
    ∷ builtin Data.MailHeader.name (Data.MailHeader.detect rx)
    ∷ builtin Data.JwtAttack.name (Data.JwtAttack.detect pk rx)
    ∷ builtin Data.PrototypePollution.name (Data.PrototypePollution.detect rx)
    ∷ builtin FileChecks.PathTraversal.name (FileChecks.PathTraversal.detect rx)
    ∷ builtin FileChecks.Upload.name (FileChecks.Upload.detect rx)
    ∷ builtin FileChecks.DataLeak.name (FileChecks.DataLeak.detect rx)
    ∷ []

unfoldable pub register_all : Regexp → Packages → Engine → Engine
register_all rx pk e = foldl register e (builtins rx pk)
