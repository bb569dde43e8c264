-- ===== src/Tests/Settings.antt =====
-- internal/config/config.go on a concrete file and environment.
use shinel.Base.{◌≡◌, refl, [], Option, some, if◌then◌else◌}
use shinel.Base.Bytes.{Bytes, codes, bytes_eq}
use shinel.Base.Int.{pos}
use shinel.Base.Maps.{insert}
use shinel.Config.{timeout, signed, Config, defaults, ok, if_set, overlay, load}
use shinel.Config.Overlay.{settled, load-settled}

-- A file that names a log level.
abbrev unmarshal : Bytes → Config → Option Config
unmarshal text c = some (record c { log_level = text })

abbrev no_target : Bytes → Option Bytes
no_target text = some []

abbrev env : Bytes → Bytes
env name = if bytes_eq name (codes "SHINEL_TARGET_URL") then codes "http://echo" else []

abbrev quiet : Config
quiet = settled env (record defaults { log_level = codes "warn" })

loaded : load unmarshal no_target env (some (codes "warn")) ≡ ok quiet
unfolding load overlay if_set insert bytes_eq defaults
loaded = refl

load-settled_example :
    (text : Bytes) × (some (codes "warn") ≡ some text)
    × ((read : Config) × (unmarshal text defaults ≡ some read)
        × (no_target text ≡ some [])
        × (quiet ≡ settled env read))
load-settled_example = load-settled unmarshal no_target env (some (codes "warn")) loaded

waits : (timeout defaults.ml_engine ≡ pos 2000000000)
unfolding timeout defaults signed
waits = refl
