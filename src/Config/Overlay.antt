-- ===== src/Config/Overlay.antt =====
-- Which settings win in internal/config/config.go.
use shinel.Base.{◌≡◌, refl, [], ◌∷◌, Option, none, some, arith, ap, ◌∙◌, inl, inr, Option-cases}
use shinel.Base.Bytes.{Bytes, codes}
use shinel.Base.Maps.{Map, insert}
use shinel.Config.{
  Config, defaults, ok, if_set, set_ml_url, set_redis_url, set_target_url, set_admin_bind,
  set_admin_token, overlay, load,
}

-- A variable's value if it is set and not empty, else what was there.
abbrev pub or_else : Bytes → Bytes → Bytes
or_else [] old = old
or_else (b ∷ v) old = b ∷ v

-- The configuration with one setting of the environment over its own.

abbrev over_ml : Bytes → Config → Config
over_ml v c = record c { ml_engine = record c.ml_engine { url = or_else v c.ml_engine.url } }

abbrev over_redis : Bytes → Config → Config
over_redis v c = record c { vault = record c.vault { redis_url = or_else v c.vault.redis_url } }

abbrev over_target : Bytes → Config → Config
over_target [] c = c
over_target (b ∷ v) c = record c { providers = insert (codes "openai") (b ∷ v) c.providers }

abbrev over_bind : Bytes → Config → Config
over_bind v c = record c { admin = record c.admin { bind = or_else v c.admin.bind } }

abbrev over_token : Bytes → Config → Config
over_token v c = record c { admin = record c.admin { token = or_else v c.admin.token } }

if_set-ml : (v : Bytes) (c : Config) → if_set v set_ml_url c ≡ over_ml v c
unfolding if_set set_ml_url
if_set-ml [] c = refl
if_set-ml (b ∷ v) c = refl

if_set-redis : (v : Bytes) (c : Config) → if_set v set_redis_url c ≡ over_redis v c
unfolding if_set set_redis_url
if_set-redis [] c = refl
if_set-redis (b ∷ v) c = refl

if_set-target : (v : Bytes) (c : Config) → if_set v set_target_url c ≡ over_target v c
unfolding if_set set_target_url
if_set-target [] c = refl
if_set-target (b ∷ v) c = refl

if_set-bind : (v : Bytes) (c : Config) → if_set v set_admin_bind c ≡ over_bind v c
unfolding if_set set_admin_bind
if_set-bind [] c = refl
if_set-bind (b ∷ v) c = refl

if_set-token : (v : Bytes) (c : Config) → if_set v set_admin_token c ≡ over_token v c
unfolding if_set set_admin_token
if_set-token [] c = refl
if_set-token (b ∷ v) c = refl

-- The providers with an origin for openai over its own.
abbrev pub redirected : Bytes → Map Bytes → Map Bytes
redirected [] m = m
redirected (b ∷ v) m = insert (codes "openai") (b ∷ v) m

-- The file's settings under those of the environment.
abbrev pub settled : (Bytes → Bytes) → Config → Config
settled env c = record c {
  providers = redirected (env (codes "SHINEL_TARGET_URL")) c.providers;
  vault = record c.vault { redis_url = or_else (env (codes "SHINEL_REDIS_URL")) c.vault.redis_url };
  ml_engine = record c.ml_engine { url = or_else (env (codes "SHINEL_ML_URL")) c.ml_engine.url };
  admin = record c.admin {
    bind = or_else (env (codes "SHINEL_ADMIN_BIND")) c.admin.bind;
    token = or_else (env (codes "SHINEL_ADMIN_TOKEN")) c.admin.token;
  };
}

abbrev redirect : Bytes → Config → Config
redirect v c = record c { providers = redirected v c.providers }

over_target-redirected : (v : Bytes) (c : Config) → over_target v c ≡ redirect v c
over_target-redirected [] c = refl
over_target-redirected (b ∷ v) c = refl

overlay-settled : (env : Bytes → Bytes) (c : Config) → overlay env c ≡ settled env c
unfolding overlay
overlay-settled env c =
    if_set-token _ _
    ∙ ap (over_token _) (
        if_set-bind _ _
        ∙ ap (over_bind _) (
            if_set-target _ _
            ∙ over_target-redirected _ _
            ∙ ap (redirect (env (codes "SHINEL_TARGET_URL")))
                (if_set-redis _ _ ∙ ap (over_redis _) (if_set-ml _ c))))

-- A configuration that is loaded has the file's fields over the defaults and the environment's
-- settings over both, and the file names no target_url.
pub load-settled :
    (unmarshal : Bytes → Config → Option Config) (leftover : Bytes → Option Bytes)
    (env : Bytes → Bytes) (file : Option Bytes) {cfg : Config}
    → load unmarshal leftover env file ≡ ok cfg
    → (text : Bytes) × (file ≡ some text)
      × ((read : Config) × (unmarshal text defaults ≡ some read)
          × (leftover text ≡ some [])
          × (cfg ≡ settled env read))
unfolding load
load-settled unmarshal leftover env none e = absurd (ground arith)
load-settled unmarshal leftover env (some text) {cfg} e =
    elim (Option-cases (unmarshal text defaults)) [
      | inl f ↦ absurd (ground arith)
      | inr (read, f) ↦ elim (Option-cases (leftover text)) [
        | inl g ↦ absurd (ground arith)
        | inr ([], g) ↦
            let same : cfg ≡ overlay env read = ground arith in
            (text, refl, (read, f, g, same ∙ overlay-settled env read))
        | inr (b ∷ url, g) ↦ absurd (ground arith)
      ]
    ]
