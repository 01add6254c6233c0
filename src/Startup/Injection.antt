-- ===== src/Startup/Injection.antt =====
-- What the constructors ask for, and what Nest finds for it in the modules. The container of Nest is
-- a parameter, with the behaviour that the documentation of Nest and of its libraries gives.
use complif_techinical_chall.Base.{
  ◌≡◌, refl, sym, ap, subst, ◌==◌, eq_iff, ◌&&◌, ◌||◌, Bool, true, false, any, List, [], ◌∷◌, ◌++◌,
  map, inl, inr, Bool-cases, arith, all, all-Memᴰ, any-Memᴰ,
}
use mathlib.Core.List.{Memᴰ}
use complif_techinical_chall.Startup.Metrics.{name_of}
use complif_techinical_chall.Startup.Classes.{
  Token, class, repository, logger, metric, client, Class, same_token,
}
use complif_techinical_chall.Startup.Modules.{
  Module, app, config, database, health, organizations, rule_templates, template_overrides, rules,
  engine, transactions, alerts, lists, Import, own, for_feature, register_clients, nest_config,
  event_emitter, logger_module, terminus, Provider, injectable, metric_provider, metadata,
  ClientOptions,
}

-- the modules that Nest loads: the root, and what a loaded module imports
pub data Loaded : Module → Type 0 where
  root : Loaded app
  imported : {m n : Module} → Loaded m → Memᴰ (own n) (metadata m).imports → Loaded n

-- the token that a provider is found by
abbrev pub token_of : Provider → Token
token_of (injectable c) = class c.name
token_of (metric_provider m) = metric (name_of m)

abbrev injectables : List Provider → List Class
injectables [] = []
injectables (injectable c ∷ ps) = c ∷ injectables ps
injectables (metric_provider m ∷ ps) = injectables ps

-- the classes that Nest constructs for a module
abbrev pub classes : Module → List Class
classes m = (metadata m).controllers ++ injectables (metadata m).providers

abbrev client_token : ClientOptions → Token
client_token c = client c.name

-- what an import gives to the module that imports
abbrev pub offered : Import → List Token
offered (own n) = (metadata n).exports
offered (for_feature es) = map repository es
offered (register_clients cs) = map client_token cs
offered terminus = class "HealthCheckService" ∷ class "TypeOrmHealthIndicator" ∷ []
offered _ = []

-- what an import gives to every module: EventEmitterModule and LoggerModule are global, the
-- configuration is if `isGlobal` says so, and every class has a logger of its name
abbrev pub is_global : Import → Token → Bool
is_global (nest_config everywhere) (class name) = everywhere && name == "ConfigService"
is_global event_emitter (class name) = name == "EventEmitter2"
is_global logger_module (logger name) = true
is_global _ _ = false

-- `resolves m t`: in the module `m` there is something to inject for `t`.
pub record IsContainer (resolves : Module → Token → Type 0) : Type 0 where
  pub provides :
      (m : Module) (p : Provider) → Memᴰ p (metadata m).providers → resolves m (token_of p)
  pub imports :
      (m : Module) (i : Import) (t : Token)
      → Memᴰ i (metadata m).imports
      → Memᴰ t (offered i)
      → resolves m t
  pub spreads :
      (m n : Module) (i : Import) (t : Token)
      → Loaded n
      → Memᴰ i (metadata n).imports
      → is_global i t ≡ true
      → resolves m t

same_token-eq : (a b : Token) → same_token a b ≡ true → a ≡ b
unfolding same_token
same_token-eq (class a) (class b) h = ap class ((eq_iff a b).0 h)
same_token-eq (repository a) (repository b) h = ap repository ((eq_iff a b).0 h)
same_token-eq (logger a) (logger b) h = ap logger ((eq_iff a b).0 h)
same_token-eq (metric a) (metric b) h = ap metric ((eq_iff a b).0 h)
same_token-eq (client a) (client b) h = ap client ((eq_iff a b).0 h)
same_token-eq _ _ h = absurd (cc)

-- the test that the search for a token is
abbrev here : Module → Token → Bool
here m t = any (λ p. same_token t (token_of p)) (metadata m).providers

abbrev imported_here : Module → Token → Bool
imported_here m t = any (λ i. any (same_token t) (offered i)) (metadata m).imports

abbrev spread_by : Module → Token → Bool
spread_by n t = any (λ i. is_global i t) (metadata n).imports

abbrev is_found : Module → Token → Bool
is_found m t = here m t || (imported_here m t || (spread_by app t || spread_by config t))

config-Loaded : Loaded config
unfolding metadata
config-Loaded = imported root (Memᴰ.head refl)

module _ (resolves : Module → Token → Type 0) (container : IsContainer resolves) (m : Module)
    (t : Token) where
  found-here : here m t ≡ true → resolves m t
  found-here h =
      let (p, inside, same) = any-Memᴰ (λ p. same_token t (token_of p)) (metadata m).providers h in
      subst (resolves m) (sym (same_token-eq t (token_of p) same)) (container.provides m p inside)

  found-imported : imported_here m t ≡ true → resolves m t
  found-imported h =
      let (i, inside, some_token) =
        any-Memᴰ (λ i. any (same_token t) (offered i)) (metadata m).imports h in
      let (s, offered_by, same) = any-Memᴰ (same_token t) (offered i) some_token in
      container.imports m i t inside
        (subst (λ u. Memᴰ u (offered i)) (sym (same_token-eq t s same)) offered_by)

  found-spread : (n : Module) → Loaded n → spread_by n t ≡ true → resolves m t
  found-spread n loaded h =
      let (i, inside, everywhere) = any-Memᴰ (λ i. is_global i t) (metadata n).imports h in
      container.spreads m n i t loaded inside everywhere

  found-sound : is_found m t ≡ true → resolves m t
  found-sound h = elim (Bool-cases (here m t)) [
    | inl e ↦ found-here e
    | inr n ↦ elim (Bool-cases (imported_here m t)) [
      | inl e ↦ found-imported e
      | inr n' ↦ elim (Bool-cases (spread_by app t)) [
        | inl e ↦ found-spread app root e
        | inr n'' ↦ found-spread config config-Loaded (ground arith)
      ]
    ]
  ]

all-found : (m : Module) → all (λ c. all (is_found m) c.injects) (classes m) ≡ true
unfolding metadata same_token
all-found app = refl
all-found config = refl
all-found database = refl
all-found health = refl
all-found organizations = refl
all-found rule_templates = refl
all-found template_overrides = refl
all-found rules = refl
all-found engine = refl
all-found transactions = refl
all-found alerts = refl
all-found lists = refl

-- By the documented behaviour of the container, every parameter of the constructor of every class
-- that a module of the application declares finds something to inject in that module.
pub injects-resolves :
    (resolves : Module → Token → Type 0)
    → IsContainer resolves
    → (m : Module) (c : Class) (t : Token) → Memᴰ c (classes m)
    → Memᴰ t c.injects
    → resolves m t
injects-resolves resolves container m c t declared asked = found-sound resolves container m t (
    all-Memᴰ (is_found m) c.injects t
      (all-Memᴰ (λ d. all (is_found m) d.injects) (classes m) c (all-found m) declared) asked)
