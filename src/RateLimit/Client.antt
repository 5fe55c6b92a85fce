-- ===== src/RateLimit/Client.antt =====
-- `rateLimitMiddleware` of internal/api/ratelimit.go: the key of a client. net.SplitHostPort is written
-- out, without the port that the middleware drops.
use Prim.Native.Char.{code}
use api_time_machine.Prelude.{
  ℕ, String, Bool, false, not, ◌&&◌, ◌||◌, ◌≡◌, refl, sym, ◌∙◌, arith, Option, none, some,
  if◌then◌else◌, ◌==◌,
}

-- `bytealg.IndexByteString` found something.
unfoldable pub has : ℕ → String → Bool
has c String.[] = false
has c (String.◌∷◌ d s) = code d == c || has c s

-- What stands before the last of the bytes.
unfoldable pub before_last : ℕ → String → Option String
before_last c String.[] = none
before_last c (String.◌∷◌ d s) = elim (before_last c s) [
  | some t ↦ some (String.◌∷◌ d t)
  | none ↦ if code d == c then some String.[] else none
]

-- What stands before and after the first of the bytes.
unfoldable pub split_first : ℕ → String → Option (String × String)
split_first c String.[] = none
split_first c (String.◌∷◌ d s) = elim (split_first c s) [
  | some (t, u) ↦ if code d == c then some (String.[], s) else some (String.◌∷◌ d t, u)
  | none ↦ if code d == c then some (String.[], s) else none
]

-- `[host]:port`, after the first bracket; `all` is all that follows it.
abbrev pub bracketed : String → Option (String × String) → Option String
unfolding has
bracketed all none = none
bracketed all (some (host, String.[])) = none
bracketed all (some (host, String.◌∷◌ d port)) =
    if code d == b':' && not (has b':' port) && not (has b'[' all) && not (has b']' port)
    then some host
    else none

abbrev pub plain : String → Option String → Option String
unfolding has
plain address none = none
plain address (some host) =
    if has b':' host || has b'[' address || has b']' address then none else some host

-- The host of `net.SplitHostPort`, or an error.
unfoldable pub split_host : String → Option String
unfolding before_last split_first has
split_host String.[] = none
split_host (String.◌∷◌ c rest) =
    if code c == b'['
    then bracketed rest (split_first b']' rest)
    else plain (String.◌∷◌ c rest) (before_last b':' (String.◌∷◌ c rest))

abbrev pub or_address : String → Option String → String
or_address address none = address
or_address address (some host) = host

-- The key under which the requests from an address are counted.
unfoldable pub client_key : String → String
unfolding split_host
client_key address = or_address address (split_host address)

-- `host:port`
abbrev pub with_port : String → String → String
with_port String.[] port = String.◌∷◌ ":" port
with_port (String.◌∷◌ c host) port = String.◌∷◌ c (with_port host port)

before_last-none : (s : String) → has b':' s ≡ false → before_last b':' s ≡ none
unfolding has before_last
before_last-none String.[] h = refl
before_last-none (String.◌∷◌ c s) h = ground (arith, h, before_last-none s)

before_last-with_port :
    (host port : String)
    → has b':' port ≡ false
    → before_last b':' (with_port host port) ≡ some host
unfolding has before_last
before_last-with_port String.[] port h = ground (arith, before_last-none port h)
before_last-with_port (String.◌∷◌ c host) port h = ground (arith, before_last-with_port host port h)

has-with_port :
    (c : ℕ) (host port : String)
    → (c == b':') ≡ false
    → has c (with_port host port) ≡ (has c host || has c port)
unfolding has
has-with_port c String.[] port h = ground (arith, h)
has-with_port c (String.◌∷◌ d host) port h = ground (arith, has-with_port c host port h)

abbrev pub IsPlain : String → Type 0
IsPlain s = (has b':' s ≡ false) × (has b'[' s ≡ false) × (has b']' s ≡ false)

client_key-one :
    (host port : String) → IsPlain host → IsPlain port → client_key (with_port host port) ≡ host
unfolding client_key split_host has
client_key-one String.[] port h p = ground (
  arith,
  h,
  p,
  before_last-with_port String.[] port p.0,
  has-with_port b'[' String.[] port refl,
  has-with_port b']' String.[] port refl,
)
client_key-one (String.◌∷◌ c host) port h p = ground (
  arith,
  h,
  p,
  before_last-with_port (String.◌∷◌ c host) port p.0,
  has-with_port b'[' (String.◌∷◌ c host) port refl,
  has-with_port b']' (String.◌∷◌ c host) port refl,
)

-- Where neither the host nor the ports have a colon or a bracket, the key of a client at a host and
-- a port is the host, whatever the port.
pub client_key-with_port :
    (host port other : String)
    → IsPlain host
    → IsPlain port
    → IsPlain other
    → (client_key (with_port host port) ≡ host)
      × (client_key (with_port host other) ≡ client_key (with_port host port))
client_key-with_port host port other h p o = (
  client_key-one host port h p,
  client_key-one host other h o ∙ sym (client_key-one host port h p),
)
