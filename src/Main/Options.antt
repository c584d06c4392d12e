-- ===== src/Main/Options.antt =====
-- What the server is started with.
use Prim.Native.String.{String}
use echoserver.Prelude.{◌≤◌, ◌≡◌, ◌≢◌, refl, ap, true, List, [], ◌∷◌, ◌++◌, arith}
use echoserver.Prelude.Int.{ℤ, pos_part}
use echoserver.Main.{
  Config, Outcome, runs, Kind, help, port_option, address_option, threads_option, level_option,
  file_option, unknown, Next, goes_on, returns, continue, classify, last_option, take_option,
  valid_port, parse,
}

abbrev pub HasPort : Config → Type 0
HasPort c = (1 ≤ c.port) × (c.port ≤ 65535)

-- Every outcome that runs the server has a usable port.
abbrev pub Ensures : (Config → Type 0) → Outcome → Type 0
Ensures P (runs c) = P c
Ensures P _ = Unit {0}

abbrev EnsuresNext : (Config → Type 0) → Next → Type 0
EnsuresNext P (goes_on c) = P c
EnsuresNext P (returns o) = Ensures P o

valid_port→HasPort :
    (atoi : String → ℤ) (n : ℤ) (c : Config)
    → valid_port atoi n ≡ true
    → HasPort (record c { port = pos_part n })
unfolding valid_port
valid_port→HasPort atoi n c h = ground arith

-- What an option does keeps a property, where the changes of the fields do.
take_option-HasPort :
    (atoi : String → ℤ) (k : Kind) (v : String) (c : Config)
    → HasPort c
    → EnsuresNext HasPort (take_option atoi k v c)
unfolding take_option
take_option-HasPort atoi port_option v c h = ground arith
take_option-HasPort atoi threads_option v c h = ground arith
take_option-HasPort atoi help v c h = tt
take_option-HasPort atoi address_option v c h = h
take_option-HasPort atoi level_option v c h = h
take_option-HasPort atoi file_option v c h = h
take_option-HasPort atoi unknown v c h = tt

last_option-Ensures : (P : Config → Type 0) (k : Kind) → Ensures P (last_option k)
unfolding last_option
last_option-Ensures P help = tt
last_option-Ensures P _ = tt

continue-Ensures :
    (P : Config → Type 0) (loop : Config → Outcome) (n : Next)
    → ((c : Config) → P c → Ensures P (loop c))
    → EnsuresNext P n
    → Ensures P (continue loop n)
continue-Ensures P loop (goes_on c) keep h = keep c h
continue-Ensures P loop (returns o) keep h = h

-- Whatever the arguments are and whatever `atoi` makes of them, from a configuration
-- with a port from 1 to 65535 the server is started only with such a port.
pub parse-HasPort :
    (atoi : String → ℤ) (args : List String) (c : Config)
    → HasPort c
    → Ensures HasPort (parse atoi args c)
unfolding parse
parse-HasPort atoi [] c h = h
parse-HasPort atoi (arg ∷ []) c h = last_option-Ensures HasPort (classify arg)
parse-HasPort atoi (arg ∷ v ∷ rest) c h =
    continue-Ensures HasPort (parse atoi rest) (take_option atoi (classify arg) v c)
      (λ d k. parse-HasPort atoi rest d k) (take_option-HasPort atoi (classify arg) v c h)

last_option_returns : (k : Kind) (d : Config) → last_option k ≢ runs d
unfolding last_option
last_option_returns help d e = cc
last_option_returns unknown d e = cc
last_option_returns _ d e = cc

take_option_returns :
    (atoi : String → ℤ) (k : Kind) (v : String) (c d : Config) (o : Outcome)
    → take_option atoi k v c ≡ returns o
    → o ≢ runs d
unfolding take_option
take_option_returns atoi port_option v c d o e h = ground arith
take_option_returns atoi threads_option v c d o e h = ground arith
take_option_returns atoi help v c d o e h = cc
take_option_returns atoi unknown v c d o e h = cc
take_option_returns atoi _ v c d o e h = cc

continue-runs :
    (loop loop' : Config → Outcome) (n : Next) (d : Config) (r : Outcome)
    → ((c : Config) → loop c ≡ runs d → loop' c ≡ r)
    → ((o : Outcome) → n ≡ returns o → o ≢ runs d)
    → continue loop n ≡ runs d
    → continue loop' n ≡ r
continue-runs loop loop' (goes_on c) d r later never e = later c e
continue-runs loop loop' (returns o) d r later never e = absurd (never o refl e)

-- A later option wins: arguments that parse to a configuration may be put in front of others, and
-- the loop goes on from that configuration.
pub parse-append :
    (atoi : String → ℤ) (args more : List String) (c d : Config)
    → parse atoi args c ≡ runs d
    → parse atoi (args ++ more) c ≡ parse atoi more d
unfolding parse
parse-append atoi [] more c d e = ap (parse atoi more) (cc)
parse-append atoi (arg ∷ []) more c d e = absurd (last_option_returns (classify arg) d e)
parse-append atoi (arg ∷ v ∷ rest) more c d e =
    continue-runs (parse atoi rest) (parse atoi (rest ++ more))
      (take_option atoi (classify arg) v c) d (parse atoi more d)
      (λ c' h. parse-append atoi rest more c' d h)
      (λ o h. take_option_returns atoi (classify arg) v c d o h) e
