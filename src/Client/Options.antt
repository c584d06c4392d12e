-- ===== src/Client/Options.antt =====
-- The command line of the test client: the loop of `main` in examples/client.cpp.
-- `atoi` of the C library is an argument.
use Prim.Native.String.{String}
use text.Mathlib.Text.{◌==◌ as str_eq, starts_with}
use echoserver.Prelude.{
  ℕ, ◌≤◌, Bool, true, false, ◌||◌, List, [], ◌∷◌, arith, ltb, ◌==◌, if◌then◌else◌,
}
use echoserver.Prelude.Int.{ℤ, pos_part}

pub record Settings : Type 0 where
  pub server_ip : String
  pub server_port : ℕ
  pub benchmark_mode : Bool
  pub num_messages : ℕ

abbrev pub default_settings : Settings
default_settings = record {
  server_ip = "127.0.0.1";
  server_port = 8080;
  benchmark_mode = false;
  num_messages = 100;
}

pub data ClientFailure : Type 0 where
  no_value : ClientFailure
  bad_port : ClientFailure
  bad_number : ClientFailure
  bad_option : ClientFailure

pub data ClientOutcome : Type 0 where
  prints_usage : ClientOutcome
  stops : ClientFailure → ClientOutcome
  starts : Settings → ClientOutcome

pub data ClientOption : Type 0 where
  usage : ClientOption
  server : ClientOption
  port : ClientOption
  benchmark : ClientOption
  interactive : ClientOption
  other : ClientOption

abbrev is_one_of : String → String → String → Bool
is_one_of arg short long = str_eq arg short || str_eq arg long

unfoldable pub client_option : String → ClientOption
client_option arg =
    if is_one_of arg "-h" "--help"
    then usage
    else (if is_one_of arg "-s" "--server"
        then server
        else (if is_one_of arg "-p" "--port"
            then port
            else (if is_one_of arg "-b" "--benchmark"
                then benchmark
                else (if is_one_of arg "-i" "--interactive" then interactive else other))))

-- The loop goes on with the next argument, or with the one behind it, or `main` returns.
pub data Move : Type 0 where
  reads_next : Settings → Move
  skips_one : Settings → Move
  leaves : ClientOutcome → Move

-- An option that is the last argument.
unfoldable pub end_option : ClientOption → Settings → ClientOutcome
end_option usage s = prints_usage
end_option benchmark s = starts (record s { benchmark_mode = true })
end_option interactive s = starts (record s { benchmark_mode = false })
end_option other s = stops bad_option
end_option _ s = stops no_value

abbrev pub go : (Settings → ClientOutcome) → (Settings → ClientOutcome) → Move → ClientOutcome
go here behind (reads_next s) = here s
go here behind (skips_one s) = behind s
go here behind (leaves o) = o

module _ (atoi : String → ℤ) where
  -- An option with the argument behind it.
  unfoldable pub client_step : ClientOption → String → Settings → Move
  client_step usage v s = leaves prints_usage
  client_step server v s = skips_one (record s { server_ip = v })
  client_step port v s =
      if pos_part (atoi v) == 0
      then leaves (stops bad_port)
      else (if ltb 65535 (pos_part (atoi v))
          then leaves (stops bad_port)
          else skips_one (record s { server_port = pos_part (atoi v) }))
  client_step benchmark v s =
      let s' = record s { benchmark_mode = true } in
      if starts_with v "-"
      then reads_next s'
      else (if pos_part (atoi v) == 0
          then leaves (stops bad_number)
          else skips_one (record s' { num_messages = pos_part (atoi v) }))
  client_step interactive v s = reads_next (record s { benchmark_mode = false })
  client_step other v s = leaves (stops bad_option)

  unfoldable pub client_parse : List String → Settings → ClientOutcome
  unfolding client_step end_option
  client_parse [] s = starts s
  client_parse (arg ∷ []) s = end_option (client_option arg) s
  client_parse (arg ∷ v ∷ rest) s =
      go (client_parse (v ∷ rest)) (client_parse rest) (client_step (client_option arg) v s)

-- A port that can be connected to, and at least one message.
abbrev pub IsUsable : Settings → Type 0
IsUsable s = (1 ≤ s.server_port) × (s.server_port ≤ 65535) × (1 ≤ s.num_messages)

abbrev pub Starts : (Settings → Type 0) → ClientOutcome → Type 0
Starts P (starts s) = P s
Starts P _ = Unit {0}

abbrev MoveKeeps : (Settings → Type 0) → Move → Type 0
MoveKeeps P (reads_next s) = P s
MoveKeeps P (skips_one s) = P s
MoveKeeps P (leaves o) = Starts P o

client_step-IsUsable :
    (atoi : String → ℤ) (option : ClientOption) (v : String) (s : Settings)
    → IsUsable s
    → MoveKeeps IsUsable (client_step atoi option v s)
unfolding client_step
client_step-IsUsable atoi port v s h = ground arith
client_step-IsUsable atoi benchmark v s h = ground arith
client_step-IsUsable atoi usage v s h = tt
client_step-IsUsable atoi server v s h = h
client_step-IsUsable atoi interactive v s h = h
client_step-IsUsable atoi other v s h = tt

end_option-IsUsable :
    (option : ClientOption) (s : Settings) → IsUsable s → Starts IsUsable (end_option option s)
unfolding end_option
end_option-IsUsable benchmark s h = h
end_option-IsUsable interactive s h = h
end_option-IsUsable usage s h = tt
end_option-IsUsable _ s h = tt

go-Starts :
    (P : Settings → Type 0) (here behind : Settings → ClientOutcome) (m : Move)
    → ((s : Settings) → P s → Starts P (here s))
    → ((s : Settings) → P s → Starts P (behind s))
    → MoveKeeps P m
    → Starts P (go here behind m)
go-Starts P here behind (reads_next s) h b k = h s k
go-Starts P here behind (skips_one s) h b k = b s k
go-Starts P here behind (leaves o) h b k = k

-- Whatever the arguments are and whatever `atoi` makes of them, from settings with a port from 1 to
-- 65535 and at least one message the client starts only with such settings.
pub client_parse-IsUsable :
    (atoi : String → ℤ) (args : List String) (s : Settings)
    → IsUsable s
    → Starts IsUsable (client_parse atoi args s)
unfolding client_parse
client_parse-IsUsable atoi [] s h = h
client_parse-IsUsable atoi (arg ∷ []) s h = end_option-IsUsable (client_option arg) s h
client_parse-IsUsable atoi (arg ∷ v ∷ rest) s h =
    go-Starts IsUsable (client_parse atoi (v ∷ rest)) (client_parse atoi rest)
      (client_step atoi (client_option arg) v s) (λ t k. client_parse-IsUsable atoi (v ∷ rest) t k)
      (λ t k. client_parse-IsUsable atoi rest t k)
      (client_step-IsUsable atoi (client_option arg) v s h)
