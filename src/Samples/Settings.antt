-- ===== src/Samples/Settings.antt =====
-- A size of the agent's configuration.
use datum.Prelude.{arith, ◌≡◌, refl, none, some, [], ◌∷◌}
use datum.Prelude.Int.{pos, negsuc}
use datum.Text.{text_eq, text_beq, text_lt, bytes}
use datum.Config.{default_settings, parse_config, unknown_keys}
use datum.Config.Durations.{parse_duration, duration_string}
use datum.Config.Sizes.{parse_size, size_string}
use datum.Config.Sizes.RoundTrip.{parse_size-size_string}

printed : size_string 16777216 ≡ bytes "16MiB"
unfolding size_string
printed = refl

half : size_string 1610612736 ≡ bytes "1536MiB"
unfolding size_string
half = refl

small_letters : parse_size (λ s scale. none) (bytes " 16 mib") ≡ some 16777216
unfolding parse_size text_beq
small_letters = refl

minutes : duration_string (bytes "30m0s") ≡ bytes "30m"
unfolding duration_string text_beq
minutes = refl

too_large : parse_size (λ s scale. none) (bytes "8388608TiB") ≡ none
unfolding parse_size text_beq
too_large = refl

two_days : parse_duration (λ s. none) (bytes "2d") ≡ some (pos 172800000000000)
unfolding parse_duration text_beq
two_days = refl

back : parse_duration (λ s. none) (bytes "-1d") ≡ some (negsuc 86399999999999)
unfolding parse_duration text_beq
back = refl

long : parse_duration (λ s. none) (bytes "106752d") ≡ none
unfolding parse_duration text_beq
long = refl

nameless : parse_config default_settings ≡ none
unfolding parse_config text_beq
nameless = refl

warnings :
    unknown_keys
      (λ t. t)
      ((bytes "trust", some (bytes "signer" ∷ bytes "require" ∷ []))
        ∷ (bytes "hosts", none)
        ∷ (bytes "host", none)
        ∷ [])
    ≡ bytes "unknown key hosts" ∷ bytes "unknown key trust.signer" ∷ []
unfolding unknown_keys text_beq text_lt
warnings = refl

parse_size-size_string_example :
    parse_size (λ s scale. none) (size_string 1610612736) ≡ some 1610612736
parse_size-size_string_example = parse_size-size_string (λ s scale. none) 1610612736 (omega arith)
