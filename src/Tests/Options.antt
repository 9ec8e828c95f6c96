-- ===== src/Tests/Options.antt =====
-- Option strings at concrete inputs.
use svr.Base.{[], ◌∷◌, some, Bytes, ◌≡◌, refl}
use svr.OptionString.{get_value, consume_whitespace, parsed, parse, name_key, descriptor_key}
use svr.OptionString.Values.{get_value-until}
use svr.OptionString.Total.{parse-Ends, Ends}
use svr.OptionString.RoundTrip.{parse-print, Entry}
use svr.Tests.Association.{association}

-- " x y ,z": the space behind `y` is kept.
abbrev spaced : Bytes
spaced = 32 ∷ b'x' ∷ 32 ∷ b'y' ∷ 32 ∷ b',' ∷ b'z' ∷ []

get_value-until_example : get_value spaced ≡ (some (b'x' ∷ 32 ∷ b'y' ∷ 32 ∷ []), b',' ∷ b'z' ∷ [])
unfolding consume_whitespace
get_value-until_example = get_value-until spaced

-- "a:b" lacks the value.
abbrev no_value : Bytes
no_value = b'a' ∷ b':' ∷ b'b' ∷ []

parse-Ends_example : Ends no_value (parse association no_value)
parse-Ends_example = parse-Ends association no_value

abbrev quality : Entry
quality = (b'q' ∷ [], b'9' ∷ b'0' ∷ [])

parse-print_example :
    parse association (b'j' ∷ b':' ∷ b'q' ∷ b'=' ∷ b'9' ∷ b'0' ∷ [])
    ≡ parsed (
        (b'q' ∷ [], some (b'9' ∷ b'0' ∷ []))
        ∷ (name_key, some (b'j' ∷ []))
        ∷ (descriptor_key, some (b'j' ∷ b':' ∷ b'q' ∷ b'=' ∷ b'9' ∷ b'0' ∷ []))
        ∷ [])
parse-print_example =
    parse-print association (b'j' ∷ []) (quality ∷ []) (refl, tt)
      ((refl, tt), (refl, (refl, (refl, tt))), tt)
