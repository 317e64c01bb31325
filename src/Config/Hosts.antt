-- ===== src/Config/Hosts.antt =====
-- `validateHostPattern`: internal/config/config.go.
use tanugate.Common.{
  String, Bool, not, Option, none, some, contains_char, has_prefix, trim_prefix, split, any, ◌===◌,
  if◌then◌else◌,
}

-- The errors, in the order in which the source tests for them.
pub data HostError : Type 0 where
  wildcard_not_leading empty_suffix second_wildcard single_label empty_label : HostError

abbrev pub has_empty_label : String → Bool
has_empty_label host = any (λ label. label === "") (split b'.' host)

unfoldable pub validate_wildcard : String → Option HostError
validate_wildcard suffix =
    if suffix === ""
    then some empty_suffix
    else if contains_char b'*' suffix
    then some second_wildcard
    else if not (contains_char b'.' suffix)
    then some single_label
    else if has_empty_label suffix
    then some empty_label
    else none

unfoldable pub validate_host_pattern : String → Option HostError
unfolding validate_wildcard
validate_host_pattern host =
    if contains_char b'*' host
    then (if not (has_prefix host "*.")
        then some wildcard_not_leading
        else validate_wildcard (trim_prefix host "*."))
    else (if has_empty_label host then some empty_label else none)
