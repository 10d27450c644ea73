-- ===== src/Model/Spec/Validate.antt =====
-- coordinator/internal/model/spec.go, Validate and ParseSpec. The YAML decoder with known fields is the
-- parameter `decode`; the pattern of addresses is matched byte by byte.
pub mod Accepted
use drsync.Prelude.{
  is_some, ℕ, suc, Bool, true, false, ◌&&◌, ◌||◌, not, List, [], ◌∷◌, Option, none, some, Bytes,
  bytes, bytes_eq, ◌==◌, ltb, if◌then◌else◌, length,
}
use drsync.Model.Spec.{JobSpec, Rate, NotificationSpec, apply_defaults}
use drsync.Model.Spec.Paths.{has_prefix, paths_overlap}

pub data SpecError : Type 0 where
  undecodable api_version kind name_missing path_missing path_relative overlap too_many_filters
        deletes_mode on_dest_newer verify_mode sample_rate hardlinks spread_mode recipients_missing
        server_side_copy untranslatable marshal :
      SpecError
  filter_arity filter_key filter_empty filter_long bad_address : ℕ → SpecError

pub data Parsed : Type 0 where
  accepted : JobSpec → Parsed
  refused : SpecError → Parsed

-- maxFilterRules
abbrev pub max_filter_rules : ℕ
max_filter_rules = 64

-- maxFilterPattern
abbrev pub max_filter_pattern : ℕ
max_filter_pattern = 255

-- The body of the inner loop: one key with its pattern.
unfoldable pub check_rule : ℕ → Bytes → Bytes → Option SpecError
check_rule i k pat =
    if not (bytes_eq k (bytes "include")) && not (bytes_eq k (bytes "exclude"))
    then some (SpecError.filter_key i)
    else if bytes_eq pat []
    then some (SpecError.filter_empty i)
    else if ltb max_filter_pattern (length pat)
    then some (SpecError.filter_long i)
    else none

unfoldable pub check_filter : ℕ → List (Bytes × Bytes) → Option SpecError
check_filter i [] = some (SpecError.filter_arity i)
check_filter i ((k, pat) ∷ []) = check_rule i k pat
check_filter i (r ∷ q ∷ rest) = some (SpecError.filter_arity i)

abbrev pub or_else : Option SpecError → Option SpecError → Option SpecError
or_else (some e) later = some e
or_else none later = later

-- The loop over the filters, from the i-th on.
unfoldable pub check_filters : ℕ → List (List (Bytes × Bytes)) → Option SpecError
check_filters i [] = none
check_filters i (f ∷ fs) = or_else (check_filter i f) (check_filters (suc i) fs)

abbrev pub is_one_of : Bytes → List Bytes → Bool
is_one_of s [] = false
is_one_of s (t ∷ ts) = bytes_eq s t || is_one_of s ts

-- [^@\s]
abbrev pub is_address_byte : ℕ → Bool
is_address_byte b = not (b == 64 || (b == 32 || (b == 9 || (b == 10 || (b == 12 || b == 13)))))

-- \.[^@\s]+$ somewhere in what is left
unfoldable pub has_inner_dot : Bytes → Bool
has_inner_dot [] = false
has_inner_dot (b ∷ []) = false
has_inner_dot (b ∷ c ∷ rest) = b == 46 || has_inner_dot (c ∷ rest)

unfoldable pub all_plain : Bytes → Bool
all_plain [] = true
all_plain (b ∷ bs) = is_address_byte b && all_plain bs

-- [^@\s]+\.[^@\s]+$
unfoldable pub is_domain : Bytes → Bool
is_domain [] = false
is_domain (b ∷ bs) = all_plain (b ∷ bs) && has_inner_dot bs

-- emailRe from the local part on; `seen` says whether it has a byte.
unfoldable pub matches_address : Bool → Bytes → Bool
matches_address seen [] = false
matches_address seen (b ∷ bs) =
    let rest = matches_address true bs in
    if b == 64 then seen && is_domain bs else is_address_byte b && rest

-- The loop over the recipients, from the i-th on.
unfoldable pub check_recipients : ℕ → List Bytes → Option SpecError
check_recipients i [] = none
check_recipients i (a ∷ rest) =
    let later = check_recipients (suc i) rest in
    if matches_address false a then later else some (SpecError.bad_address i)

abbrev pub is_empty : List Bytes → Bool
is_empty [] = true
is_empty (x ∷ xs) = false

-- NotificationSpec.Enabled
abbrev pub wants_mail : NotificationSpec → Bool
wants_mail n = n.on_pass_complete || n.on_job_complete

-- r < 0 || r > 1, which a NaN is not
abbrev pub out_of_unit : Rate → Bool
out_of_unit r = if is_some r.nan then false else if r.negative then ltb 0 r.num else ltb r.den r.num

-- Validate from the `switch` on deletes.mode on.
unfoldable pub validate_modes : JobSpec → Option SpecError
validate_modes s =
    if not (is_one_of s.deletes_mode (bytes "report" ∷ bytes "mirror" ∷ []))
    then some SpecError.deletes_mode
    else if not (is_one_of s.copy.on_dest_newer (bytes "skip" ∷ bytes "overwrite" ∷ []))
    then some SpecError.on_dest_newer
    else if not (is_one_of s.verify.mode (bytes "on" ∷ bytes "off" ∷ []))
    then some SpecError.verify_mode
    else if out_of_unit s.verify.sample_rate
    then some SpecError.sample_rate
    else if not (is_one_of s.metadata.hardlinks (bytes "report" ∷ bytes "preserve" ∷ []))
    then some SpecError.hardlinks
    else if not (is_one_of s.tuning.spread_mode (bytes "auto" ∷ bytes "off" ∷ bytes "always" ∷ []))
    then some SpecError.spread_mode
    else if wants_mail s.notifications && is_empty s.notifications.recipients
    then some SpecError.recipients_missing
    else check_recipients 0 s.notifications.recipients

-- Validate up to the filters.
unfoldable pub validate_paths : JobSpec → Option SpecError
validate_paths s =
    if not (bytes_eq s.api_version (bytes "drsync/v1"))
    then some SpecError.api_version
    else if not (bytes_eq s.kind (bytes "Job"))
    then some SpecError.kind
    else if bytes_eq s.name []
    then some SpecError.name_missing
    else if bytes_eq s.source [] || bytes_eq s.destination []
    then some SpecError.path_missing
    else if not (has_prefix s.source (bytes "/")) || not (has_prefix s.destination (bytes "/"))
    then some SpecError.path_relative
    else if paths_overlap s.source s.destination
    then some SpecError.overlap
    else none

-- The test of the number of filters, and the loop over them.
unfoldable pub validate_filters : JobSpec → Option SpecError
validate_filters s =
    if ltb max_filter_rules (length s.filters)
    then some SpecError.too_many_filters
    else check_filters 0 s.filters

-- Validate
unfoldable pub validate : JobSpec → Option SpecError
validate s = or_else (validate_paths s) (or_else (validate_filters s) (validate_modes s))

abbrev pub accept : JobSpec → Option SpecError → Parsed
accept s none = Parsed.accepted s
accept s (some e) = Parsed.refused e

abbrev pub default_and_check : Option JobSpec → Parsed
default_and_check none = Parsed.refused SpecError.undecodable
default_and_check (some s) = let full = apply_defaults s in accept full (validate full)

-- ParseSpec
unfoldable pub parse_spec : (Bytes → Option JobSpec) → Bytes → Parsed
parse_spec decode text = default_and_check (decode text)

-- What is left of a parse where only its success matters.
abbrev pub accepted_spec : Parsed → Option JobSpec
accepted_spec (Parsed.accepted s) = some s
accepted_spec (Parsed.refused e) = none
