-- ===== src/Preflight/Patterns.antt =====
-- The regular expressions of the script, and the groups of IMAGE_PATTERN.
use inventory_cloud_service.Base.{
  ℕ, zero, suc, Bool, false, ◌&&◌, ◌||◌, Option, none, some, List, [], ◌∷◌, ◌==◌, nat_eq, leb,
  length, any, if◌then◌else◌,
}
use Prim.Native.Char.{code}
use Prim.Native.String.{String}
use inventory_cloud_service.Base.Text.{codes, first_characters}
use inventory_cloud_service.Base.Pattern.{is_digit, is_lower_alnum, is_hex}
use inventory_cloud_service.Base.Regex.{
  Regex, one, chain, either, many, never, full_match, literal, some_of, maybe, times, up_to,
}

abbrev is_lower : ℕ → Bool
is_lower c = leb b'a' c && leb c b'z'

abbrev is_letter : ℕ → Bool
is_letter c = is_lower c || (leb b'A' c && leb c b'Z')

abbrev is_alnum : ℕ → Bool
is_alnum c = is_letter c || (leb b'0' c && leb c b'9')

infixr 60 ◌⋯◌
abbrev ◌⋯◌ : Regex → Regex → Regex
r ⋯ s = chain r s

abbrev one_of : List ℕ → Regex
one_of cs = one (λ c. any (λ d. d == c) cs)

abbrev any_literal : List String → Regex
any_literal [] = never
any_literal (s ∷ ss) = either (literal s) (any_literal ss)

abbrev pub region_pattern : Regex
region_pattern =
    any_literal ("us" ∷ "eu" ∷ "ap" ∷ "ca" ∷ "sa" ∷ "me" ∷ "af" ∷ "il" ∷ "mx" ∷ [])
    ⋯ literal "-"
    ⋯ some_of (one is_lower)
    ⋯ literal "-"
    ⋯ some_of (one is_digit)

abbrev pub account_pattern : Regex
account_pattern = times 12 (one is_digit)

-- `[a-z0-9][a-z0-9.-]+[a-z0-9]`
abbrev pub bucket_pattern : Regex
bucket_pattern =
    one is_lower_alnum
    ⋯ some_of (one (λ c. is_lower_alnum c || c == b'.' || c == b'-'))
    ⋯ one is_lower_alnum

abbrev pub address_pattern : Regex
address_pattern =
    some_of (one is_digit)
    ⋯ literal "."
    ⋯ some_of (one is_digit)
    ⋯ literal "."
    ⋯ some_of (one is_digit)
    ⋯ literal "."
    ⋯ some_of (one is_digit)

abbrev repository_pattern : Regex
repository_pattern =
    some_of (one is_lower_alnum)
    ⋯ many (one_of (b'.' ∷ b'_' ∷ b'/' ∷ b'-' ∷ []) ⋯ some_of (one is_lower_alnum))

abbrev pub image_pattern : Regex
image_pattern =
    account_pattern
    ⋯ literal ".dkr.ecr."
    ⋯ some_of (one (λ c. is_lower_alnum c || c == b'-'))
    ⋯ literal ".amazonaws.com/"
    ⋯ repository_pattern
    ⋯ literal "@sha256:"
    ⋯ times 64 (one is_hex)

abbrev is_any_hex : ℕ → Bool
is_any_hex c = is_hex c || (leb b'A' c && leb c b'F')

abbrev pub uuid_pattern : Regex
uuid_pattern =
    times 8 (one is_any_hex)
    ⋯ times 3 (literal "-" ⋯ times 4 (one is_any_hex))
    ⋯ literal "-"
    ⋯ times 12 (one is_any_hex)

abbrev label_pattern : Regex
label_pattern = one is_alnum ⋯ maybe (up_to 61 (one (λ c. is_alnum c || c == b'-')) ⋯ one is_alnum)

abbrev host_labels : Regex
host_labels =
    some_of (label_pattern ⋯ literal ".") ⋯ times 2 (one is_letter) ⋯ up_to 61 (one is_letter)

-- HOST_PATTERN: the lookahead bounds the length of a text that is on one line in any case.
unfoldable pub is_host : String → Bool
is_host s =
    if leb 1 (length (codes s)) && leb (length (codes s)) 253
    then full_match host_labels (codes s)
    else false

abbrev pub secret_pattern : Regex
secret_pattern =
    some_of (one (λ c. is_alnum c || any (λ d. d == c) (codes "/_+=.@-")))
    ⋯ literal "-"
    ⋯ times 6 (one is_alnum)

abbrev owner_part : Regex
owner_part = some_of (one (λ c. is_alnum c || any (λ d. d == c) (codes "_.-")))

abbrev pub github_pattern : Regex
github_pattern = owner_part ⋯ literal "/" ⋯ owner_part

-- What stands before the first such character, and what behind it.
abbrev pub split_at : ℕ → String → String × String
split_at c String.[] = (String.[], String.[])
split_at c (String.◌∷◌ d s) =
    let rest = split_at c s in if code d == c then (String.[], s) else (String.◌∷◌ d rest.0, rest.1)

abbrev drop : ℕ → String → String
drop zero s = s
drop (suc n) String.[] = String.[]
drop (suc n) (String.◌∷◌ c s) = drop n s

-- The groups of IMAGE_PATTERN in a text that matches.
pub record ImageGroups : Type 0 where
  pub account : String
  pub region : String
  pub repository : String
  pub digest : String

-- `IMAGE_PATTERN.fullmatch(s)`: no group before a slash, a dot or an `@` holds that character.
unfoldable pub image_groups : String → Option ImageGroups
image_groups s =
    if full_match image_pattern (codes s)
    then (let (host, path) = split_at b'/' s in
        let (repository, digest) = split_at b'@' path in
        some (record {
          account = first_characters 12 host;
          region = (split_at b'.' (drop 21 host)).0;
          repository = repository;
          digest = digest;
        }))
    else none
