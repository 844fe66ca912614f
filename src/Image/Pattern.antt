-- ===== src/Image/Pattern.antt =====
-- `IMAGE_ID` and `REGISTRY_IMAGE`, as `fullmatch` applies them. In `REGISTRY_IMAGE` each repeated
-- class lacks the character that follows it, so the longest match is the only one.
use inventory_cloud_service.Base.{
  ℕ, String, Bool, true, false, ◌&&◌, ◌||◌, Option, none, some, List, [], ◌∷◌, ◌==◌, nat_eq, length,
  all,
}
use inventory_cloud_service.Base.Text.{codes}
use inventory_cloud_service.Base.Pattern.{
  is_digit, is_lower_alnum, is_hex, after_literal, after_count, after_some,
}

abbrev is_hex_64 : Option (List ℕ) → Bool
is_hex_64 none = false
is_hex_64 (some s) = length s == 64 && all is_hex s

abbrev image_id_codes : List ℕ → Bool
image_id_codes s = is_hex_64 (after_literal (codes "sha256:") s)

-- `IMAGE_ID.fullmatch(s)`
unfoldable pub is_image_id : String → Bool
unfolding is_hex
is_image_id s = image_id_codes (codes s)

-- `[._/-]`
abbrev is_separator : ℕ → Bool
is_separator c = c == b'.' || c == b'_' || c == b'/' || c == b'-'

-- `[a-z0-9]+(?:[._/-][a-z0-9]+)*` up to the first `@`, and what follows that. The flag tells that
-- a letter or digit stands in front.
abbrev after_repository : Bool → List ℕ → Option (List ℕ)
after_repository alnum [] = none
after_repository alnum (c ∷ s) =
    let rest = after_repository (is_lower_alnum c) s in
    elim (c == b'@') [
      | true ↦ elim alnum [ true ↦ some s | false ↦ none ]
      | false ↦ elim (is_lower_alnum c || (alnum && is_separator c)) [ true ↦ rest | false ↦ none ]
    ]

-- `[a-z0-9-]`
abbrev is_region : ℕ → Bool
is_region c = is_lower_alnum c || c == b'-'

infixl 5 ◌>=>◌
abbrev ◌>=>◌ : Option (List ℕ) → (List ℕ → Option (List ℕ)) → Option (List ℕ)
none >=> f = none
some s >=> f = f s

abbrev ends_in_image_id : Option (List ℕ) → Bool
ends_in_image_id none = false
ends_in_image_id (some s) = image_id_codes s

-- `REGISTRY_IMAGE.fullmatch(s)`
unfoldable pub is_registry_image : String → Bool
unfolding is_digit is_lower_alnum is_hex
is_registry_image s = ends_in_image_id (
    after_count is_digit 12 (codes s)
    >=> after_literal (codes ".dkr.ecr.")
    >=> after_some is_region
    >=> after_literal (codes ".amazonaws.com/")
    >=> after_repository false)
