-- ===== src/Delivery/Copies.antt =====
-- src/runtime-read-delivery.ts: the snapshot of a stored object and which of its copies can be read.
use z_s_app.Prelude.{
  ℕ, String, Bool, true, false, not, ◌&&◌, ◌||◌, Option, none, some, List, [], ◌∷◌, length, ltb,
  nat_beq, every, ◌==◌, string_eq, nat_eq, option_eq, if◌then◌else◌, codes,
}
use z_s_app.Config.Text.{is_digit, is_lower, between}
use z_s_app.Replicas.Jobs.{ResolvedProviderReadTarget}

pub data CopyState : Type 0 where
  pending verified failed missing delete_pending deleted : CopyState

pub data RegistryState : Type 0 where
  reserved active degraded delete_pending deleted : RegistryState

-- `ObjectReadDeliveryState`, which is also the role of a copy
pub data DeliveryState : Type 0 where
  hot canonical_fallback replica primary : DeliveryState

pub data ConfiguredRole : Type 0 where
  primary replica : ConfiguredRole

-- `ObjectReadCopySnapshot`, without the role
pub record CopySnapshot : Type 0 where
  pub storage_object_copy_id : String
  pub state : CopyState
  pub observed_checksum_sha256 : Option String
  pub observed_byte_length : Option ℕ
  pub latest_verified_at : Option String
  pub target : ResolvedProviderReadTarget

pub record ConfiguredCopy : Type 0 where
  pub role : ConfiguredRole
  pub order : ℕ
  pub copy : CopySnapshot

pub record LegacyCopies : Type 0 where
  pub hot : CopySnapshot
  pub canonical : CopySnapshot

pub record DeliverySnapshot : Type 0 where
  pub storage_object_id : String
  pub caller_app_id : String
  pub registry_state : RegistryState
  pub verified_checksum_sha256 : Option String
  pub verified_byte_length : Option ℕ
  pub verified_content_type : String
  pub copies : Option LegacyCopies
  pub configured_copies : Option (List ConfiguredCopy)

pub data Disposition : Type 0 where
  usable fallback conflict : Disposition

abbrev pub is_verified : CopyState → Bool
is_verified CopyState.verified = true
is_verified _ = false

abbrev pub is_some : Option String → Bool
is_some none = false
is_some (some x) = true

unfoldable pub usable_copy : CopySnapshot → String → ℕ → Disposition
usable_copy copy checksum byte_length =
    if not (is_verified copy.state)
    then fallback
    else if not (copy.observed_checksum_sha256 == some checksum)
        || not (copy.observed_byte_length == some byte_length)
    then conflict
    else if not (is_some copy.latest_verified_at)
    then fallback
    else usable

abbrev pub role_group : ConfiguredRole → ℕ
role_group ConfiguredRole.replica = 0
role_group ConfiguredRole.primary = 1

abbrev pub state_of_role : ConfiguredRole → DeliveryState
state_of_role ConfiguredRole.primary = DeliveryState.primary
state_of_role ConfiguredRole.replica = DeliveryState.replica

-- `after left right`: `left.localeCompare(right) > 0`
module _ (after : String → String → Bool) where
  -- the comparison of the two copies is positive
  abbrev pub sorts_after : ConfiguredCopy → ConfiguredCopy → Bool
  sorts_after left right =
      ltb (role_group right.role) (role_group left.role)
      || (nat_beq (role_group left.role) (role_group right.role)
          && (ltb right.order left.order
              || (nat_beq left.order right.order
                  && after left.copy.storage_object_copy_id right.copy.storage_object_copy_id)))

  unfoldable pub insert_copy : ConfiguredCopy → List ConfiguredCopy → List ConfiguredCopy
  insert_copy x [] = x ∷ []
  insert_copy x (y ∷ l) =
      let later = y ∷ insert_copy x l in if sorts_after x y then later else x ∷ y ∷ l

  unfoldable pub ordered_copies : List ConfiguredCopy → List ConfiguredCopy
  unfolding insert_copy
  ordered_copies [] = []
  ordered_copies (x ∷ l) = insert_copy x (ordered_copies l)

-- SHA256_PATTERN
abbrev pub is_sha256 : String → Bool
is_sha256 text =
    every (λ c. between b'a' b'f' c || is_digit c) (codes text) && nat_beq (length (codes text)) 64

abbrev is_subtype_mark : ℕ → Bool
is_subtype_mark c =
    is_lower c
    || between b'A' b'Z' c
    || is_digit c
    || nat_beq c b'.'
    || nat_beq c b'+'
    || nat_beq c b'-'

abbrev is_word_start : ℕ → Bool
is_word_start c = is_lower c || between b'A' b'Z' c || is_digit c

-- what follows the slash
abbrev is_subtype : List ℕ → Bool
is_subtype [] = false
is_subtype (c ∷ s) = is_word_start c && every is_subtype_mark s

is_type_rest : List ℕ → Bool
is_type_rest [] = false
is_type_rest (c ∷ s) = if nat_beq c b'/' then is_subtype s else is_subtype_mark c && is_type_rest s

-- MIME_PATTERN, which ignores case
unfoldable pub is_mime : List ℕ → Bool
unfolding is_type_rest
is_mime [] = false
is_mime (c ∷ s) = is_word_start c && is_type_rest s
