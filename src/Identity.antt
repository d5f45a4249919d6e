-- ===== src/Identity.antt =====
-- domain/identity/: users, channel identities and memberships; domain/channel/: the records of
-- sessions, providers and messages of a channel.
pub mod Validity
use edge_copilot_backend.Prelude.{
  String, Bool, true, false, not, Option, none, some, List, ◌≡◌, refl, ◌==◌, if◌then◌else◌,
}
use edge_copilot_backend.Values.{Value, DateTime}
use edge_copilot_backend.Errors.{Result, ok, ◌>>=◌}
use edge_copilot_backend.StateMachine.{StrEnum, same}
use edge_copilot_backend.Time.{is_before, is_since}

pub data IdentityStatus : Type 0 where
  active suspended disabled : IdentityStatus

abbrev identity_status_name : IdentityStatus → String
identity_status_name active = "ACTIVE"
identity_status_name suspended = "SUSPENDED"
identity_status_name disabled = "DISABLED"

abbrev pub identity_status_value : IdentityStatus → String
identity_status_value active = "active"
identity_status_value suspended = "suspended"
identity_status_value disabled = "disabled"

unfoldable pub identity_status_of_value : String → Option IdentityStatus
identity_status_of_value text =
    if text == "active"
    then some active
    else if text == "suspended"
    then some suspended
    else if text == "disabled"
    then some disabled
    else none

pub identity_status_of_value_lem :
    (a : IdentityStatus) → identity_status_of_value (identity_status_value a) ≡ some a
unfolding identity_status_of_value
identity_status_of_value_lem active = refl
identity_status_of_value_lem suspended = refl
identity_status_of_value_lem disabled = refl

instance abbrev pub identity_status_enum : StrEnum IdentityStatus
identity_status_enum = record {
  class_name = "IdentityStatus";
  member_name = identity_status_name;
  value = identity_status_value;
  of_value = identity_status_of_value;
  of_value-value = identity_status_of_value_lem;
}

pub record User : Type 0 where
  pub user_id : String
  pub external_identity_id : String
  pub status : IdentityStatus
  pub created_at : DateTime
  pub updated_at : DateTime

unfoldable pub is_usable : User → Bool
is_usable u = same u.status IdentityStatus.active

pub data Channel : Type 0 where
  whatsapp web mobile voice api : Channel

abbrev channel_name : Channel → String
channel_name whatsapp = "WHATSAPP"
channel_name web = "WEB"
channel_name mobile = "MOBILE"
channel_name voice = "VOICE"
channel_name api = "API"

abbrev pub channel_value : Channel → String
channel_value whatsapp = "whatsapp"
channel_value web = "web"
channel_value mobile = "mobile"
channel_value voice = "voice"
channel_value api = "api"

unfoldable pub channel_of_value : String → Option Channel
channel_of_value text =
    if text == "whatsapp"
    then some whatsapp
    else if text == "web"
    then some web
    else if text == "mobile"
    then some mobile
    else if text == "voice"
    then some voice
    else if text == "api"
    then some api
    else none

pub channel_of_value_lem : (a : Channel) → channel_of_value (channel_value a) ≡ some a
unfolding channel_of_value
channel_of_value_lem whatsapp = refl
channel_of_value_lem web = refl
channel_of_value_lem mobile = refl
channel_of_value_lem voice = refl
channel_of_value_lem api = refl

instance abbrev pub channel_enum : StrEnum Channel
channel_enum = record {
  class_name = "Channel";
  member_name = channel_name;
  value = channel_value;
  of_value = channel_of_value;
  of_value-value = channel_of_value_lem;
}

pub data VerificationStatus : Type 0 where
  unverified pending verified : VerificationStatus

abbrev verification_status_name : VerificationStatus → String
verification_status_name unverified = "UNVERIFIED"
verification_status_name pending = "PENDING"
verification_status_name verified = "VERIFIED"

abbrev pub verification_status_value : VerificationStatus → String
verification_status_value unverified = "unverified"
verification_status_value pending = "pending"
verification_status_value verified = "verified"

unfoldable pub verification_status_of_value : String → Option VerificationStatus
verification_status_of_value text =
    if text == "unverified"
    then some unverified
    else if text == "pending"
    then some pending
    else if text == "verified"
    then some verified
    else none

pub verification_status_of_value_lem :
    (a : VerificationStatus) → verification_status_of_value (verification_status_value a) ≡ some a
unfolding verification_status_of_value
verification_status_of_value_lem unverified = refl
verification_status_of_value_lem pending = refl
verification_status_of_value_lem verified = refl

instance abbrev pub verification_status_enum : StrEnum VerificationStatus
verification_status_enum = record {
  class_name = "VerificationStatus";
  member_name = verification_status_name;
  value = verification_status_value;
  of_value = verification_status_of_value;
  of_value-value = verification_status_of_value_lem;
}

pub record ChannelIdentity : Type 0 where
  pub channel_identity_id : String
  pub user_id : String
  pub channel : Channel
  pub provider : String
  pub provider_subject_id : String
  pub phone_hash : Option String
  pub encrypted_contact : Option String
  pub verification_status : VerificationStatus
  pub verified_at : Option DateTime
  pub status : IdentityStatus
  pub created_at : DateTime
  pub updated_at : DateTime

-- `grants_no_authority()`
unfoldable pub grants_no_authority : ChannelIdentity → Bool
grants_no_authority identity = true

pub data MembershipStatus : Type 0 where
  active suspended revoked : MembershipStatus

abbrev membership_status_name : MembershipStatus → String
membership_status_name active = "ACTIVE"
membership_status_name suspended = "SUSPENDED"
membership_status_name revoked = "REVOKED"

abbrev pub membership_status_value : MembershipStatus → String
membership_status_value active = "active"
membership_status_value suspended = "suspended"
membership_status_value revoked = "revoked"

unfoldable pub membership_status_of_value : String → Option MembershipStatus
membership_status_of_value text =
    if text == "active"
    then some active
    else if text == "suspended"
    then some suspended
    else if text == "revoked"
    then some revoked
    else none

pub membership_status_of_value_lem :
    (a : MembershipStatus) → membership_status_of_value (membership_status_value a) ≡ some a
unfolding membership_status_of_value
membership_status_of_value_lem active = refl
membership_status_of_value_lem suspended = refl
membership_status_of_value_lem revoked = refl

instance abbrev pub membership_status_enum : StrEnum MembershipStatus
membership_status_enum = record {
  class_name = "MembershipStatus";
  member_name = membership_status_name;
  value = membership_status_value;
  of_value = membership_status_of_value;
  of_value-value = membership_status_of_value_lem;
}

pub record MembershipReference : Type 0 where
  pub membership_id : String
  pub user_id : String
  pub tenant_id : String
  pub organization_id : Option String
  pub role_references : List Value
  pub status : MembershipStatus
  pub valid_from : DateTime
  pub valid_until : Option DateTime

-- `not (self.valid_until is not None and now >= self.valid_until)`
abbrev not_over : Option DateTime → DateTime → Result Bool
not_over none now = ok true
not_over (some valid_until) now = do over ← is_since now valid_until; ok (not over)

unfoldable pub is_currently_valid : MembershipReference → DateTime → Result Bool
is_currently_valid m now = if not (same m.status MembershipStatus.active) then ok false else do
  early ← is_before now m.valid_from
  if early then ok false else not_over m.valid_until now
