-- ===== src/Security.antt =====
-- domain/security/security_context.py
use edge_copilot_backend.Prelude.{
  String, Bool, false, contains, any, Option, none, some, List, ◌≡◌, refl, ◌==◌, if◌then◌else◌,
}
use edge_copilot_backend.Values.{Value, DateTime}
use edge_copilot_backend.Errors.{Result}
use edge_copilot_backend.StateMachine.{StrEnum}
use edge_copilot_backend.Time.{is_since}

pub data AuthenticationStrength : Type 0 where
  password mfa device_bound service_account : AuthenticationStrength

abbrev authentication_strength_name : AuthenticationStrength → String
authentication_strength_name password = "PASSWORD"
authentication_strength_name mfa = "MFA"
authentication_strength_name device_bound = "DEVICE_BOUND"
authentication_strength_name service_account = "SERVICE_ACCOUNT"

abbrev pub authentication_strength_value : AuthenticationStrength → String
authentication_strength_value password = "password"
authentication_strength_value mfa = "mfa"
authentication_strength_value device_bound = "device_bound"
authentication_strength_value service_account = "service_account"

unfoldable pub authentication_strength_of_value : String → Option AuthenticationStrength
authentication_strength_of_value text =
    if text == "password"
    then some password
    else if text == "mfa"
    then some mfa
    else if text == "device_bound"
    then some device_bound
    else if text == "service_account"
    then some service_account
    else none

pub authentication_strength_of_value_lem :
    (a : AuthenticationStrength)
    → authentication_strength_of_value (authentication_strength_value a) ≡ some a
unfolding authentication_strength_of_value
authentication_strength_of_value_lem password = refl
authentication_strength_of_value_lem mfa = refl
authentication_strength_of_value_lem device_bound = refl
authentication_strength_of_value_lem service_account = refl

instance abbrev pub authentication_strength_enum : StrEnum AuthenticationStrength
authentication_strength_enum = record {
  class_name = "AuthenticationStrength";
  member_name = authentication_strength_name;
  value = authentication_strength_value;
  of_value = authentication_strength_of_value;
  of_value-value = authentication_strength_of_value_lem;
}

-- `user_id` and `session_id` are claims of the token and `roles` values of a row, which the code
-- passes on as it finds them.
pub record SecurityContext : Type 0 where
  pub context_id : String
  pub user_id : Value
  pub tenant_id : String
  pub organization_id : Option String
  pub membership_id : Option String
  pub roles : List Value
  pub permissions_snapshot : List String
  pub profile_type : String
  pub channel : String
  pub session_id : Value
  pub device_id : Option String
  pub authentication_strength : AuthenticationStrength
  pub issued_at : DateTime
  pub expires_at : DateTime
  pub policy_version : String
  pub context_version : String

-- `is_expired(now=now)`; `clock_now` is what `datetime.now(UTC)` gives when no `now` is passed.
unfoldable pub is_expired : SecurityContext → Option DateTime → DateTime → Result Bool
is_expired c none clock_now = is_since clock_now c.expires_at
is_expired c (some now) clock_now = is_since now c.expires_at

-- `role in roles`, which is `==` on a value: only a text is equal to a text.
abbrev pub is_role : String → Value → Bool
is_role role (Value.text t) = t == role
is_role role _ = false

unfoldable pub has_role : SecurityContext → String → Bool
has_role c role = any (is_role role) c.roles

unfoldable pub has_permission : SecurityContext → String → Bool
has_permission c permission = contains c.permissions_snapshot permission

unfoldable pub belongs_to_tenant : SecurityContext → String → Bool
belongs_to_tenant c tenant_id = c.tenant_id == tenant_id

unfoldable pub belongs_to_organization : SecurityContext → String → Bool
belongs_to_organization c organization_id = elim c.organization_id [
  | none ↦ false
  | some own ↦ own == organization_id
]
