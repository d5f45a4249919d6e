-- ===== src/Channels.antt =====
-- domain/channel: channel_session.py, channel_provider.py and channel_message.py
use edge_copilot_backend.Prelude.{
  String, Bool, true, Option, none, some, ◌≡◌, refl, ◌==◌, if◌then◌else◌,
}
use edge_copilot_backend.Values.{DateTime}
use edge_copilot_backend.StateMachine.{StrEnum}
use edge_copilot_backend.Identity.{Channel}

pub data ChannelSessionState : Type 0 where
  opened idle closed : ChannelSessionState

abbrev channel_session_state_name : ChannelSessionState → String
channel_session_state_name opened = "OPEN"
channel_session_state_name idle = "IDLE"
channel_session_state_name closed = "CLOSED"

abbrev pub channel_session_state_value : ChannelSessionState → String
channel_session_state_value opened = "open"
channel_session_state_value idle = "idle"
channel_session_state_value closed = "closed"

unfoldable pub channel_session_state_of_value : String → Option ChannelSessionState
channel_session_state_of_value text =
    if text == "open"
    then some opened
    else if text == "idle"
    then some idle
    else if text == "closed"
    then some closed
    else none

pub channel_session_state_of_value_lem :
    (a : ChannelSessionState)
    → channel_session_state_of_value (channel_session_state_value a) ≡ some a
unfolding channel_session_state_of_value
channel_session_state_of_value_lem opened = refl
channel_session_state_of_value_lem idle = refl
channel_session_state_of_value_lem closed = refl

instance abbrev pub channel_session_state_enum : StrEnum ChannelSessionState
channel_session_state_enum = record {
  class_name = "ChannelSessionState";
  member_name = channel_session_state_name;
  value = channel_session_state_value;
  of_value = channel_session_state_of_value;
  of_value-value = channel_session_state_of_value_lem;
}

pub record ChannelSession : Type 0 where
  pub channel_session_id : String
  pub channel : Channel
  pub channel_identity_id : String
  pub state : ChannelSessionState
  pub started_at : DateTime
  pub last_activity_at : DateTime

-- `grants_no_authority()` of a session
unfoldable pub session_grants_no_authority : ChannelSession → Bool
session_grants_no_authority session = true

pub record ChannelProvider : Type 0 where
  pub provider_id : String
  pub channel : Channel
  pub tenant_id : String
  pub display_name : String
  pub is_active : Bool

pub record ChannelMessage : Type 0 where
  pub channel_message_id : String
  pub channel : Channel
  pub channel_session_id : String
  pub provider_message_id : String
  pub received_at : DateTime
