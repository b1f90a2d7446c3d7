-- ===== src/Nimbus/Types.antt =====
-- The parsed manifest of internal/nimbusfile/nimbusfile.go, with the source's field names.
-- A Go string is a `Text`; a nil pointer is `none`; a nil slice is an empty list.
use cnimbus.Common.{ℕ, Bool, Option, List}
use cnimbus.Common.Text.{Text}

pub record CopyOp : Type 0 where
  pub src : Text
  pub dest : Text
  pub is_url : Bool
  pub is_add : Bool
  pub chmod : ℕ

pub record EnvVar : Type 0 where
  pub key : Text
  pub value : Text

pub record ExposedPort : Type 0 where
  pub port : ℕ
  pub proto : Text

pub record Healthcheck : Type 0 where
  pub argv : List Text
  pub interval : Text
  pub retries : Text

pub record StaticIp : Type 0 where
  pub address : Text
  pub netmask : Text
  pub gateway : Text

pub record Volume : Type 0 where
  pub device : Text
  pub mountpoint : Text
  pub fs_type : Text
  pub required : Bool

pub record Service : Type 0 where
  pub name : Text
  pub argv : List Text
  pub restart : Text

pub record AgentHeader : Type 0 where
  pub name : Text
  pub value : Text

pub record Agent : Type 0 where
  pub kind : Text
  pub url : Text
  pub interval : Text
  pub headers : List AgentHeader

pub record Nimbusfile : Type 0 where
  pub kernel_version : Text
  pub busybox_version : Text
  pub arch : Text
  pub vga : Bool
  pub boot_profile : Text
  pub wifi_ssid : Text
  pub wifi_psk : Text
  pub wifi_country : Text
  pub hostname : Text
  pub dhcp : Bool
  pub static_ip : Option StaticIp
  pub dns : List Text
  pub ntp : List Text
  pub format : Text
  pub user : Text
  pub volumes : List Volume
  pub env : List EnvVar
  pub firewall : List Text
  pub firewall6 : List Text
  pub firewall_on_error : Text
  pub tmpfs_size : Text
  pub stop_grace : ℕ
  pub pieces_key : Text
  pub copies : List CopyOp
  pub entrypoint : List Text
  pub cmd : List Text
  pub services : List Service
  pub agent : Option Agent
  pub workdir : Text
  pub labels : List EnvVar
  pub exposed : List ExposedPort
  pub healthcheck : Option Healthcheck
  pub entrypoint_restart : Text
  pub base_dir : Text
  pub ntp_touched : Bool

-- One constructor for each `fmt.Errorf` of the file; the messages' texts are not modelled.
-- `out_of_fuel` is no error of the program: a loop of the model has run out of rounds.
pub data Reason : Type 0 where
  arg_needs_name arg_without_value undefined_arg unterminated_reference : Reason
  missing_value bad_arch bad_bool bad_boot_profile bad_format bad_firewall_on_error : Reason
  wifi_already_set ssid_too_long ssid_metachar psk_length psk_metachar psk_not_printable : Reason
  country_missing country_malformed ip_fields bad_address : Reason
  needs_key_value bad_protocol bad_port bad_flag_value : Reason
  restart_fields bad_policy no_such_service volume_fields bad_fstype : Reason
  rule_metachar rule_not_operation bad_tmpfs_size bad_stop_grace bad_pieces_key : Reason
  service_fields agent_fields header_without_agent header_fields agent_already_set : Reason
  bad_interval bad_chmod chmod_zero chmod_special copy_fields : Reason
  no_command bad_exec_form unknown_directive : Reason
  wifi_without_profile wifi_incomplete : Reason
  out_of_fuel : Reason

-- What the standard library decides for the parser: `net.ParseIP(s) != nil`, and
-- `json.Unmarshal` of a text into a list of strings.
pub record Runtime : Type 0 where
  pub is_ip : Text → Bool
  pub json_strings : Text → Option (List Text)
