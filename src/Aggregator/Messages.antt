-- ===== src/Aggregator/Messages.antt =====
-- api/wol/v1/wol.proto and internal/wol/aggregator.go: the messages of the service, and the entries of the
-- dedupe map.
use kubevirt_wol.Common.{ℕ, List, Bool, Option, Text}

-- The messages of the service.
pub record WolEvent : Type 0 where
  pub mac_address : Text
  pub timestamp : ℕ
  pub node_name : Text
  pub source_ip : Text
  pub source_port : ℕ
  pub packet_size : ℕ

pub data ResponseStatus : Type 0 where
  unknown accepted duplicate vm_not_found vm_start_initiated vm_already_running error :
      ResponseStatus

pub record VmState : Type 0 where
  pub name : Text
  pub namespace : Text
  pub current_state : Text

pub record WolEventResponse : Type 0 where
  pub status : ResponseStatus
  pub message : Text
  pub vm_info : Option VmState
  pub was_duplicate : Bool
  pub processing_time_ms : ℕ

pub data ServingStatus : Type 0 where
  unknown serving not_serving : ServingStatus

pub record DedupeEntry : Type 0 where
  pub last_seen : ℕ
  pub count : ℕ
  pub nodes : List Text
  pub last_response : Option WolEventResponse
