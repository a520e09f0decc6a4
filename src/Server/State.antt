-- ===== src/Server/State.antt =====
-- The state of AirCtrlServer (src/server/server.h). An error text that is empty is `none`; of the
-- descriptors and locks only what they guard is here.
pub mod Distinct
use air_ctrl_desklet.Prelude.{
  ℕ, Bool, List, [], ◌∷◌, Option, none, some, String, ◌==◌, if◌then◌else◌, nat_eq,
}
use air_ctrl_desklet.Json.{Json}
use air_ctrl_desklet.Automation.Types.{Engine}

-- ClientConnection, its buffers as bytes.
pub record Client : Type 0 where
  pub input : List ℕ
  pub output : List ℕ
  pub close_after_write : Bool

-- DeviceCommand
pub record Command : Type 0 where
  pub client : ℕ
  pub id : ℕ
  pub values : Json
  pub automated : Bool
  pub source : String
  pub occurrence_key : Option String

-- ServerEvent by its kind.
pub data Event : Type 0 where
  started : Event
  state_changed : String → Option String → Event
  status_received : Json → Event
  controlled : Command → Bool → Option String → Event

pub record Server (S : Type 0) : Type 0 where
  pub engine : Engine S
  pub clients : List (ℕ × Client)
  pub next_client : ℕ
  pub automation_editor : ℕ
  pub next_automation_id : ℕ
  pub state : String
  pub state_error : Option String
  pub starts : ℕ
  pub last_status : Json
  pub refresh_scheduled : Bool
  pub accepted_any : Bool
  pub quit_requested : Bool
  pub exit_on_idle : Bool
  pub stopping : Bool
  pub device_ready : Bool
  pub reconnect_requested : Bool
  pub commands : List Command
  pub pending_confirmation : Option Command
  pub events : List Event
  pub status_log : List Json
  pub status_log_writable : Bool
  pub status_log_error_reported : Bool

-- The client map, by identifier.
unfoldable pub lookup : ℕ → List (ℕ × Client) → Option Client
lookup id [] = none
lookup id ((i, c) ∷ rest) = if i == id then some c else lookup id rest

unfoldable pub erase : ℕ → List (ℕ × Client) → List (ℕ × Client)
erase id [] = []
erase id ((i, c) ∷ rest) = if i == id then rest else (i, c) ∷ erase id rest

unfoldable pub update : ℕ → (Client → Client) → List (ℕ × Client) → List (ℕ × Client)
update id f [] = []
update id f ((i, c) ∷ rest) = if i == id then (i, f c) ∷ rest else (i, c) ∷ update id f rest

unfoldable pub ids : List (ℕ × Client) → List ℕ
ids [] = []
ids ((i, c) ∷ rest) = i ∷ ids rest
