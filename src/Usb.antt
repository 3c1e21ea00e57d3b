-- ===== src/Usb.antt =====
-- crates/elanprint-usb: the byte transport. `nusb` and the runtime's timers are the environment.
pub mod Transfer
use elanprint_rs.Prelude.{ℕ, List}

pub data EndpointIn : Type 0 where
  image status touch_wait : EndpointIn

-- `EndpointIn::address`.
unfoldable pub address : EndpointIn → ℕ
address image = 0x82
address status = 0x83
address touch_wait = 0x84

-- The failures of the operating system that `nusb` reports as `io::Error`, by their kind.
pub data IoKind : Type 0 where
  permission_denied not_found other : IoKind

-- `TransferError` of `nusb`.
pub data TransferError : Type 0 where
  cancelled stall disconnected fault unknown : TransferError

pub data UsbError : Type 0 where
  not_found : UsbError
  unsupported_product : ℕ → UsbError
  permission : UsbError
  timeout touch_wait_silent : ℕ → UsbError
  cancelled : UsbError
  -- wanted, got, data
  short_read : ℕ → ℕ → List ℕ → UsbError
  disconnected stall : UsbError
  transfer : TransferError → UsbError
  io : IoKind → UsbError

-- `UsbError::from_open`.
unfoldable pub from_open : IoKind → UsbError
from_open permission_denied = permission
from_open IoKind.not_found = UsbError.not_found
from_open other = io other

-- `From<TransferError> for UsbError`.
unfoldable pub from_transfer : TransferError → UsbError
from_transfer TransferError.cancelled = UsbError.cancelled
from_transfer TransferError.disconnected = UsbError.disconnected
from_transfer TransferError.stall = UsbError.stall
from_transfer fault = transfer fault
from_transfer TransferError.unknown = transfer TransferError.unknown
