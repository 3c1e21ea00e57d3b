-- ===== src/Usb/Transfer.antt =====
-- `Device::open`, `send`, `recv` and `cmd` of crates/elanprint-usb/src/lib.rs.
pub mod Laws
use elanprint_rs.Prelude.{
  ℕ, ◌+◌, ◌-◌, ◌*◌, ◌/◌, true, false, List, [], ◌∷◌, ◌++◌, Option, none, some, Result, ok, err,
  ◌==◌, ltb, ◌&&◌, if◌then◌else◌, length, take, map_err,
}
use elanprint_rs.Usb.{
  IoKind, TransferError, UsbError, from_open, from_transfer, unsupported_product, timeout,
  short_read,
}

abbrev pub vid : ℕ
vid = 0x04f3

abbrev pub pid : ℕ
pid = 0x0c90

abbrev pub max_packet : ℕ
max_packet = 64

-- What the runtime answers to one `select!` over the token, the timer and the transfer.
pub data Waited (A : Type 0) : Type 0 where
  cancelled timed_out : Waited A
  completed : Result A TransferError → Waited A

-- A device on the bus: its vendor, its product, and how opening and claiming it end.
pub record BusDevice : Type 0 where
  pub vendor_id : ℕ
  pub product_id : ℕ
  pub opens : Result (Unit {0}) IoKind
  pub claims : Result (Unit {0}) IoKind

with_vendor : List BusDevice → List BusDevice
with_vendor [] = []
with_vendor (d ∷ ds) = if d.vendor_id == vid then d ∷ with_vendor ds else with_vendor ds

find_product : List BusDevice → Option BusDevice
find_product [] = none
find_product (d ∷ ds) = if d.product_id == pid then some d else find_product ds

claim_device : BusDevice → Result BusDevice UsbError
claim_device d = elim d.opens [
  | err e ↦ err (from_open e)
  | ok done ↦ elim d.claims [ err e ↦ err (from_open e) | ok done' ↦ ok d ]
]

no_product : List BusDevice → Result BusDevice UsbError
no_product [] = err UsbError.not_found
no_product (d ∷ ds) = err (unsupported_product d.product_id)

choose : List BusDevice → Result BusDevice UsbError
unfolding find_product claim_device no_product
choose elan = elim (find_product elan) [ some d ↦ claim_device d | none ↦ no_product elan ]

-- `Device::open`, on the answer of `list_devices`.
unfoldable pub open_device : Result (List BusDevice) IoKind → Result BusDevice UsbError
unfolding with_vendor choose
open_device (err e) = err (UsbError.io e)
open_device (ok devices) = choose (with_vendor devices)

-- `Device::send`.
unfoldable pub send : ℕ → Waited (Unit {0}) → Result (Unit {0}) UsbError
send limit cancelled = err UsbError.cancelled
send limit timed_out = err (timeout limit)
send limit (completed r) = map_err from_transfer r

-- `next_multiple_of(MAX_PACKET)`.
unfoldable pub next_multiple : ℕ → ℕ
next_multiple n = (n + (max_packet - 1)) / max_packet * max_packet

-- One round of the loop of `Device::recv`, up to the next test of its condition.
after_wait :
    ℕ
    → ℕ
    → List ℕ
    → (List ℕ → Option (Result (List ℕ) UsbError))
    → Waited (List ℕ)
    → Option (Result (List ℕ) UsbError)
after_wait len limit buf next cancelled = some (err UsbError.cancelled)
after_wait len limit buf next timed_out = some (err (timeout limit))
after_wait len limit buf next (completed (err e)) = some (err (from_transfer e))
after_wait len limit buf next (completed (ok chunk)) =
    if ltb (length (buf ++ chunk)) len && ltb (length chunk) (next_multiple (len - length buf))
    then some (err (short_read len (length (buf ++ chunk)) (buf ++ chunk)))
    else next (buf ++ chunk)

-- The loop of `Device::recv`. The list holds what each round of the loop meets; `timed_out` also
-- stands for a deadline that has passed before the transfer is posted. `none`: still waiting.
recv_from : ℕ → ℕ → List ℕ → List (Waited (List ℕ)) → Option (Result (List ℕ) UsbError)
unfolding after_wait
recv_from len limit buf [] = if ltb (length buf) len then none else some (ok (take len buf))
recv_from len limit buf (w ∷ ws) =
    if ltb (length buf) len
    then after_wait len limit buf (λ more. recv_from len limit more ws) w
    else some (ok (take len buf))

-- `Device::recv`.
unfoldable pub recv : ℕ → ℕ → List (Waited (List ℕ)) → Option (Result (List ℕ) UsbError)
unfolding recv_from
recv len limit = recv_from len limit []

-- `Device::cmd`.
unfoldable pub cmd :
    ℕ → ℕ → Waited (Unit {0}) → List (Waited (List ℕ)) → Option (Result (List ℕ) UsbError)
cmd len limit sent rounds = elim (send limit sent) [
  | err e ↦ some (err e)
  | ok done ↦ recv len limit rounds
]
