-- ===== src/Tests/Usb.antt =====
-- crates/elanprint-usb on a small bus.
use elanprint_rs.Prelude.{ℕ, ◌≡◌, List, [], ◌∷◌, replicate, length, some, ok, arith}
use elanprint_rs.Usb.Transfer.{BusDevice, completed, recv}
use elanprint_rs.Usb.Transfer.Laws.{told, recv-told}

abbrev sensor : BusDevice
sensor = record { vendor_id = 0x04f3; product_id = 0x0c90; opens = ok tt; claims = ok tt }

-- Another model of the vendor.
abbrev sibling : BusDevice
sibling = record { vendor_id = 0x04f3; product_id = 0x0c4f; opens = ok tt; claims = ok tt }

-- A 70 byte record comes as one transfer of 70 bytes.
recv-told_example :
    (recv 70 1000 (completed (ok (replicate 70 0)) ∷ [])
      ≡ some (told 70 1000 (completed (ok (replicate 70 0)))))
    × ((bytes : List ℕ)
        → told 70 1000 (completed (ok (replicate 70 0))) ≡ ok bytes
        → length bytes ≡ 70)
recv-told_example = recv-told 70 1000 (completed (ok (replicate 70 0))) [] (omega arith)
