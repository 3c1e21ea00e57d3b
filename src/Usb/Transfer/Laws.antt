-- ===== src/Usb/Transfer/Laws.antt =====
-- Which device is opened, and what a read returns.
use elanprint_rs.Prelude.{
  ℕ, zero, suc, ◌-◌, ◌≡◌, refl, ap, ◌∙◌, if◌then◌else◌, ◌≤◌, ◌<◌, false, List, [], ◌∷◌, ◌++◌,
  Option, none, some, Result, ok, err, arith, ltb, length, take, length-append,
}
use elanprint_rs.Usb.{UsbError, from_transfer, timeout, short_read}
use elanprint_rs.Usb.Transfer.{
  vid, pid, Waited, cancelled, timed_out, completed, BusDevice, with_vendor, find_product,
  after_wait, choose, open_device, next_multiple, recv_from, recv,
}

with_vendor-find :
    (ds : List BusDevice) (d : BusDevice)
    → find_product (with_vendor ds) ≡ some d
    → (d.vendor_id ≡ vid) × (d.product_id ≡ pid)
unfolding with_vendor find_product
with_vendor-find [] d h = (ground arith, ground arith)
with_vendor-find (x ∷ ds) d h = ground (arith, with_vendor-find ds d)

choose-find :
    (elan : List BusDevice) (o : Option BusDevice) (d : BusDevice)
    → find_product elan ≡ o
    → choose elan ≡ ok d
    → find_product elan ≡ some d
unfolding choose
choose-find [] none d e h = ground arith
choose-find (x ∷ elan) none d e h = ground arith
choose-find elan (some x) d e h = ground arith

-- Only the sensor 04f3:0c90 is ever opened: another model of the vendor is refused, whatever else
-- is on the bus and however the calls of the operating system end.
open_device-product :
    (devices : List BusDevice) (d : BusDevice)
    → open_device (ok devices) ≡ ok d
    → (d.vendor_id ≡ vid) × (d.product_id ≡ pid)
open_device-product devices d h =
    let elan = with_vendor devices in
    with_vendor-find devices d
      (choose-find elan (find_product elan) d refl (unfold open_device in h))

next_multiple-le : (n : ℕ) → n ≤ next_multiple n
unfolding next_multiple
next_multiple-le n = omega arith

length-take : (n : ℕ) {A : Type 0} (xs : List A) → n ≤ length xs → length (take n xs) ≡ n
length-take zero xs h = refl
length-take (suc n) [] h = omega arith
length-take (suc n) (x ∷ xs) h = omega (arith, length-take n xs (omega arith))

recv_from-full :
    (len limit : ℕ) (buf : List ℕ) (ws : List (Waited (List ℕ)))
    → ltb (length buf) len ≡ false
    → recv_from len limit buf ws ≡ some (ok (take len buf))
unfolding recv_from
recv_from-full len limit buf [] h = rw h
recv_from-full len limit buf (w ∷ ws) h = rw h

after_wait-one :
    (len limit : ℕ) (buf : List ℕ) (w : Waited (List ℕ)) (ws : List (Waited (List ℕ)))
    → after_wait len limit buf (λ b. recv_from len limit b ws) w
      ≡ after_wait len limit buf (λ b. some (ok (take len b))) w
unfolding after_wait
after_wait-one len limit buf (completed (ok chunk)) ws = ground (
  arith,
  length-append buf chunk,
  next_multiple-le (len - length buf),
  recv_from-full len limit (buf ++ chunk) ws,
)
after_wait-one len limit buf _ ws = refl

-- What the first completion alone decides.
decided : ℕ → ℕ → Waited (List ℕ) → Option (Result (List ℕ) UsbError)
decided len limit w =
    if ltb 0 len
    then after_wait len limit [] (λ b. some (ok (take len b))) w
    else some (ok (take len []))

recv-decided :
    (len limit : ℕ) (w : Waited (List ℕ)) (ws : List (Waited (List ℕ)))
    → recv len limit (w ∷ ws) ≡ decided len limit w
unfolding recv decided
recv-decided len limit w ws =
    ap (λ x. if ltb 0 len then x else some (ok (take len []))) (after_wait-one len limit [] w ws)

-- What a read of some bytes returns, by its first completion alone.
abbrev pub told : ℕ → ℕ → Waited (List ℕ) → Result (List ℕ) UsbError
told len limit cancelled = err UsbError.cancelled
told len limit timed_out = err (timeout limit)
told len limit (completed (err e)) = err (from_transfer e)
told len limit (completed (ok chunk)) =
    if ltb (length chunk) len
    then err (short_read len (length chunk) chunk)
    else ok (take len chunk)

decided-told :
    (len limit : ℕ) (w : Waited (List ℕ)) → 0 < len → decided len limit w ≡ some (told len limit w)
unfolding decided after_wait
decided-told len limit cancelled h = ground arith
decided-told len limit timed_out h = ground arith
decided-told len limit (completed (err e)) h = ground arith
decided-told len limit (completed (ok chunk)) h = ground (arith, next_multiple-le len)

told-length :
    (len limit : ℕ) (w : Waited (List ℕ)) (bytes : List ℕ)
    → told len limit w ≡ ok bytes
    → length bytes ≡ len
told-length len limit (completed (ok chunk)) bytes e = ground (arith, length-take len chunk)
told-length len limit (completed (err x)) bytes e = absurd (cc e)
told-length len limit cancelled bytes e = absurd (cc e)
told-length len limit timed_out bytes e = absurd (cc e)

-- A read of at least one byte tells what its first completion brings, whatever would come after it: of
-- enough bytes exactly the first that were asked for, in their order; of fewer a short read that holds
-- all of them, with their number and the number asked for; else the error.
pub recv-told :
    (len limit : ℕ) (w : Waited (List ℕ)) (ws : List (Waited (List ℕ)))
    → 0 < len
    → (recv len limit (w ∷ ws) ≡ some (told len limit w))
      × ((bytes : List ℕ) → told len limit w ≡ ok bytes → length bytes ≡ len)
recv-told len limit w ws h =
    (recv-decided len limit w ws ∙ decided-told len limit w h, told-length len limit w)
