-- ===== src/Proto/Status/Codes.antt =====
-- The status byte that a `Status` stands for.
use elanprint_rs.Prelude.{ℕ, ◌≡◌, ◌<◌, ◌↔◌, Result, arith, if◌then◌else◌}
use elanprint_rs.Proto.Status.{
  Retry, move_down, move_right, move_up, move_left, dirty, area_too_small, Status, max_enrolled,
  not_enrolled, unknown, classify, is_retry, match, verify_outcome,
}

-- `retry_code` of crates/elanprint-proto/src/enroll.rs.
unfoldable pub retry_code : Retry → ℕ
retry_code move_down = 0x41
retry_code move_right = 0x42
retry_code move_up = 0x43
retry_code move_left = 0x44
retry_code dirty = 0xfb
retry_code area_too_small = 0xfe

-- `status_code` of crates/elanprintd/src/worker.rs: it folds the retries into one byte.
unfoldable pub status_code : Status → ℕ
status_code (Status.ok b) = b
status_code (Status.retry r) = 0xfe
status_code max_enrolled = 0xdd
status_code not_enrolled = 0xfd
status_code (unknown b) = b

-- The byte that was classified, exactly: the independent inverse of `classify`.
unfoldable pub byte_of : Status → ℕ
unfolding retry_code
byte_of (Status.ok b) = b
byte_of (Status.retry r) = retry_code r
byte_of max_enrolled = 0xdd
byte_of not_enrolled = 0xfd
byte_of (unknown b) = b

-- Classifying a byte loses nothing: every byte is the byte of its status, the byte of a retry
-- (`retry_code`) classifies as that retry, and a byte stands for an accepted touch just when it is
-- below 16.
classify-byte_of :
    (b : ℕ) (r : Retry)
    → (byte_of (classify b) ≡ b)
      × (classify (retry_code r) ≡ Status.retry r)
      × ((classify b ≡ Status.ok b) ↔ (b < 16))
unfolding classify byte_of
classify-byte_of b r = (ground arith, ground arith, (λ h. ground arith, λ h. ground arith))

-- The chip reports a match of slot `id` by the one byte `id`, below 16, and by no other byte.
pub verify_outcome-match :
    (b id : ℕ) → (verify_outcome (classify b) ≡ Result.ok (match id)) ↔ ((b ≡ id) × (id < 16))
unfolding classify verify_outcome
verify_outcome-match b id = (λ h. ground arith, λ h. ground arith)

-- The code that a refused erase reports is the byte that the chip sent, but for a retry, which
-- reads 0xfe whatever its kind.
pub status_code-classify :
    (b : ℕ) → status_code (classify b) ≡ (if is_retry (classify b) then 0xfe else b)
unfolding classify status_code is_retry
status_code-classify b = ground arith
