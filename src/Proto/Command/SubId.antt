-- ===== src/Proto/Command/SubId.antt =====
-- The number of enrollment stages, and the sub id that names a slot in a commit.
use elanprint_rs.Prelude.{
  ℕ, ◌+◌, ◌%◌, ◌≡◌, refl, ◌≤◌, ◌<◌, List, Option, arith, agree_under, agree_under→eq, true,
}
use elanprint_rs.Proto.Command.{sub_id, enroll_stages}

-- Whatever the environment says, an enrollment takes between 1 and 32 stages, so its `u8` counter
-- of accepted samples cannot overflow.
pub enroll_stages_bounds :
    (raw : Option (List ℕ)) → (1 ≤ enroll_stages raw) × (enroll_stages raw ≤ 32)
unfolding enroll_stages
enroll_stages_bounds raw = ground arith

sub_id_table : agree_under sub_id (λ f. 0xf0 + (f + 5) % 16) 256 ≡ true
unfolding agree_under sub_id
sub_id_table = refl

sub_id-mod : (f : ℕ) → f < 256 → sub_id f ≡ 0xf0 + (f + 5) % 16
sub_id-mod f h = agree_under→eq sub_id (λ x. 0xf0 + (x + 5) % 16) 256 f h sub_id_table

-- The sub id of every slot that enrollment may write (0 to 15) is a byte of the form 0xf..
pub sub_id-bounds : (f : ℕ) → f ≤ 15 → (0xf0 ≤ sub_id f) × (sub_id f < 256)
sub_id-bounds f h = let p = sub_id-mod f (omega arith) in (omega arith, omega arith)

-- Two slots that enrollment may write never share a sub id.
sub_id-injective : (f g : ℕ) → f ≤ 15 → g ≤ 15 → sub_id f ≡ sub_id g → f ≡ g
sub_id-injective f g hf hg e =
    let pf = sub_id-mod f (omega arith) in let pg = sub_id-mod g (omega arith) in omega arith
