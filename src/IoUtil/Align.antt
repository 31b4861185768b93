-- ===== src/IoUtil/Align.antt =====
-- What `align_up` promises.
use starweld.Prelude.{
  ℕ, ◌+◌, ◌-◌, ◌*◌, ◌/◌, ◌%◌, ◌^◌, ◌≤◌, ◌<◌, ◌≡◌, arith, div-add-mod, mul-mod_right,
}
use starweld.Prelude.{mod-lt}
use starweld.IoUtil.{align_up}

round_up : (n align : ℕ) → 0 < align → (n + (align - n % align)) % align ≡ 0
round_up n align h =
    let e : n + (align - n % align) ≡ align * (n / align + 1) =
      grind (arith, div-add-mod n align) in
    rw e (mul-mod_right align _)

-- For a positive alignment and a sum of at most 2^64, align_up gives the least multiple of the
-- alignment that is not below the number.
pub align_up_lem :
    (n align : ℕ)
    → 0 < align
    → n + align ≤ 2 ^ 64
    → (n ≤ align_up n align) × (align_up n align < n + align) × (align_up n align % align ≡ 0)
unfolding align_up
align_up_lem n align h fits = ground (arith, round_up n align h, mod-lt n h)
