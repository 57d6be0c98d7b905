-- ===== src/Vmm/Entry.antt =====
-- Page table entries and addresses: the fields that the macros set do not overlap.
use Prim.Native.Nat.{bit_or}
use optimsoc.Prelude.{
  ℕ, ◌+◌, ◌*◌, ◌/◌, ◌%◌, ◌^◌, ◌≡◌, ◌<◌, ap, ◌∙◌, arith, mul32, bit_or-disjoint,
  bit_or-disjoint_swap, zero-bit_or,
}
use optimsoc.Vmm.{table_entry, page_entry, addr_offset_set, addr_pn_set}

pub table_entry_lem :
    (base : ℕ) → base < 2 ^ 19 → table_entry 0 (base * 2 ^ 13) ≡ base * 2 ^ 13 + 2 ^ 10
unfolding table_entry
table_entry_lem base h =
    let shifted : mul32 (base * 2 ^ 13 / 2 ^ 13) (2 ^ 13) ≡ base * 2 ^ 13 = omega arith in
    ap (bit_or 1024) shifted ∙ bit_or-disjoint_swap 13 base 1024 (omega arith)

pub page_entry_lem :
    (paddr : ℕ) → paddr < 2 ^ 32 → page_entry paddr ≡ paddr / 2 ^ 13 * 2 ^ 13 + 2 ^ 10 + 7 * 2 ^ 6
unfolding page_entry
page_entry_lem paddr h = ground (
  arith,
  zero-bit_or (mul32 (paddr / 2 ^ 13) (2 ^ 13)),
  bit_or-disjoint 13 (paddr / 2 ^ 13) 1024,
  bit_or-disjoint 10 (paddr / 2 ^ 13 * 8 + 1) 448,
)

pub address_lem :
    (ppn offset : ℕ)
    → ppn < 2 ^ 19
    → addr_offset_set (addr_pn_set 0 ppn) (offset % 2 ^ 13) ≡ ppn * 2 ^ 13 + offset % 2 ^ 13
address_lem ppn offset h =
    ground (
      arith,
      zero-bit_or (ppn % 2 ^ 19 * 2 ^ 13),
      bit_or-disjoint 13 ppn (offset % 2 ^ 13 % 2 ^ 13),
    )
